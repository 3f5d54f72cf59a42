-- ===== src/Sim/Install.antt =====
-- What InstallRootCert runs.
use proxysim.Prelude.{◌≡◌, refl, List, [], ◌∷◌, ◌++◌, Option, none, some, Text}
use proxysim.Strings.{trim_space}
use proxysim.Sim.{
  Runner, RunError, message, cert_missing, cert_unreadable, installing, Bench, Parsed, Device,
  RawDevice, Result, ok, failed, Stat, present, absent, unreadable, xcrun, list_args, select_target,
  simctl_args, command, booted_devices, Error,
}

abbrev pub Commands : Type 0
Commands = List (Text × List Text)

abbrev pub list_command : Text × List Text
list_command = (xcrun, list_args)

module _ {Sys : Type 0} (run : Runner Sys)
    (read : Text → Parsed (List (Text × List RawDevice))) where
  -- what a run of the command that installs comes to
  abbrev pub said : Sys × Text × Option RunError → Result Unit
  said (sys, out, none) = ok tt
  said (sys, out, some m) = failed (installing (message m) (trim_space out))

  -- How a run of InstallRootCert went: why it ended, with the commands that it ran and its result.
  pub data Went (stat : Stat) (cert_path set device : Text) (b : Bench Sys)
      : Commands → Result Unit → Type 0 where
    no_certificate :
        stat ≡ absent → Went stat cert_path set device b [] (failed (cert_missing cert_path))
    no_access :
        (e : Text)
        → stat ≡ unreadable e
        → Went stat cert_path set device b [] (failed (cert_unreadable cert_path e))
    no_list :
        (e : Error)
        → stat ≡ present
        → (booted_devices run read b).1 ≡ failed e
        → Went stat cert_path set device b (list_command ∷ []) (failed e)
    no_target :
        (booted : List Device) (e : Error)
        → stat ≡ present
        → (booted_devices run read b).1 ≡ ok booted
        → select_target booted device ≡ failed e
        → Went stat cert_path set device b (list_command ∷ []) (failed e)
    installed :
        (booted : List Device) (target : Text)
        → stat ≡ present
        → (booted_devices run read b).1 ≡ ok booted
        → select_target booted device ≡ ok target
        → Went stat cert_path set device b
            (list_command ∷ (xcrun, simctl_args set target cert_path) ∷ [])
            (said (
              run xcrun
                (simctl_args set target cert_path)
                (booted_devices run read b).0.temps
                (booted_devices run read b).0.sys))

  -- the commands of a run, behind those that were run before
  abbrev pub WentFrom : Stat → Text → Text → Text → Bench Sys → Bench Sys × Result Unit → Type 0
  WentFrom stat cert_path set device b r =
      (commands : Commands) × (r.0.ran ≡ b.ran ++ commands)
      × Went stat cert_path set device b commands r.1

  ran-command :
      (name : Text) (args : List Text) (b : Bench Sys)
      → (command run name args b).0.ran ≡ b.ran ++ (name, args) ∷ []
  unfolding command
  ran-command name args b = refl
