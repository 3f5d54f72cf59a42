-- ===== src/Sim.antt =====
-- internal/sim/trust.go: the booted simulators and the installation of the certificate. What a command
-- does is the argument `run`; reading JSON is an argument too. Errors are values of `Error`, one
-- constructor for a message of the source.
pub mod Apps
pub mod Select
pub mod Listing
pub mod Install
pub mod Cleanup
use proxysim.Prelude.{
  Bool, true, false, List, [], ◌∷◌, ◌++◌, map, Option, none, some, Text, codes, is_nil, text_eq,
  sort, if◌then◌else◌,
}
use mathlib.Core.List.{flat_map}
use proxysim.Strings.{trim_space}
use proxysim.Strings.Order.{text_le}

-- `exec.ErrNotFound`, or any other error of a command.
pub data RunError : Type 0 where
  not_found : RunError
  exited : Text → RunError

abbrev pub message : RunError → Text
message not_found = codes "executable file not found in $PATH"
message (exited e) = e

-- A command sees the temporary files; it gives its combined output and its error.
abbrev pub Runner : Type 0 → Type 0
Runner Sys = Text → List Text → List (Text × Text) → Sys → Sys × Text × Option RunError

-- What the commands act on, the temporary files, and the commands that were run.
pub record Bench (Sys : Type 0) : Type 0 where
  pub sys : Sys
  pub temps : List (Text × Text)
  pub ran : List (Text × List Text)

-- What reading JSON gives.
pub data Parsed (A : Type 0) : Type 0 where
  parsed : A → Parsed A
  malformed : Text → Parsed A

pub record Device : Type 0 where
  pub udid : Text
  pub name : Text
  pub runtime : Text

-- An entry of simctl's list.
pub record RawDevice : Type 0 where
  pub udid : Text
  pub name : Text
  pub state : Text

pub data Error : Type 0 where
  no_xcrun no_booted no_udid : Error
  cert_missing none_booted parsing_devices parsing_apps several creating writing closing :
      Text → Error
  cert_unreadable listing not_booted installing plutil : Text → Text → Error
  listing_apps : Text → Text → Text → Error
  converting : Text → Error → Error

pub data Result (A : Type 0) : Type 0 where
  ok : A → Result A
  failed : Error → Result A

-- `os.Stat` of the certificate
pub data Stat : Type 0 where
  present absent : Stat
  unreadable : Text → Stat

abbrev pub xcrun : Text
xcrun = codes "xcrun"

abbrev pub list_args : List Text
list_args = codes "simctl" ∷ codes "list" ∷ codes "devices" ∷ codes "-j" ∷ []

unfoldable pub device_line : Device → Text
device_line d = codes "  " ++ (d.udid ++ (codes "  " ++ (d.name ++ codes "\n")))

-- `strings.TrimRight(s, "\n")`
unfoldable pub trim_newlines : Text → Text
trim_newlines [] = []
trim_newlines (c ∷ s) =
    let rest = trim_newlines s in if text_eq (c ∷ rest) (codes "\n") then [] else c ∷ rest

unfoldable pub format_devices : List Device → Text
unfolding device_line trim_newlines
format_devices ds = trim_newlines (flat_map device_line ds)

-- the devices of one runtime that are booted
unfoldable pub booted_of : Text → List RawDevice → List Device
booted_of runtime [] = []
booted_of runtime (d ∷ ds) =
    let rest = booted_of runtime ds in
    if text_eq d.state (codes "Booted")
    then record { udid = d.udid; name = d.name; runtime = runtime } ∷ rest
    else rest

unfoldable pub collect_booted : List (Text × List RawDevice) → List Device
unfolding booted_of
collect_booted [] = []
collect_booted ((runtime, ds) ∷ entries) = booted_of runtime ds ++ collect_booted entries

abbrev pub udid_le : Device → Device → Bool
udid_le a b = text_le a.udid b.udid

-- The entries of the map come in the order of its iteration.
unfoldable pub parse_booted : Parsed (List (Text × List RawDevice)) → Result (List Device)
unfolding collect_booted
parse_booted (malformed e) = failed (parsing_devices e)
parse_booted (parsed entries) = ok (sort udid_le (collect_booted entries))

unfoldable pub is_booted : Text → List Device → Bool
is_booted device [] = false
is_booted device (d ∷ ds) = if text_eq d.udid device then true else is_booted device ds

-- the target, where no device was asked for
unfoldable pub only_booted : List Device → Result Text
unfolding format_devices
only_booted [] = failed no_booted
only_booted (d ∷ []) = ok (codes "booted")
only_booted (d ∷ e ∷ ds) = failed (several (format_devices (d ∷ e ∷ ds)))

unfoldable pub select_target : List Device → Text → Result Text
unfolding is_booted only_booted
select_target booted device =
    if is_nil device
    then only_booted booted
    else if is_booted device booted
    then ok device
    else if is_nil booted
    then failed (none_booted device)
    else failed (not_booted device (format_devices booted))

unfoldable pub simctl_args : Text → Text → Text → List Text
simctl_args set target cert_path =
    codes "simctl"
    ∷ ((if is_nil set then [] else codes "--set" ∷ set ∷ [])
        ++ codes "keychain" ∷ target ∷ codes "add-root-cert" ∷ cert_path ∷ [])

module _ {Sys : Type 0} (run : Runner Sys) where
  unfoldable pub command : Text → List Text → Bench Sys → Bench Sys × Text × Option RunError
  command name args b =
      let (sys, out, e) = run name args b.temps b.sys in
      (record b { sys = sys; ran = b.ran ++ (name, args) ∷ [] }, out, e)

  module _ (read : Text → Parsed (List (Text × List RawDevice))) where
    unfoldable pub booted_devices : Bench Sys → Bench Sys × Result (List Device)
    unfolding command parse_booted
    booted_devices b =
        let (b', out, e) = command xcrun list_args b in
        elim e [
          | none ↦ (b', parse_booted (read out))
          | some not_found ↦ (b', failed no_xcrun)
          | some (exited m) ↦ (b', failed (listing m (trim_space out)))
        ]

    -- InstallRootCert behind the list of devices
    unfoldable pub install_on :
        Text → Text → Text → Bench Sys × Result (List Device) → Bench Sys × Result Unit
    unfolding command select_target simctl_args
    install_on cert_path set device (b, failed e) = (b, failed e)
    install_on cert_path set device (b, ok booted) = elim (select_target booted device) [
      | failed e ↦ (b, failed e)
      | ok target ↦
          let (b', out, e) = command xcrun (simctl_args set target cert_path) b in
          elim e [
            | none ↦ (b', ok tt)
            | some m ↦ (b', failed (installing (message m) (trim_space out)))
          ]
    ]

    unfoldable pub install_root_cert :
        Stat → Text → Text → Text → Bench Sys → Bench Sys × Result Unit
    unfolding booted_devices install_on
    install_root_cert present cert_path set device b =
        install_on cert_path set device (booted_devices b)
    install_root_cert absent cert_path set device b = (b, failed (cert_missing cert_path))
    install_root_cert (unreadable e) cert_path set device b =
        (b, failed (cert_unreadable cert_path e))
