-- ===== src/Sysproxy.antt =====
-- internal/sysproxy/sysproxy.go: the takeover of the system proxy and its restoration. What a
-- command does is the argument `run`, and JSON the argument `Codec`. Errors are values of `Error`,
-- one constructor for a message of the source.
pub mod Parse
pub mod Takeover
pub mod Restore
pub mod Recovery
use proxysim.Prelude.{
  Bool, true, false, not, ◌||◌, List, [], ◌∷◌, ◌++◌, Option, none, some, Text, codes, is_nil,
  if◌then◌else◌,
}
use proxysim.Strings.{contains, to_lower, trim_space}
use proxysim.Strings.Signed.{ℤ, itoa}
use proxysim.Sysproxy.Parse.{
  Setting, parse_default_interface, service_for_interface, parse_proxy_setting,
}

-- The combined output of a command, and its error.
abbrev pub Runner : Type 0 → Type 0
Runner Sys = Text → List Text → Sys → Sys × Text × Option Text

pub record Config : Type 0 where
  pub service : Text
  pub web : Setting
  pub secure : Setting

pub record Codec : Type 0 where
  pub marshal : Config → Option Text
  pub unmarshal : Text → Option Config

-- How the file system fails, where it does; a failed write leaves some contents or no file.
pub record Disk : Type 0 where
  pub write_fault : Option (Text × Option Text)
  pub read_fault : Option Text
  pub remove_fault : Option Text

-- The machine, the snapshot file, and what both were after every action: where a crash may hit.
pub record Mac (Sys : Type 0) : Type 0 where
  pub sys : Sys
  pub file : Option Text
  pub past : List (Sys × Option Text)

-- `service` and `restored` of a Manager
pub record Manager : Type 0 where
  pub service : Text
  pub restored : Bool

pub data Error : Type 0 where
  no_primary_service marshalling parsing : Error
  need_admin no_service writing reading_file removing : Text → Error
  setting listing : Text → Text → Error
  reading restoring_host restoring_state : Text → Text → Text → Text → Error
  reading_config restoring recovering : Text → Error → Error

pub data Result {ℓ} (A : Type ℓ) : Type ℓ where
  ok : A → Result A
  failed : Error → Result A

-- the result of a function that returns an error only
abbrev pub Done : Type 0
Done = Result {0} Unit

-- what Apply returns for the caller to run
pub data Restorer : Type 0 where
  noop : Restorer
  restore_to : Config → Restorer

abbrev pub networksetup : Text
networksetup = codes "networksetup"

abbrev pub webproxy : Text
webproxy = codes "webproxy"

abbrev pub securewebproxy : Text
securewebproxy = codes "securewebproxy"

abbrev pub get_args : Text → Text → List Text
get_args service kind = (codes "-get" ++ kind) ∷ service ∷ []

abbrev pub set_args : Text → Text → Text → ℤ → List Text
set_args service kind host port = (codes "-set" ++ kind) ∷ service ∷ host ∷ itoa port ∷ []

abbrev pub state_args : Text → Text → Bool → List Text
state_args service kind enabled =
    (codes "-set" ++ (kind ++ codes "state"))
    ∷ service
    ∷ (if enabled then codes "on" else codes "off")
    ∷ []

unfoldable pub classify_set_err : Text → Text → Error
classify_set_err err out =
    let msg = trim_space out in
    let low = to_lower msg in
    if contains low (codes "administrator") || contains low (codes "permission denied")
    then need_admin msg
    else setting err msg

module _ {Sys : Type 0} where
  abbrev pub note : Mac Sys → Mac Sys
  note w = record w { past = w.past ++ (w.sys, w.file) ∷ [] }

  -- `os.WriteFile`
  unfoldable pub write_file : Disk → Text → Mac Sys → Mac Sys × Option Text
  write_file d contents w = elim d.write_fault [
    | none ↦ (note (record w { file = some contents }), none)
    | some (e, left) ↦ (note (record w { file = left }), some e)
  ]

  unfoldable pub clear_snapshot : Disk → Mac Sys → Mac Sys × Done
  clear_snapshot d w = elim w.file [
    | none ↦ (w, ok tt)
    | some contents ↦ elim d.remove_fault [
      | none ↦ (note (record w { file = none }), ok tt)
      | some e ↦ (w, failed (removing e))
    ]
  ]

  unfoldable pub persist : Codec → Disk → Config → Mac Sys → Mac Sys × Done
  unfolding write_file
  persist json d cfg w = elim (json.marshal cfg) [
    | none ↦ (w, failed marshalling)
    | some contents ↦
        let (w', e) = write_file d contents w in
        elim e [ none ↦ (w', ok tt) | some msg ↦ (w', failed (writing msg)) ]
  ]

  unfoldable pub load_snapshot : Codec → Disk → Mac Sys → Result (Option Config)
  load_snapshot json d w = elim w.file [
    | none ↦ ok none
    | some contents ↦ elim d.read_fault [
      | some e ↦ failed (reading_file e)
      | none ↦ elim (json.unmarshal contents) [ none ↦ failed parsing | some cfg ↦ ok (some cfg) ]
    ]
  ]

  module _ (run : Runner Sys) where
    unfoldable pub command : Text → List Text → Mac Sys → Mac Sys × Text × Option Text
    command name args w =
        let (sys, out, e) = run name args w.sys in (note (record w { sys = sys }), out, e)

    unfoldable pub primary_service : Mac Sys → Mac Sys × Result Text
    unfolding command
    primary_service w =
        let (w', out, e) =
          command (codes "route") (codes "-n" ∷ codes "get" ∷ codes "default" ∷ []) w in
        elim e [
          | some m ↦ (w', failed no_primary_service)
          | none ↦ elim (parse_default_interface out) [
            | none ↦ (w', failed no_primary_service)
            | some iface ↦
                let (w'', order, e') =
                  command networksetup (codes "-listnetworkserviceorder" ∷ []) w' in
                elim e' [
                  | some m ↦ (w'', failed (listing m (trim_space order)))
                  | none ↦ elim (service_for_interface order iface) [
                    | none ↦ (w'', failed (no_service iface))
                    | some service ↦ (w'', ok service)
                  ]
                ]
          ]
        ]

    unfoldable pub get_setting : Text → Text → Mac Sys → Mac Sys × Result Setting
    unfolding command
    get_setting service kind w =
        let (w', out, e) = command networksetup (get_args service kind) w in
        elim e [
          | some m ↦ (w', failed (reading kind service m (trim_space out)))
          | none ↦ (w', ok (parse_proxy_setting out))
        ]

    unfoldable pub snapshot : Text → Mac Sys → Mac Sys × Result Config
    unfolding get_setting
    snapshot service w =
        let (w', r) = get_setting service webproxy w in
        elim r [
          | failed e ↦ (w', failed e)
          | ok web ↦
              let (w'', r') = get_setting service securewebproxy w' in
              elim r' [
                | failed e ↦ (w'', failed e)
                | ok secure ↦ (w'', ok (record { service = service; web = web; secure = secure }))
              ]
        ]
