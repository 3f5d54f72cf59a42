-- ===== src/Sim/Apps.antt =====
-- internal/sim/apps.go: the installed apps of a simulator, read through a temporary file.
use proxysim.Prelude.{
  Bool, List, [], ◌∷◌, none, some, Text, codes, is_nil, text_eq, erase, sort, if◌then◌else◌,
}
use proxysim.Strings.{trim_space}
use proxysim.Strings.Order.{text_le}
use proxysim.Sim.{
  not_found, exited, message, Runner, Bench, Parsed, parsed, malformed, no_xcrun, no_udid,
  listing_apps, converting, creating, writing, closing, plutil, parsing_apps, Result, ok, failed,
  xcrun, command,
}

pub record App : Type 0 where
  pub bundle_id : Text
  pub name : Text

-- An entry of the app list.
pub record RawApp : Type 0 where
  pub application_type : Text
  pub identifier : Text
  pub display_name : Text
  pub bundle_name : Text

unfoldable pub first_non_empty : List Text → Text
first_non_empty [] = []
first_non_empty (v ∷ vs) = if is_nil v then first_non_empty vs else v

-- the app of an entry of the map, where it is a user's
unfoldable pub to_app : Text → RawApp → App
unfolding first_non_empty
to_app key info =
    let id = if is_nil info.identifier then key else info.identifier in
    record {
      bundle_id = id;
      name = first_non_empty (info.display_name ∷ info.bundle_name ∷ id ∷ []);
    }

abbrev pub is_user : RawApp → Bool
is_user info = text_eq info.application_type (codes "User")

unfoldable pub user_apps : List (Text × RawApp) → List App
unfolding to_app
user_apps [] = []
user_apps ((key, info) ∷ entries) =
    let rest = user_apps entries in if is_user info then to_app key info ∷ rest else rest

-- `less` of the sort, or equal
unfoldable pub app_le : App → App → Bool
unfolding text_le
app_le a b =
    if text_eq a.name b.name then text_le a.bundle_id b.bundle_id else text_le a.name b.name

unfoldable pub parse_apps : Parsed (List (Text × RawApp)) → Result (List App)
unfolding user_apps app_le
parse_apps (malformed e) = failed (parsing_apps e)
parse_apps (parsed entries) = ok (sort app_le (user_apps entries))

-- What a temporary file's steps yield: its path, or the step that fails.
pub data Temp : Type 0 where
  usable : Text → Temp
  not_created : Text → Temp
  not_written not_closed : Text → Text → Temp

module _ {Sys : Type 0} (run : Runner Sys) where
  abbrev with_file : Text → Text → Bench Sys → Bench Sys
  with_file path contents b = record b { temps = (path, contents) ∷ b.temps }

  -- the deferred `os.Remove`
  unfoldable pub remove_file : Text → Bench Sys → Bench Sys
  remove_file path b = record b { temps = erase path b.temps }

  -- A failed write may leave a part of the file: nothing reads it before it is removed.
  unfoldable pub plist_to_json : Temp → Text → Bench Sys → Bench Sys × Result Text
  unfolding remove_file command
  plist_to_json (not_created e) plist b = (b, failed (creating e))
  plist_to_json (not_written path e) plist b =
      (remove_file path (with_file path [] b), failed (writing e))
  plist_to_json (not_closed path e) plist b =
      (remove_file path (with_file path plist b), failed (closing e))
  plist_to_json (usable path) plist b =
      let (b', out, e) =
        command run (codes "plutil")
          (codes "-convert" ∷ codes "json" ∷ codes "-o" ∷ codes "-" ∷ path ∷ [])
          (with_file path plist b) in
      elim e [
        | none ↦ (remove_file path b', ok out)
        | some m ↦ (remove_file path b', failed (plutil (message m) (trim_space out)))
      ]

  module _ (read : Text → Parsed (List (Text × RawApp))) where
    -- InstalledApps behind the conversion
    unfoldable pub read_apps : Text → Bench Sys × Result Text → Bench Sys × Result (List App)
    unfolding parse_apps
    read_apps udid (b, failed e) = (b, failed (converting udid e))
    read_apps udid (b, ok json) = (b, parse_apps (read json))

    unfoldable pub installed_apps : Temp → Text → Bench Sys → Bench Sys × Result (List App)
    unfolding command plist_to_json read_apps
    installed_apps temp udid b =
        if is_nil udid
        then (b, failed no_udid)
        else (let (b', plist, e) =
              command run xcrun (codes "simctl" ∷ codes "listapps" ∷ udid ∷ []) b in
            elim e [
              | none ↦ read_apps udid (plist_to_json temp plist b')
              | some not_found ↦ (b', failed no_xcrun)
              | some (exited m) ↦ (b', failed (listing_apps udid m (trim_space plist)))
            ])
