-- ===== src/Sim/Cleanup.antt =====
-- InstalledApps leaves no temporary file behind.
use proxysim.Prelude.{
  ◌≡◌, refl, List, [], ◌∷◌, none, Text, codes, erase, lookup, is_nil, text_eq_refl, arith,
  Bool-cases, inl, inr,
}
use proxysim.Sim.{Runner, Bench, Parsed, Result, ok, failed, xcrun, command}
use proxysim.Sim.Apps.{
  Temp, usable, not_created, not_written, not_closed, RawApp, plist_to_json, read_apps,
  installed_apps, remove_file,
}

erase_of_none {ℓ} :
    {V : Type ℓ} (k : Text) (m : List (Text × V)) → lookup k m ≡ none → erase k m ≡ m
unfolding erase lookup
erase_of_none k [] h = refl
erase_of_none k ((j, v) ∷ m) h = ground (arith, h, erase_of_none k m)

erase_added {ℓ} :
    {V : Type ℓ} (k : Text) (v : V) (m : List (Text × V))
    → lookup k m ≡ none
    → erase k ((k, v) ∷ m) ≡ m
unfolding erase
erase_added k v m h = ground (arith, text_eq_refl k, erase_of_none k m h)

-- a file with a new name
abbrev pub Fresh : Temp → List (Text × Text) → Type 0
Fresh (usable path) temps = lookup path temps ≡ none
Fresh (not_created e) temps = Unit
Fresh (not_written path e) temps = lookup path temps ≡ none
Fresh (not_closed path e) temps = lookup path temps ≡ none

module _ {Sys : Type 0} (run : Runner Sys) (read : Text → Parsed (List (Text × RawApp))) where
  temps-plist_to_json :
      (temp : Temp) (plist : Text) (b : Bench Sys)
      → Fresh temp b.temps
      → (plist_to_json run temp plist b).0.temps ≡ b.temps
  unfolding plist_to_json remove_file command
  temps-plist_to_json (not_created e) plist b h = refl
  temps-plist_to_json (not_written path e) plist b h = erase_added path [] b.temps h
  temps-plist_to_json (not_closed path e) plist b h = erase_added path plist b.temps h
  temps-plist_to_json (usable path) plist b h = ground (arith, erase_added path plist b.temps h)

  temps-read_apps :
      (udid : Text) (r : Bench Sys × Result Text) → (read_apps run read udid r).0.temps ≡ r.0.temps
  unfolding read_apps
  temps-read_apps udid (b, failed e) = refl
  temps-read_apps udid (b, ok json) = refl

  -- On every path, errors included, InstalledApps leaves the temporary files as they were.
  pub temps-installed_apps :
      (temp : Temp) (udid : Text) (b : Bench Sys)
      → Fresh temp b.temps
      → (installed_apps run read temp udid b).0.temps ≡ b.temps
  unfolding installed_apps command
  temps-installed_apps temp udid b h = elim (Bool-cases (is_nil udid)) [
    | inl e ↦ rw (e, installed_apps) refl
    | inr e ↦
        let w = command run xcrun (codes "simctl" ∷ codes "listapps" ∷ udid ∷ []) b in
        let p = temps-plist_to_json temp w.1 w.0 h in
        ground (arith, e, p, temps-read_apps udid (plist_to_json run temp w.1 w.0))
  ]
