-- ===== src/Examples/Simulators.antt =====
-- internal/sim on two booted simulators.
use proxysim.Prelude.{◌≡◌, ◌↔◌, List, [], ◌∷◌, ◌++◌, none, Text, codes}
use proxysim.Sim.{Runner, Bench, Parsed, parsed, Device, RawDevice, ok, select_target}
use proxysim.Sim.Apps.{RawApp}
use proxysim.Sim.Select.{Chosen, select_target_iff}

abbrev device : Text → Device
device udid = record { udid = udid; name = codes "iPhone"; runtime = codes "iOS" }

abbrev booted : List Device
booted = device (codes "A") ∷ device (codes "B") ∷ []

select_target_iff_example :
    (select_target booted (codes "B") ≡ ok (codes "B")) ↔ Chosen booted (codes "B") (codes "B")
select_target_iff_example = select_target_iff booted (codes "B") (codes "B")

-- a command prints its name
abbrev run : Runner Unit
run name args temps sys = (sys, name, none)

abbrev bench : Bench Unit
bench = record { sys = tt; temps = (codes "/tmp/other", codes "kept") ∷ []; ran = [] }

abbrev raw : List RawDevice
raw = record { udid = codes "A"; name = codes "iPhone"; state = codes "Booted" } ∷ []

abbrev read : Text → Parsed (List (Text × List RawDevice))
read out = parsed ((codes "iOS", raw) ∷ [])

abbrev app : Text → RawApp
app name = record {
  application_type = codes "User";
  identifier = codes "com." ++ name;
  display_name = name;
  bundle_name = [];
}

abbrev maps : Text × RawApp
maps = (codes "com.maps", app (codes "maps"))

abbrev notes : Text × RawApp
notes = (codes "com.notes", app (codes "notes"))

abbrev read_apps : Text → Parsed (List (Text × RawApp))
read_apps json = parsed (maps ∷ [])
