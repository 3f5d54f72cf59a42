-- ===== src/Origin.antt =====
-- internal/origin/origin.go: the intercept decision over the process that opened a connection, the
-- filter that the control bar swaps at run time, and the classification of an executable path.
pub mod Laws
pub mod Classify
pub mod Resolve
pub mod Libproc
use mathlib.Core.List.{foldl}
use mathlib.Core.Option
use proxysim.Prelude.{
  ℕ, Bool, true, false, not, ◌&&◌, ◌||◌, List, [], ◌∷◌, ◌++◌, Option, none, some, Text, codes,
  lookup, put, member, is_nil, if◌then◌else◌,
}
use proxysim.Strings.{trim_space, cut, contains}

pub record Process : Type 0 where
  pub pid : ℕ
  pub path : Text
  pub simulator : Bool
  pub device_udid : Text
  pub bundle_id : Text

-- `apps` is a set, a nil map being the empty one.
pub record Filter : Type 0 where
  pub only_sim : Bool
  pub apps : List Text

-- the loop of `BuildFilter`, one name
unfoldable pub add_app : Filter → Text → Filter
add_app f a =
    let t = trim_space a in
    if is_nil t
    then f
    else record f { apps = if member t f.apps then f.apps else f.apps ++ t ∷ []; only_sim = true }

unfoldable pub build_filter : Bool → List Text → Filter
build_filter only_sim apps = foldl add_app (record { only_sim = only_sim; apps = [] }) apps

unfoldable pub active : Filter → Bool
active f = f.only_sim || not (is_nil f.apps)

unfoldable pub matches : Filter → Process → Bool
matches f p =
    if not (is_nil f.apps)
    then p.simulator && member p.bundle_id f.apps
    else if f.only_sim
    then p.simulator
    else true

-- An atomic pointer to the filter in force; `none` is the nil pointer.
pub record Controller : Type 0 where
  pub p : Option Filter

unfoldable pub new_controller : Filter → Controller
new_controller initial = record { p = some initial }

unfoldable pub current : Controller → Filter
current c = elim c.p [ some f ↦ f | none ↦ record { only_sim = false; apps = [] } ]

unfoldable pub set : Controller → Filter → Controller
set c f = record c { p = some f }

abbrev pub device_marker : Text
device_marker = codes "/CoreSimulator/Devices/"

abbrev pub runtime_marker : Text
runtime_marker = codes ".simruntime/"

-- The directory of the bundle that holds the path, or the empty text.
unfoldable pub app_dir_of : Text → Text
app_dir_of path = elim (cut path (codes ".app/")) [
  | some (before, after) ↦ before ++ codes ".app"
  | none ↦ []
]

-- the first branch of `simParts`: the device, where a slash follows the marker
unfoldable pub device_of : Text → Option Text
device_of path = elim (cut path device_marker) [
  | some (before, rest) ↦ Option.map (λ p. p.0) (cut rest (b'/' ∷ []))
  | none ↦ none
]

unfoldable pub sim_parts : Text → Option (Text × Text)
unfolding device_of
sim_parts path = elim (device_of path) [
  | some udid ↦ some (udid, app_dir_of path)
  | none ↦ if contains path runtime_marker then some ([], app_dir_of path) else none
]

-- `bundleCache`
abbrev pub Cache : Type 0
Cache = List (Text × Text)

-- `plutil` is the command's output on the Info.plist of a directory; `none` is a failed command.
module _ (plutil : Text → Option Text) where
  unfoldable pub read_bundle_id : Text → Text
  read_bundle_id app_dir = elim (plutil app_dir) [ some out ↦ trim_space out | none ↦ [] ]

  unfoldable pub bundle_id : Cache → Text → Text × Cache
  bundle_id cache app_dir = if is_nil app_dir then ([], cache) else elim (lookup app_dir cache) [
    | some v ↦ (v, cache)
    | none ↦ let id = read_bundle_id app_dir in (id, put app_dir id cache)
  ]

  unfoldable pub classify : Cache → ℕ → Text → Process × Cache
  unfolding sim_parts
  classify cache pid path = elim (sim_parts path) [
    | none ↦ (
      record { pid = pid; path = path; simulator = false; device_udid = []; bundle_id = [] },
      cache,
    )
    | some (udid, app_dir) ↦
        let (id, cache') = bundle_id cache app_dir in
        (
          record { pid = pid; path = path; simulator = true; device_udid = udid; bundle_id = id },
          cache',
        )
  ]
