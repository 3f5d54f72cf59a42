-- ===== src/Origin/Laws.antt =====
-- What a filter built from the flags decides, and what `Active` says of a filter.
use mathlib.Core.List.{foldl}
use proxysim.Prelude.{
  ◌≡◌, ◌≢◌, ◌↔◌, refl, Bool, true, false, not, ◌&&◌, ◌||◌, List, [], ◌∷◌, ◌++◌, Text, text_eq,
  text_eq_iff, member, member-append, is_nil, if◌then◌else◌, arith,
}
use proxysim.Strings.{trim_space, nonblank}
use proxysim.Origin.{Process, Filter, add_app, build_filter, active, matches}

is_nil-append : (xs : List Text) (t : Text) → is_nil (xs ++ t ∷ []) ≡ false
is_nil-append [] t = refl
is_nil-append (x ∷ xs) t = refl

member-add_app :
    (f : Filter) (a k : Text)
    → member k (add_app f a).apps ≡ (member k f.apps || member k (nonblank (a ∷ [])))
unfolding add_app member nonblank
member-add_app f a k =
    ground (arith, member-append k f.apps (trim_space a ∷ []), text_eq_iff (trim_space a) k)

member-nonblank :
    (a k : Text) (apps : List Text)
    → member k (nonblank (a ∷ apps)) ≡ (member k (nonblank (a ∷ [])) || member k (nonblank apps))
unfolding member nonblank
member-nonblank a k apps = ground arith

-- the loop adds the nonblank names to the set that it started with
member-loop :
    (apps : List Text) (f : Filter) (k : Text)
    → member k (foldl add_app f apps).apps ≡ (member k f.apps || member k (nonblank apps))
unfolding member nonblank
member-loop [] f k = ground arith
member-loop (a ∷ apps) f k =
    ground (arith, member-loop apps (add_app f a) k, member-add_app f a k, member-nonblank a k apps)

is_nil-loop :
    (apps : List Text) (f : Filter)
    → is_nil (foldl add_app f apps).apps ≡ (is_nil f.apps && is_nil (nonblank apps))
unfolding add_app nonblank member
is_nil-loop [] f = ground arith
is_nil-loop (a ∷ apps) f =
    ground (arith, is_nil-loop apps (add_app f a), is_nil-append f.apps (trim_space a))

only_sim-loop :
    (apps : List Text) (f : Filter)
    → (foldl add_app f apps).only_sim ≡ (f.only_sim || not (is_nil (nonblank apps)))
unfolding add_app nonblank
only_sim-loop [] f = ground arith
only_sim-loop (a ∷ apps) f = ground (arith, only_sim-loop apps (add_app f a))

-- A filter built from the flags accepts a process exactly when: the flags name an app (some entry
-- is not blank), and the process is a simulator's with a bundle id among the trimmed entries; or
-- they name none, and the process is a simulator's or `-only-sim` is off.
pub build_filter_decision :
    (only_sim : Bool) (apps : List Text) (p : Process)
    → matches (build_filter only_sim apps) p ≡ (
        if is_nil (nonblank apps)
        then p.simulator || not only_sim
        else p.simulator && member p.bundle_id (nonblank apps))
unfolding matches build_filter member
build_filter_decision only_sim apps p =
    let f0 : Filter = record { only_sim = only_sim; apps = [] } in
    ground (arith, member-loop apps f0 p.bundle_id, is_nil-loop apps f0, only_sim-loop apps f0)

abbrev host_process : Process
host_process = record { pid = 0; path = []; simulator = false; device_udid = []; bundle_id = [] }

-- `Active` is false exactly of the filters that accept every process, so skipping the origin's
-- resolution under an inactive filter changes no decision.
pub active-matches : (f : Filter) → (active f ≡ false) ↔ ((p : Process) → matches f p ≡ true)
unfolding active matches
active-matches f = (λ h p. ground arith, λ all. ground (arith, all host_process))

not-member-nonblank : (apps : List Text) → member [] (nonblank apps) ≡ false
unfolding member nonblank text_eq
not-member-nonblank [] = refl
not-member-nonblank (a ∷ apps) = ground (arith, not-member-nonblank apps)

-- Where the flags name an app, a process with no bundle id is never accepted.
pub build_filter_unattributed :
    (only_sim : Bool) (apps : List Text) (p : Process)
    → nonblank apps ≢ []
    → p.bundle_id ≡ []
    → matches (build_filter only_sim apps) p ≡ false
build_filter_unattributed only_sim apps p named e =
    ground (arith, build_filter_decision only_sim apps p, not-member-nonblank apps, named)
