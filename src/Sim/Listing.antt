-- ===== src/Sim/Listing.antt =====
-- The lists of simulators and of apps do not show the order in which Go iterates over a map.
use mathlib.Core.List.{Permᴰ}
use mathlib.Core.List.Permᴰ
use proxysim.Prelude.{
  ◌≡◌, ◌≢◌, ◌∙◌, sym, ap, refl, true, false, List, [], ◌∷◌, ◌++◌, Text, sort, sort-perm, IsOrder,
  AllUntied, Untied, All, arith, text_eq_iff, if◌then◌else◌, append_assoc, subst,
}
use proxysim.Strings.Order.{text_le-IsOrder, text_le_antisymm}
use proxysim.Sim.{parsed, ok, RawDevice, Device, collect_booted, booted_of, udid_le, parse_booted}
use proxysim.Sim.Apps.{App, RawApp, user_apps, app_le, parse_apps, is_user, to_app}

-- the concatenated images of the entries
gather {ℓ κ} : {E : Type ℓ} {A : Type κ} → (E → List A) → List E → List A
gather f [] = []
gather f (e ∷ es) = f e ++ gather f es

gather-perm {ℓ κ} :
    {E : Type ℓ} {A : Type κ} (f : E → List A) {es fs : List E}
    → Permᴰ es fs
    → Permᴰ (gather f es) (gather f fs)
unfolding gather
gather-perm f Permᴰ.nil = Permᴰ.nil
gather-perm f (Permᴰ.cons {a = a} {b = b} {l₁ = es} {l₂ = fs} e p) =
    subst (λ x. Permᴰ (f a ++ gather f es) (f x ++ gather f fs)) e
      (Permᴰ.append_left (f a) (gather-perm f p))
gather-perm f (Permᴰ.swap {a = a} {b = b} {a' = a'} {b' = b'} {l = l} e g) =
    subst (λ x. Permᴰ (f a ++ (f b ++ gather f l)) (f a' ++ (f x ++ gather f l))) e
      (subst (λ x. Permᴰ (f a ++ (f b ++ gather f l)) (f x ++ (f a ++ gather f l))) g
        (subst (λ x. Permᴰ x (f b ++ (f a ++ gather f l))) (append_assoc (f a) (f b) (gather f l))
          (subst (λ x. Permᴰ ((f a ++ f b) ++ gather f l) x) (append_assoc (f b) (f a) (gather f l))
            (Permᴰ.append_right (gather f l) (Permᴰ.append_comm (f a) (f b))))))
gather-perm f (Permᴰ.trans p q) = Permᴰ.trans (gather-perm f p) (gather-perm f q)

-- at most one app of an entry
app_of : Text × RawApp → List App
app_of (key, info) = if is_user info then to_app key info ∷ [] else []

user_apps-gather : (es : List (Text × RawApp)) → user_apps es ≡ gather app_of es
unfolding user_apps gather app_of
user_apps-gather [] = refl
user_apps-gather ((key, info) ∷ es) = ground (arith, user_apps-gather es)

devices_of : Text × List RawDevice → List Device
devices_of (runtime, ds) = booted_of runtime ds

collect_booted-gather :
    (es : List (Text × List RawDevice)) → collect_booted es ≡ gather devices_of es
unfolding collect_booted gather devices_of
collect_booted-gather [] = refl
collect_booted-gather ((runtime, ds) ∷ es) =
    ap (λ l. booted_of runtime ds ++ l) (collect_booted-gather es)

app_le_total : (x y : App) → app_le x y ≡ false → app_le y x ≡ true
unfolding app_le
app_le_total x y h = ground (
  arith,
  h,
  text_le-IsOrder.total x.name y.name,
  text_le-IsOrder.total x.bundle_id y.bundle_id,
  text_eq_iff x.name y.name,
  text_eq_iff y.name x.name,
)

app_le_trans : (x y z : App) → app_le x y ≡ true → app_le y z ≡ true → app_le x z ≡ true
unfolding app_le
app_le_trans x y z h k = ground (
  arith,
  h,
  k,
  text_le-IsOrder.trans x.name y.name z.name,
  text_le-IsOrder.trans x.bundle_id y.bundle_id z.bundle_id,
  text_le_antisymm x.name y.name,
  text_eq_iff x.name y.name,
  text_eq_iff y.name z.name,
  text_eq_iff x.name z.name,
)

app_le_antisymm : (x y : App) → Untied app_le x y
unfolding app_le
app_le_antisymm x y h = ground (
  arith,
  h,
  text_le_antisymm x.name y.name,
  text_le_antisymm x.bundle_id y.bundle_id,
  text_eq_iff x.name y.name,
  text_eq_iff y.name x.name,
)

app_le-IsOrder : IsOrder app_le
app_le-IsOrder = record { total = app_le_total; trans = app_le_trans }

Untied-with : (a : App) (apps : List App) → All (Untied app_le a) apps
Untied-with a [] = tt
Untied-with a (b ∷ apps) = (app_le_antisymm a b, Untied-with a apps)

untied_apps : (apps : List App) → AllUntied app_le apps
untied_apps [] = tt
untied_apps (a ∷ apps) = (Untied-with a apps, untied_apps apps)

-- The list of apps is the same in whatever order Go iterates over the map.
pub parse_apps-perm :
    (es fs : List (Text × RawApp)) → Permᴰ es fs → parse_apps (parsed es) ≡ parse_apps (parsed fs)
unfolding parse_apps
parse_apps-perm es fs p = ap ok (
    ap (sort app_le) (user_apps-gather es)
    ∙ sort-perm app_le app_le-IsOrder (gather-perm app_of p) (untied_apps (gather app_of es))
    ∙ ap (sort app_le) (sym (user_apps-gather fs)))

-- no two devices share an identifier
abbrev pub Distinct : List Device → Type 0
Distinct [] = Unit
Distinct (d ∷ ds) = All (λ e. d.udid ≢ e.udid) ds × Distinct ds

Untied-device : (d e : Device) → d.udid ≢ e.udid → Untied udid_le d e
Untied-device d e n h = absurd (n (text_le_antisymm d.udid e.udid h))

Untied-devices_with :
    (d : Device) (ds : List Device) → All (λ e. d.udid ≢ e.udid) ds → All (Untied udid_le d) ds
Untied-devices_with d [] h = tt
Untied-devices_with d (e ∷ ds) h = (Untied-device d e h.0, Untied-devices_with d ds h.1)

untied_devices : (ds : List Device) → Distinct ds → AllUntied udid_le ds
untied_devices [] h = tt
untied_devices (d ∷ ds) h = (Untied-devices_with d ds h.0, untied_devices ds h.1)

udid_le-IsOrder : IsOrder udid_le
udid_le-IsOrder = record {
  total = λ x y. text_le-IsOrder.total x.udid y.udid;
  trans = λ x y z. text_le-IsOrder.trans x.udid y.udid z.udid;
}

-- Where booted devices have distinct identifiers, their list is the same in whatever order Go iterates
-- over the map of runtimes.
pub parse_booted-perm :
    (es fs : List (Text × List RawDevice))
    → Permᴰ es fs
    → Distinct (collect_booted es)
    → parse_booted (parsed es) ≡ parse_booted (parsed fs)
unfolding parse_booted
parse_booted-perm es fs p h = ap ok (
    sort-perm udid_le udid_le-IsOrder
      (subst (λ x. Permᴰ x (collect_booted fs)) (sym (collect_booted-gather es))
        (subst (Permᴰ (gather devices_of es)) (sym (collect_booted-gather fs))
          (gather-perm devices_of p)))
      (untied_devices (collect_booted es) h))
