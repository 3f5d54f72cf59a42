-- ===== src/Origin/Classify.antt =====
-- Which executable paths count as the simulator's, and the memoised bundle ids.
use proxysim.Prelude.{
  ℕ, ◌≡◌, ◌↔◌, refl, sym, ◌∙◌, ◌⊎◌, inl, inr, true, [], ◌∷◌, ◌++◌, Option, none, some, Text,
  is_some, ◌||◌, lookup, put, lookup-put, text_eq_iff, is_nil, if◌then◌else◌, arith, Option-cases,
  append_assoc,
}
use proxysim.Strings.{cut, contains}
use proxysim.Strings.Laws.{cut_sound, cut_complete, cut_first}
use proxysim.Origin.{
  Cache, device_marker, runtime_marker, device_of, read_bundle_id, bundle_id, classify,
}

-- The two shapes of a simulator path: a device's container with a directory below it, and the
-- shared runtime root.
abbrev pub InDevice : Text → Type 0
InDevice path =
    (before udid rest : Text) × (path ≡ before ++ (device_marker ++ (udid ++ (b'/' ∷ rest))))

abbrev pub InRuntime : Text → Type 0
InRuntime path = (before rest : Text) × (path ≡ before ++ (runtime_marker ++ rest))

device_of_sound : (path udid : Text) → device_of path ≡ some udid → InDevice path
unfolding device_of
device_of_sound path udid h = elim (Option-cases (cut path device_marker)) [
  | inl e ↦ ground (arith, e)
  | inr ((b, r), e) ↦ elim (Option-cases (cut r (b'/' ∷ []))) [
    | inl f ↦ ground (arith, e, f)
    | inr ((u, t), f) ↦ (b, u, t, cc (cut_sound path device_marker e, cut_sound r (b'/' ∷ []) f))
  ]
]

device_of_complete : (path : Text) → device_of path ≡ none → ¬ InDevice path
unfolding device_of
device_of_complete path h (before, udid, rest, e) =
    let (b, r, m, f, g) = cut_first path device_marker before (udid ++ (b'/' ∷ rest)) e in
    elim (Option-cases (cut r (b'/' ∷ []))) [
      | inl k ↦
          cut_complete r (b'/' ∷ []) (m ++ udid) rest k
            (g ∙ sym (append_assoc m udid (b'/' ∷ rest)))
      | inr (p, k) ↦ ground (arith, f, k)
    ]

simulator-classify-eq :
    (plutil : Text → Option Text) (cache : Cache) (pid : ℕ) (path : Text)
    → (classify plutil cache pid path).0.simulator
      ≡ (is_some (device_of path) || contains path runtime_marker)
unfolding classify contains
simulator-classify-eq plutil cache pid path = ground arith

contains_runtime : (path : Text) → (contains path runtime_marker ≡ true) ↔ InRuntime path
unfolding contains
contains_runtime path = elim (Option-cases (cut path runtime_marker)) [
  | inl e ↦ (λ h. ground (arith, e), λ m. absurd (cut_complete path runtime_marker m.0 m.1 e m.2))
  | inr ((b, r), e) ↦ (λ h. (b, r, cut_sound path runtime_marker e), λ m. ground (arith, e))
]

-- A process is classified as the simulator's exactly when its path lies inside a device's
-- container or under a simulator runtime, wherever the marker stands in the path.
pub classify-simulator :
    (plutil : Text → Option Text) (cache : Cache) (pid : ℕ) (path : Text)
    → ((classify plutil cache pid path).0.simulator ≡ true → InDevice path ⊎ InRuntime path)
      × (InDevice path ⊎ InRuntime path → (classify plutil cache pid path).0.simulator ≡ true)
classify-simulator plutil cache pid path =
    rw simulator-classify-eq (elim (Option-cases (device_of path)) [
      | inr (u, e) ↦ (λ h. inl (device_of_sound path u e), λ m. ground (arith, e))
      | inl e ↦ (
        λ h. inr ((contains_runtime path).0 (ground (arith, e))),
        elim [
          | inl m ↦ absurd (device_of_complete path e m)
          | inr m ↦ ground (arith, e, (contains_runtime path).1 m)
        ],
      )
    ])

module _ (plutil : Text → Option Text) where
  -- every memoised id is the one that the command gives now
  abbrev pub Agrees : Cache → Type 0
  Agrees cache = (d v : Text) → lookup d cache ≡ some v → v ≡ read_bundle_id plutil d

  put-Agrees :
      (cache : Cache) (d : Text) → Agrees cache → Agrees (put d (read_bundle_id plutil d) cache)
  put-Agrees cache d ok e v h =
      ground (arith, lookup-put d e (read_bundle_id plutil d) cache, ok e v, text_eq_iff d e)

  -- Memoising changes no id: from a cache that agrees with the command, `bundleID` returns what the
  -- command gives (the empty id for a path outside a bundle), and the cache it leaves agrees too.
  pub bundle_id_memo :
      (cache : Cache) (app_dir : Text)
      → Agrees cache
      → ((bundle_id plutil cache app_dir).0
          ≡ (if is_nil app_dir then [] else read_bundle_id plutil app_dir))
        × Agrees (bundle_id plutil cache app_dir).1
  unfolding bundle_id
  bundle_id_memo cache [] ok = (refl, ok)
  bundle_id_memo cache (c ∷ d) ok = elim (Option-cases (lookup (c ∷ d) cache)) [
    | inl e ↦ rw e (refl, put-Agrees cache (c ∷ d) ok)
    | inr (v, e) ↦ rw e (ok (c ∷ d) v e, ok)
  ]
