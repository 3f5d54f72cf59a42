-- ===== src/Strings/Laws.antt =====
-- Laws of the text functions that the components share.
use proxysim.Prelude.{
  ℕ, ◌≡◌, ◌≤◌, refl, sym, ◌∙◌, length, length-append, true, [], ◌∷◌, ◌++◌, none, some, Text,
  text_eq, text_eq_refl, Option-cases, inl, inr, arith, append_assoc, ◌≢◌,
}
use proxysim.Strings.{strip_prefix, has_suffix, cut}

pub strip_prefix_sound : (p s : Text) {r : Text} → strip_prefix p s ≡ some r → s ≡ p ++ r
unfolding strip_prefix
strip_prefix_sound [] s h = ground arith
strip_prefix_sound (c ∷ p) [] h = cc
strip_prefix_sound (c ∷ p) (d ∷ s) {r} h = ground (arith, strip_prefix_sound p s {r = r})

pub strip_prefix-append : (p r : Text) → strip_prefix p (p ++ r) ≡ some r
unfolding strip_prefix
strip_prefix-append [] r = refl
strip_prefix-append (c ∷ p) r = ground (arith, strip_prefix-append p r)

-- A text ends in `t` after any other text.
pub has_suffix-append : (s t : Text) → has_suffix (s ++ t) t ≡ true
unfolding has_suffix text_eq
has_suffix-append [] [] = refl
has_suffix-append [] (c ∷ t) = ground (arith, text_eq_refl (c ∷ t))
has_suffix-append (c ∷ s) t = ground (arith, has_suffix-append s t)

-- The parts that a cut returns spell the text.
pub cut_sound : (s sep : Text) {a b : Text} → cut s sep ≡ some (a, b) → s ≡ a ++ (sep ++ b)
unfolding cut
cut_sound [] sep {a} {b} h = elim (Option-cases (strip_prefix sep [])) [
  | inl e ↦ ground (arith, e)
  | inr (r, e) ↦ ground (arith, e, strip_prefix_sound sep [] e)
]
cut_sound (c ∷ s) sep {a} {b} h = elim (Option-cases (strip_prefix sep (c ∷ s))) [
  | inl e ↦ elim (Option-cases (cut s sep)) [
    | inl f ↦ ground (arith, e, f)
    | inr ((x, y), f) ↦ ground (arith, e, f, cut_sound s sep {a = x} {b = y} f)
  ]
  | inr (r, e) ↦ ground (arith, e, strip_prefix_sound sep (c ∷ s) e)
]

-- Where there is no cut the separator does not occur.
pub cut_complete : (s sep a b : Text) → cut s sep ≡ none → s ≢ a ++ (sep ++ b)
unfolding cut
cut_complete [] sep [] b h e = ground (arith, strip_prefix-append sep b)
cut_complete [] sep (x ∷ a) b h e = cc
cut_complete (c ∷ s) sep [] b h e = ground (arith, strip_prefix-append sep b)
cut_complete (c ∷ s) sep (x ∷ a) b h e = elim (Option-cases (strip_prefix sep (c ∷ s))) [
  | inl f ↦ elim (Option-cases (cut s sep)) [
    | inl g ↦ cut_complete s sep a b g (cc)
    | inr (r, g) ↦ ground (arith, f, g)
  ]
  | inr (r, f) ↦ ground (arith, f)
]

-- Of two ways to split a text, the one with the shorter head has the longer tail.
append_split :
    (xs ys zs ws : Text) → xs ++ ys ≡ zs ++ ws → length xs ≤ length zs → (m : Text) × (ys ≡ m ++ ws)
append_split [] ys zs ws e h = (zs, e)
append_split (x ∷ xs) ys [] ws e h = absurd (omega arith)
append_split (x ∷ xs) ys (z ∷ zs) ws e h = append_split xs ys zs ws (cc) (omega arith)

behind_start :
    (s sep r a b : Text)
    → strip_prefix sep s ≡ some r
    → s ≡ a ++ (sep ++ b)
    → (m : Text) × (r ≡ m ++ b)
behind_start s sep r a b f e =
    append_split sep r (a ++ sep) b
      (sym (strip_prefix_sound sep s f) ∙ e ∙ sym (append_assoc a sep b))
      (omega (arith, length-append a sep))

-- A nonempty head, where the text does not start with the separator.
split_head :
    (c : ℕ) (s sep a b : Text)
    → strip_prefix sep (c ∷ s) ≡ none
    → c ∷ s ≡ a ++ (sep ++ b)
    → (a' : Text) × (s ≡ a' ++ (sep ++ b))
split_head c s sep [] b f e = ground (arith, strip_prefix-append sep b)
split_head c s sep (x ∷ a) b f e = (a, cc)

-- A cut is at the first place: what stands behind any other place stands behind it too.
pub cut_first :
    (s sep a b : Text)
    → s ≡ a ++ (sep ++ b)
    → (before after m : Text) × (cut s sep ≡ some (before, after)) × (after ≡ m ++ b)
unfolding cut
cut_first [] sep a b e = elim (Option-cases (strip_prefix sep [])) [
  | inl f ↦ absurd (cut_complete [] sep a b (unfold cut in rw f) e)
  | inr (r, f) ↦ let (m, g) = behind_start [] sep r a b f e in ([], r, m, ground (arith, f), g)
]
cut_first (c ∷ s) sep a b e = elim (Option-cases (strip_prefix sep (c ∷ s))) [
  | inl f ↦
      let (a', g) = split_head c s sep a b f e in
      let (before, after, m, k, t) = cut_first s sep a' b g in
      (c ∷ before, after, m, ground (arith, f, k), t)
  | inr (r, f) ↦ let (m, g) = behind_start (c ∷ s) sep r a b f e in ([], r, m, ground (arith, f), g)
]
