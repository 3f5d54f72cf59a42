-- ===== src/Prelude/Sorting.antt =====
-- Sorting by a Boolean order, as `sort.Slice` and `sort.Strings` do it: where no two entries are tied,
-- every sort returns the same list, whatever the order of its input.
use mathlib.Core.Path.{◌≡◌, refl, ap, ◌∙◌, sym, subst}
use mathlib.Core.Bool.{Bool, true, false, ◌&&◌}
use mathlib.Core.Logic.{inl, inr}
use mathlib.Core.List.{List, [], ◌∷◌}
use mathlib.Core.List.{Permᴰ}
use native.Mathlib.Omega.{arith}
use proxysim.Prelude.Tests.{if◌then◌else◌, Bool-cases}
use proxysim.Prelude.Lists.{All}

All-perm {ℓ κ} : {A : Type ℓ} (P : A → Type κ) {xs ys : List A} → Permᴰ xs ys → All P xs → All P ys
All-perm P Permᴰ.nil h = h
All-perm P (Permᴰ.cons e p) h = (subst P e h.0, All-perm P p h.1)
All-perm P (Permᴰ.swap e f) h = (subst P f h.1.0, (subst P e h.0, h.1.1))
All-perm P (Permᴰ.trans p q) h = All-perm P q (All-perm P p h)

module _ {ℓ} {A : Type ℓ} (le : A → A → Bool) where
  unfoldable pub insert : A → List A → List A
  insert x [] = x ∷ []
  insert x (y ∷ ys) = if le x y then x ∷ y ∷ ys else y ∷ insert x ys

  unfoldable pub sort : List A → List A
  unfolding insert
  sort [] = []
  sort (x ∷ xs) = insert x (sort xs)

  -- A total order; ties are allowed.
  pub record IsOrder : Type ℓ where
    pub total : (x y : A) → le x y ≡ false → le y x ≡ true
    pub trans : (x y z : A) → le x y ≡ true → le y z ≡ true → le x z ≡ true

  -- Two entries that can stand in one order only, or that are the same.
  abbrev pub Untied : A → A → Type ℓ
  Untied x y = (le x y && le y x) ≡ true → x ≡ y

  -- Each entry is untied with those behind it.
  abbrev pub AllUntied : List A → Type ℓ
  AllUntied [] = Unit
  AllUntied (x ∷ xs) = All (Untied x) xs × AllUntied xs

  module _ (o : IsOrder) where
    insert_before :
        (x y : A) (l : List A)
        → le x y ≡ true
        → le y x ≡ false
        → insert x (insert y l) ≡ insert y (insert x l)
    unfolding insert
    insert_before x y [] p q = ground (arith, p, q)
    insert_before x y (z ∷ l) p q = ground (
      arith,
      p,
      q,
      insert_before x y l p q,
      o.trans x y z,
      o.trans y z x,
      o.total x z,
      o.total y z,
    )

    insert-insert :
        (x y : A) (l : List A) → Untied x y → insert x (insert y l) ≡ insert y (insert x l)
    insert-insert x y l u = elim (Bool-cases (le x y)) [
      | inl p ↦ elim (Bool-cases (le y x)) [
        | inl q ↦
            subst (λ z. insert x (insert z l) ≡ insert z (insert x l)) (u (ground (arith, p, q)))
              refl
        | inr q ↦ insert_before x y l p q
      ]
      | inr p ↦ sym (insert_before y x l (o.total x y p) p)
    ]

    Untied-sym : (x y : A) → Untied x y → Untied y x
    Untied-sym x y u h = sym (u (ground (arith, h)))

    AllUntied-perm : {xs ys : List A} → Permᴰ xs ys → AllUntied xs → AllUntied ys
    AllUntied-perm Permᴰ.nil h = h
    AllUntied-perm (Permᴰ.cons {b = b} {l₂ = ys} e p) h =
        (subst (λ x. All (Untied x) ys) e (All-perm (Untied _) p h.0), AllUntied-perm p h.1)
    AllUntied-perm (Permᴰ.swap {a = a} {b = b} {b' = b'} {l = l} e f) h =
        subst (λ x. AllUntied (x ∷ b' ∷ l)) f
          (subst (λ y. AllUntied (b ∷ y ∷ l)) e ((Untied-sym a b h.0.0, h.1.0), (h.0.1, h.1.1)))
    AllUntied-perm (Permᴰ.trans p q) h = AllUntied-perm q (AllUntied-perm p h)

    -- The order of the input does not show in the result.
    pub sort-perm : {xs ys : List A} → Permᴰ xs ys → AllUntied xs → sort xs ≡ sort ys
    unfolding sort
    sort-perm Permᴰ.nil h = refl
    sort-perm (Permᴰ.cons {a = a} {b = b} {l₁ = xs} {l₂ = ys} e p) h =
        ap (λ z. insert z (sort xs)) e ∙ ap (insert b) (sort-perm p h.1)
    sort-perm (Permᴰ.swap {a = a} {b = b} {a' = a'} {l = l} e f) h =
        insert-insert a b (sort l) h.0.0
        ∙ ap (λ z. insert z (insert a (sort l))) f
        ∙ ap (λ z. insert a' (insert z (sort l))) e
    sort-perm (Permᴰ.trans p q) h = sort-perm p h ∙ sort-perm q (AllUntied-perm p h)
