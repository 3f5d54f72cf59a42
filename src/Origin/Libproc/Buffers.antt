-- ===== src/Origin/Libproc/Buffers.antt =====
-- The over-allocated buffers of internal/origin/origin_darwin.go, for calls that keep to their buffer.
use native.Mathlib.Nat.{mul-div_cancel}
use proxysim.Prelude.{
  ℕ, zero, suc, ◌-◌, ◌*◌, ◌/◌, ◌<◌, ◌≤◌, ◌≡◌, refl, ap, true, false, List, [], ◌∷◌, ◌++◌, length,
  length-append, length-take, take, take_whole, leb, is_nil, ◌==◌, if◌then◌else◌, arith,
}
use proxysim.Origin.Libproc.{failed, fetched, zeros, filled, slice, fetch}

-- A call that fills a buffer of `n` elements with as many of some elements as fit, and says with how
-- many bytes.
abbrev pub Answers {ℓ} : {A : Type ℓ} → ℕ → (ℕ → ℕ × List A) → List A → Type ℓ
Answers stride call live =
    (n : ℕ) → call (n * stride) ≡ (length (take n live) * stride, take n live)

length-zeros {ℓ} : {A : Type ℓ} (z : A) (n : ℕ) → length (zeros z n) ≡ n
unfolding zeros
length-zeros z zero = refl
length-zeros z (suc n) = ap suc (length-zeros z n)

take_front {ℓ} : {A : Type ℓ} (xs ys : List A) → take (length xs) (xs ++ ys) ≡ xs
take_front [] [] = refl
take_front [] (y ∷ ys) = refl
take_front (x ∷ xs) ys = ap (◌∷◌ x) (take_front xs ys)

slice-filled {ℓ} :
    {A : Type ℓ} (z : A) (len : ℕ) (xs : List A)
    → length xs ≤ len
    → slice (length xs) (filled z len xs) ≡ fetched xs
unfolding slice filled
slice-filled z len xs h =
    let rest : List _ = zeros z (len - length xs) in
    let fits : leb (length xs) (length (xs ++ rest)) ≡ true =
      ground (arith, length-append xs rest) in
    rw (take_whole xs len h, fits, take_front xs rest) refl

-- What is fetched is what fits into the buffer; nothing is a failure, and nothing panics.
pub fetch_fits {ℓ} :
    {A : Type ℓ} (z : A) (len stride : ℕ) (call : ℕ → ℕ × List A) (live : List A)
    → 0 < stride
    → Answers stride call live
    → fetch z len stride call ≡ (if is_nil (take len live) then failed else fetched (take len live))
unfolding fetch
fetch_fits {A = A} z len stride call live pos answers =
    rw (answers len) (of_list (take len live) (omega (arith, length-take len live)))
  where
    of_list :
        (xs : List A)
        → length xs ≤ len
        → (if length xs * stride == 0
            then failed
            else slice (length xs * stride / stride) (filled z len xs))
          ≡ (if is_nil xs then failed else fetched xs)
    of_list [] h = ground arith
    of_list (x ∷ xs) h =
        let n : ℕ = length (x ∷ xs) in
        let filled_bytes : n * stride == 0 ≡ false = grind (arith, pos) in
        let back : n * stride / stride ≡ n = mul-div_cancel n pos in
        rw (filled_bytes, back) (slice-filled z len (x ∷ xs) h)
