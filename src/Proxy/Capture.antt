-- ===== src/Proxy/Capture.antt =====
-- `captureReader` of internal/proxy/server.go. What the wrapped reader returns is a sequence of
-- chunks; the cap is not negative, and totals stay below 2^63.
use mathlib.Core.List.{flatten}
use native.Mathlib.Nat.{min-zero, zero-min, suc-min-suc}
use proxysim.Prelude.{
  Bool-cases, inl, inr, ℕ, zero, suc, ◌+◌, ◌-◌, ◌≡◌, refl, Bool, List, [], ◌∷◌, ◌++◌, Text, length,
  take, min, ltb, if◌then◌else◌, arith, length-append, length-take, take-append, append_assoc,
  append-nil, ap, ◌∙◌,
}

pub record CaptureReader : Type 0 where
  pub buf : Text
  pub cap : ℕ
  pub total : ℕ

unfoldable pub new_capture_reader : ℕ → CaptureReader
new_capture_reader cap_bytes = record { buf = []; cap = cap_bytes; total = 0 }

-- `Read`, where the wrapped reader fills the buffer with `p`
unfoldable pub read : CaptureReader → Text → CaptureReader
read c p =
    let n = length p in
    if ltb 0 n
    then (let room = c.cap - length c.buf in
        let c' : CaptureReader = record c { total = c.total + n } in
        if ltb 0 room then record c' { buf = c.buf ++ take (min n room) p } else c')
    else c

unfoldable pub read_all : CaptureReader → List Text → CaptureReader
unfolding read
read_all c [] = c
read_all c (p ∷ ps) = read_all (read c p) ps

unfoldable pub result : CaptureReader → Text × Bool
result c = (c.buf, ltb c.cap c.total)

-- reads all chunks through a new reader
unfoldable pub capture : ℕ → List Text → Text × Bool
unfolding new_capture_reader read_all result
capture cap_bytes chunks = result (read_all (new_capture_reader cap_bytes) chunks)

-- The reader holds a prefix of what passed, as long as the cap allows.
record Holds (seen : Text) (c : CaptureReader) : Type 0 where
  buf : c.buf ≡ take c.cap seen
  total : c.total ≡ length seen

cap-read : (c : CaptureReader) (p : Text) → (read c p).cap ≡ c.cap
unfolding read
cap-read c p = ground arith

-- a prefix that is taken whole
take-min : (n : ℕ) (p : Text) → take (min (length p) n) p ≡ take n p
take-min zero [] = refl
take-min zero (x ∷ p) = simp min-zero
take-min (suc n) [] = simp zero-min
take-min (suc n) (x ∷ p) = simp (suc-min-suc, take-min n p)

pub take_nil : (k : ℕ) → ◌≡◌ {A = Text} [] (take k [])
take_nil zero = refl
take_nil (suc k) = refl

take_of_eq_zero : (k : ℕ) (p : Text) → k ≡ 0 → take k p ≡ []
take_of_eq_zero k p e = rw e (take_zero p)
  where
    take_zero : (p : Text) → take 0 p ≡ []
    take_zero [] = refl
    take_zero (x ∷ p) = refl

room_left :
    (seen : Text) (c : CaptureReader) → Holds seen c → c.cap - length c.buf ≡ c.cap - length seen
room_left seen c h = rw h.buf (omega (arith, length-take c.cap seen))

-- one read appends what there is room for
buf-read : (c : CaptureReader) (p : Text) → (read c p).buf ≡ c.buf ++ take (c.cap - length c.buf) p
unfolding read
buf-read c [] = ground (arith, append-nil c.buf, take_nil (c.cap - length c.buf))
buf-read c (x ∷ p) = elim (Bool-cases (ltb 0 (c.cap - length c.buf))) [
  | inl e ↦ ground (arith, take-min (c.cap - length c.buf) (x ∷ p))
  | inr e ↦ ground (arith, append-nil c.buf, take_of_eq_zero (c.cap - length c.buf) (x ∷ p))
]

total-read : (c : CaptureReader) (p : Text) → (read c p).total ≡ c.total + length p
unfolding read
total-read c p = ground arith

read-Holds :
    (seen : Text) (c : CaptureReader) (p : Text) → Holds seen c → Holds (seen ++ p) (read c p)
read-Holds seen c p h = record {
  buf = rw (buf-read, cap-read, take-append) (cc (h.buf, ap (λ k. take k p) (room_left seen c h)));
  total = omega (arith, total-read c p, length-append seen p, h.total);
}

read_all-Holds :
    (ps : List Text) (seen : Text) (c : CaptureReader)
    → Holds seen c
    → Holds (seen ++ flatten ps) (read_all c ps)
unfolding read_all flatten
read_all-Holds [] seen c h = rw append-nil h
read_all-Holds (p ∷ ps) seen c h =
    rw (← append_assoc) (read_all-Holds ps (seen ++ p) (read c p) (read-Holds seen c p h))

cap-read_all : (ps : List Text) (c : CaptureReader) → (read_all c ps).cap ≡ c.cap
unfolding read_all
cap-read_all [] c = refl
cap-read_all (p ∷ ps) c = cap-read_all ps (read c p) ∙ cap-read c p

-- Whatever the chunks in which a body passes, the reader keeps exactly its first `cap` bytes, and
-- reports truncation exactly when more than `cap` bytes passed.
pub capture_prefix :
    (cap_bytes : ℕ) (chunks : List Text)
    → ((capture cap_bytes chunks).0 ≡ take cap_bytes (flatten chunks))
      × ((capture cap_bytes chunks).1 ≡ ltb cap_bytes (length (flatten chunks)))
unfolding capture
capture_prefix cap_bytes chunks =
    let start : CaptureReader = new_capture_reader cap_bytes in
    let h = read_all-Holds chunks [] start (record { buf = take_nil cap_bytes; total = refl }) in
    ground (arith, h.buf, h.total, cap-read_all chunks start)
