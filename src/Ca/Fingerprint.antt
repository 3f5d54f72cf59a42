-- ===== src/Ca/Fingerprint.antt =====
-- `Fingerprint` of internal/ca/authority.go: what a user compares. SHA-256 is an argument.
use proxysim.Prelude.{
  ℕ, ◌+◌, ◌-◌, ◌*◌, ◌/◌, ◌%◌, ◌<◌, ◌≡◌, refl, Bool, true, false, [], ◌∷◌, All, Option, none, some,
  Text, ltb, leb, ◌&&◌, ◌==◌, if◌then◌else◌, arith,
}

-- `hexDigits[n]` for n below 16
unfoldable pub hex_digit : ℕ → ℕ
hex_digit n = if ltb n 10 then b'0' + n else b'A' + (n - 10)

-- the loop over the bytes of the sum, with whether it is past the first
unfoldable pub octets : Bool → Text → Text
unfolding hex_digit
octets behind [] = []
octets behind (b ∷ sum) =
    let pair = hex_digit (b / 16) ∷ hex_digit (b % 16) ∷ octets true sum in
    if behind then b':' ∷ pair else pair

unfoldable pub fingerprint : (Text → Text) → Text → Text
unfolding octets
fingerprint sha256 raw = octets false (sha256 raw)

-- What a reader makes of it: pairs of digits with colons between them.
digit_value : ℕ → Option ℕ
digit_value c =
    if leb b'0' c && leb c b'9'
    then some (c - b'0')
    else if leb b'A' c && leb c b'F'
    then some (c - b'A' + 10)
    else none

-- each byte behind a colon
unfoldable pub read_octets : Text → Option Text
unfolding digit_value
read_octets (c ∷ h ∷ l ∷ rest) =
    let behind = read_octets rest in
    if c == b':'
    then elim (digit_value h) [
      | none ↦ none
      | some a ↦ elim (digit_value l) [
        | none ↦ none
        | some b ↦ elim behind [ none ↦ none | some sum ↦ some ((a * 16 + b) ∷ sum) ]
      ]
    ]
    else none
read_octets [] = some []
read_octets _ = none

unfoldable pub read_fingerprint : Text → Option Text
unfolding read_octets
read_fingerprint [] = some []
read_fingerprint (c ∷ t) = read_octets (b':' ∷ c ∷ t)

digit_value-hex_digit : (n : ℕ) → n < 16 → digit_value (hex_digit n) ≡ some n
unfolding digit_value hex_digit
digit_value-hex_digit n h = ground (arith, h)

read_octets-octets :
    (sum : Text) → All (λ b. b < 256) sum → read_octets (octets true sum) ≡ some sum
unfolding read_octets octets
read_octets-octets [] h = refl
read_octets-octets (b ∷ sum) h =
    let high : digit_value (hex_digit (b / 16)) ≡ some (b / 16) =
      digit_value-hex_digit (b / 16) (omega (arith, h.0)) in
    let low : digit_value (hex_digit (b % 16)) ≡ some (b % 16) =
      digit_value-hex_digit (b % 16) (omega arith) in
    let whole : b / 16 * 16 + b % 16 ≡ b = omega arith in
    rw (high, low, read_octets-octets sum h.1, whole) refl

-- A fingerprint can be read back: it determines every byte of the sum, so that certificates with
-- different sums are shown different fingerprints.
pub read-fingerprint :
    (sha256 : Text → Text) (raw : Text)
    → All (λ b. b < 256) (sha256 raw)
    → read_fingerprint (fingerprint sha256 raw) ≡ some (sha256 raw)
unfolding fingerprint octets read_fingerprint
read-fingerprint sha256 raw h = read_sum (sha256 raw) h
  where
    read_sum :
        (sum : Text) → All (λ b. b < 256) sum → read_fingerprint (octets false sum) ≡ some sum
    read_sum [] h = refl
    read_sum (b ∷ sum) h = read_octets-octets (b ∷ sum) h
