-- ===== src/Examples/Leaves.antt =====
-- internal/ca/leaf.go with two calls that race for one host; a certificate is a number.
use proxysim.Prelude.{
  ℕ, ◌≡◌, List, [], ◌∷◌, Option, none, some, Text, codes, All, map, refl, lookup, text_eq, put,
}
use proxysim.Strings.HostPort.{without_port}
use proxysim.Ca.{reads, returns, host_only, interleave}
use proxysim.Ca.Fingerprint.{fingerprint}
use proxysim.Ca.Stable.{Agrees, interleave_stable}

abbrev hosts : List Text
hosts = codes "a.com:443" ∷ codes "a.com" ∷ []

-- both miss, both mint, and the first store wins
abbrev race : List (ℕ × Option ℕ)
race = (0, none) ∷ (1, none) ∷ (1, some 11) ∷ (0, some 10) ∷ []

race_result :
    (interleave race (map reads hosts) []).1
    ≡ returns (codes "a.com:443") 11 ∷ returns (codes "a.com") 11 ∷ []
unfolding interleave host_only lookup text_eq put without_port
race_result = refl

interleave_stable_example :
    let (cache', callers) = interleave race (map reads hosts) [] in All (Agrees cache') callers
interleave_stable_example = interleave_stable race hosts []

-- two bytes of a sum
abbrev short_sum : Text → Text
short_sum raw = 0xab ∷ 7 ∷ []

fingerprint_shown : fingerprint short_sum [] ≡ codes "AB:07"
unfolding fingerprint
fingerprint_shown = refl
