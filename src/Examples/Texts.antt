-- ===== src/Examples/Texts.antt =====
-- Runs of the text functions on small inputs.
use proxysim.Prelude.{◌≡◌, refl, none, some, codes}
use proxysim.Strings.Decimal.{decimal, parse_uint}
use proxysim.Strings.HostPort.{split_host_port}
use proxysim.Http.{canonical}

split_host_port_tests :
    (split_host_port (codes "example.com:443") ≡ some (codes "example.com", codes "443"))
    × (split_host_port (codes "[::1]:80") ≡ some (codes "::1", codes "80"))
    × (split_host_port (codes "example.com") ≡ none)
    × (split_host_port (codes "::1") ≡ none)
    × (split_host_port (codes "[::1]") ≡ none)
unfolding split_host_port
split_host_port_tests = (refl, refl, refl, refl, refl)

decimal_tests :
    (decimal 0 ≡ codes "0")
    × (decimal 18446744073709551615 ≡ codes "18446744073709551615")
    × (parse_uint (codes "18446744073709551615") ≡ some 18446744073709551615)
    × (parse_uint (codes "18446744073709551616") ≡ none)
    × (parse_uint (codes "+1") ≡ none)
unfolding decimal parse_uint
decimal_tests = (refl, refl, refl, refl, refl)

canonical_tests :
    (canonical (codes "content-ENCODING") ≡ codes "Content-Encoding")
    × (canonical (codes "te") ≡ codes "Te")
    × (canonical (codes "a b") ≡ codes "a b")
unfolding canonical
canonical_tests = (refl, refl, refl)
