-- ===== src/Proxy/Connect/Hosts.antt =====
-- Which hosts are tunnelled from the first byte.
use proxysim.Prelude.{
  ◌≡◌, ◌↔◌, ◌⊎◌, inl, inr, true, false, List, [], ◌∷◌, ◌++◌, Text, text_eq, text_eq_iff, member,
  arith, Bool-cases,
}
use proxysim.Strings.{has_suffix}
use proxysim.Strings.Laws.{has_suffix-append}
use proxysim.Proxy.Server.{Server, World}
use proxysim.Proxy.Connect.{hostname, is_excluded, should_tunnel}

-- The host is one of the configured names or lies below one of them.
abbrev pub Excluded : List Text → Text → Type 0
Excluded [] host = ⊥
Excluded (suffix ∷ rest) host =
    (host ≡ suffix) ⊎ ((p : Text) × (host ≡ p ++ (b'.' ∷ suffix))) ⊎ Excluded rest host

has_suffix_sound : (s t : Text) → has_suffix s t ≡ true → (p : Text) × (s ≡ p ++ t)
unfolding has_suffix
has_suffix_sound [] t h = ([], (text_eq_iff [] t).0 h)
has_suffix_sound (c ∷ s) t h = elim (Bool-cases (text_eq (c ∷ s) t)) [
  | inl e ↦ ([], (text_eq_iff (c ∷ s) t).0 e)
  | inr e ↦ let (p, g) = has_suffix_sound s t (ground arith) in (c ∷ p, cc)
]

Excluded-sound :
    (suffixes : List Text) (host : Text) → is_excluded suffixes host ≡ true → Excluded suffixes host
unfolding is_excluded
Excluded-sound [] host h = cc
Excluded-sound (suffix ∷ rest) host h = elim (Bool-cases (text_eq host suffix)) [
  | inl e ↦ inl ((text_eq_iff host suffix).0 e)
  | inr e ↦ elim (Bool-cases (has_suffix host (b'.' ∷ suffix))) [
    | inl f ↦ inr (inl (has_suffix_sound host (b'.' ∷ suffix) f))
    | inr f ↦ inr (inr (Excluded-sound rest host (ground (arith, e, f))))
  ]
]

Excluded-complete :
    (suffixes : List Text) (host : Text) → Excluded suffixes host → is_excluded suffixes host ≡ true
unfolding is_excluded
Excluded-complete [] host h = absurd h
Excluded-complete (suffix ∷ rest) host (inl e) = ground (arith, (text_eq_iff host suffix).1 e)
Excluded-complete (suffix ∷ rest) host (inr (inl (p, e))) =
    ground (arith, e, has_suffix-append p (b'.' ∷ suffix))
Excluded-complete (suffix ∷ rest) host (inr (inr h)) = ground (arith, Excluded-complete rest host h)

-- A host is tunnelled exactly when there is no authority, when it equals or lies below an excluded
-- name, or when a client was seen to refuse our certificate for it.
pub should_tunnel_iff :
    (s : Server) (w : World) (host_port : Text)
    → (should_tunnel s w host_port ≡ true) ↔ (
        (s.has_authority ≡ false)
        ⊎ Excluded s.excluded (hostname host_port)
        ⊎ (member (hostname host_port) w.learned ≡ true))
unfolding should_tunnel
should_tunnel_iff s w host_port = (sound, complete)
  where
    host : Text
    host = hostname host_port

    sound :
        should_tunnel s w host_port ≡ true
        → (s.has_authority ≡ false) ⊎ Excluded s.excluded host ⊎ (member host w.learned ≡ true)
    sound h = elim (Bool-cases s.has_authority) [
      | inr e ↦ inl e
      | inl e ↦ elim (Bool-cases (is_excluded s.excluded host)) [
        | inl f ↦ inr (inl (Excluded-sound s.excluded host f))
        | inr f ↦ inr (inr (ground (arith, e, f)))
      ]
    ]

    complete :
        (s.has_authority ≡ false) ⊎ Excluded s.excluded host ⊎ (member host w.learned ≡ true)
        → should_tunnel s w host_port ≡ true
    complete (inl e) = ground (arith, e)
    complete (inr (inl h)) = ground (arith, Excluded-complete s.excluded host h)
    complete (inr (inr h)) = ground (arith, h)
