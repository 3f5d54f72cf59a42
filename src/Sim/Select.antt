-- ===== src/Sim/Select.antt =====
-- Which simulator gets the certificate.
use proxysim.Prelude.{
  ◌≡◌, ◌↔◌, ◌⊎◌, inl, inr, refl, true, false, List, [], ◌∷◌, Text, codes, is_nil, map, member,
  length, arith,
}
use proxysim.Sim.{Device, ok, is_booted, only_booted, select_target}

-- Asked for a device, that one, which has to be booted; else the only booted one, by simctl's own
-- word for it.
abbrev pub Chosen : List Device → Text → Text → Type 0
Chosen booted device target =
    ((device ≡ []) × (length booted ≡ 1) × (target ≡ codes "booted"))
    ⊎ ((is_nil device ≡ false)
        × (member device (map (λ d. d.udid) booted) ≡ true)
        × (target ≡ device))

is_booted_lem :
    (device : Text) (ds : List Device) → is_booted device ds ≡ member device (map (λ d. d.udid) ds)
unfolding is_booted member
is_booted_lem device [] = refl
is_booted_lem device (d ∷ ds) = ground (arith, is_booted_lem device ds)

select_sound :
    (booted : List Device) (device target : Text)
    → select_target booted device ≡ ok target
    → Chosen booted device target
unfolding select_target only_booted
select_sound [] [] target e = cc
select_sound (d ∷ []) [] target e = inl (refl, refl, ground (arith, e))
select_sound (d ∷ d' ∷ ds) [] target e = cc
select_sound booted (c ∷ s) target e =
    inr (refl, ground (arith, e, is_booted_lem (c ∷ s) booted), ground (arith, e))

select_complete :
    (booted : List Device) (device target : Text)
    → Chosen booted device target
    → select_target booted device ≡ ok target
unfolding select_target only_booted
select_complete [] [] target h = ground (arith, h)
select_complete (d ∷ []) [] target h = ground (arith, h)
select_complete (d ∷ d' ∷ ds) [] target h = ground (arith, h)
select_complete booted (c ∷ s) target h = ground (arith, h, is_booted_lem (c ∷ s) booted)

-- A target is chosen exactly if it is the one device that is meant: the given one, if it is booted, or
-- the only booted one. In every other case InstallRootCert fails.
pub select_target_iff :
    (booted : List Device) (device target : Text)
    → (select_target booted device ≡ ok target) ↔ Chosen booted device target
select_target_iff booted device target =
    (select_sound booted device target, select_complete booted device target)
