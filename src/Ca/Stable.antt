-- ===== src/Ca/Stable.antt =====
-- A host has one leaf, whoever asks for it and when.
use proxysim.Prelude.{
  ℕ, zero, suc, ◌≡◌, refl, sym, List, [], ◌∷◌, Option, none, some, Text, lookup, put, lookup-put,
  text_eq_iff, All, map, subst, arith, Option-cases, inl, inr,
}
use proxysim.Ca.{
  host_only, Cache, Caller, reads, mints, fails, returns, read_cache, store, advance, schedule,
  interleave,
}

module _ {Cert : Type 0} where
  -- what a call returned is in the cache
  unfoldable pub Agrees : Cache Cert → Caller Cert → Type 0
  Agrees cache (returns host cert) = lookup (host_only host) cache ≡ some cert
  Agrees cache (reads host) = Unit
  Agrees cache (mints host) = Unit
  Agrees cache (fails host) = Unit

  -- entries are never replaced
  abbrev Extends : Cache Cert → Cache Cert → Type 0
  Extends old new = (k : Text) (cert : Cert) → lookup k old ≡ some cert → lookup k new ≡ some cert

  put-Extends :
      (k : Text) (cert : Cert) (cache : Cache Cert)
      → lookup k cache ≡ none
      → Extends cache (put k cert cache)
  put-Extends k cert cache e j c f =
      ground (arith, e, f, lookup-put k j cert cache, text_eq_iff k j)

  -- a step leaves the entries alone, and its call agrees with the cache
  abbrev Fine : Cache Cert → Cache Cert × Caller Cert → Type 0
  Fine cache r = Extends cache r.0 × Agrees r.0 r.1

  put_same : (k : Text) (cert : Cert) (cache : Cache Cert) → lookup k (put k cert cache) ≡ some cert
  put_same k cert cache = ground (arith, lookup-put k k cert cache, text_eq_iff k k)

  read_fine : (host : Text) (cache : Cache Cert) → Agrees cache (read_cache host cache)
  unfolding Agrees read_cache
  read_fine host cache = elim (Option-cases (lookup (host_only host) cache)) [
    | inl e ↦ rw (e, read_cache) tt
    | inr (found, e) ↦
        let same : read_cache host cache ≡ returns host found = rw (e, read_cache) refl in
        subst (Agrees cache) (sym same) e
  ]

  store-Fine :
      (host : Text) (minted : Cert) (cache : Cache Cert) → Fine cache (store host minted cache)
  unfolding Agrees store
  store-Fine host minted cache = elim (Option-cases (lookup (host_only host) cache)) [
    | inl e ↦
        let same : store host minted cache
            ≡ (put (host_only host) minted cache, returns host minted) =
          rw (e, store) refl in
        subst (Fine cache) (sym same)
          (put-Extends (host_only host) minted cache e, put_same (host_only host) minted cache)
    | inr (found, e) ↦
        let same : store host minted cache ≡ (cache, returns host found) = rw (e, store) refl in
        subst (Fine cache) (sym same) (λ k cert f. f, e)
  ]

  advance-Fine :
      (minted : Option Cert) (c : Caller Cert) (cache : Cache Cert)
      → Agrees cache c
      → Fine cache (advance minted c cache)
  unfolding advance Agrees
  advance-Fine minted (reads host) cache h = (λ k cert e. e, read_fine host cache)
  advance-Fine none (mints host) cache h = (λ k cert e. e, tt)
  advance-Fine (some cert) (mints host) cache h = store-Fine host cert cache
  advance-Fine minted (fails host) cache h = (λ k cert e. e, tt)
  advance-Fine minted (returns host cert) cache h = (λ k c e. e, h)

  keeps-Agrees :
      (old new : Cache Cert) (c : Caller Cert) → Extends old new → Agrees old c → Agrees new c
  unfolding Agrees
  keeps-Agrees old new (reads host) x h = tt
  keeps-Agrees old new (mints host) x h = tt
  keeps-Agrees old new (fails host) x h = tt
  keeps-Agrees old new (returns host cert) x h = x (host_only host) cert h

  keeps-All :
      (old new : Cache Cert) (cs : List (Caller Cert))
      → Extends old new
      → All (Agrees old) cs
      → All (Agrees new) cs
  keeps-All old new [] x h = tt
  keeps-All old new (c ∷ cs) x h = (keeps-Agrees old new c x h.0, keeps-All old new cs x h.1)

  schedule_fine :
      (n : ℕ) (minted : Option Cert) (cs : List (Caller Cert)) (cache : Cache Cert)
      → All (Agrees cache) cs
      → Extends cache (schedule n minted cs cache).0
        × All (Agrees (schedule n minted cs cache).0) (schedule n minted cs cache).1
  unfolding schedule
  schedule_fine n minted [] cache h = (λ k cert e. e, tt)
  schedule_fine zero minted (c ∷ cs) cache h =
      let f = advance-Fine minted c cache h.0 in
      (f.0, (f.1, keeps-All cache (advance minted c cache).0 cs f.0 h.1))
  schedule_fine (suc n) minted (c ∷ cs) cache h =
      let f = schedule_fine n minted cs cache h.1 in
      (f.0, (keeps-Agrees cache (schedule n minted cs cache).0 c f.0 h.0, f.1))

  interleave_fine :
      (steps : List (ℕ × Option Cert)) (cs : List (Caller Cert)) (cache : Cache Cert)
      → All (Agrees cache) cs
      → All (Agrees (interleave steps cs cache).0) (interleave steps cs cache).1
  unfolding interleave
  interleave_fine [] cs cache h = h
  interleave_fine ((n, minted) ∷ steps) cs cache h =
      let r = schedule n minted cs cache in
      interleave_fine steps r.1 r.0 (schedule_fine n minted cs cache h).1

  fresh-Agrees : (hosts : List Text) (cache : Cache Cert) → All (Agrees cache) (map reads hosts)
  unfolding Agrees
  fresh-Agrees [] cache = tt
  fresh-Agrees (host ∷ hosts) cache = (tt, fresh-Agrees hosts cache)

  -- However calls of Leaf for some hosts interleave, from any cache and whatever their mints yield:
  -- every call that has returned has the one certificate that the cache then holds for its host
  -- without the port, so that two calls for a host agree, also with the calls that are still to come.
  pub interleave_stable :
      (steps : List (ℕ × Option Cert)) (hosts : List Text) (cache : Cache Cert)
      → let (cache', callers) = interleave steps (map reads hosts) cache in
        All (Agrees cache') callers
  interleave_stable steps hosts cache =
      interleave_fine steps (map reads hosts) cache (fresh-Agrees hosts cache)
