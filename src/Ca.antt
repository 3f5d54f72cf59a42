-- ===== src/Ca.antt =====
-- internal/ca/leaf.go: the cache of leaves under callers that run at the same time. A certificate
-- stands for its pointer, and what minting one yields is an argument of the step.
pub mod Files
pub mod Certificate
pub mod Load
pub mod Leaf
pub mod Valid
pub mod Stable
pub mod Fingerprint
use proxysim.Prelude.{
  ℕ, zero, suc, List, [], ◌∷◌, Option, none, some, Text, lookup, put, is_nil, if◌then◌else◌,
}
use proxysim.Strings.HostPort.{without_port}

-- `hostOnly`
unfoldable pub host_only : Text → Text
host_only host = without_port host

-- the name for which a handshake gets its leaf
unfoldable pub certificate_name : Text → Text → Text
certificate_name connect_host server_name = if is_nil server_name then connect_host else server_name

-- `cache` of an Authority
abbrev pub Cache : Type 0 → Type 0
Cache Cert = List (Text × Cert)

-- Where one call of Leaf stands, with its host: before the look-up, before the store, or behind its
-- return.
pub data Caller (Cert : Type 0) : Type 0 where
  reads mints fails : Text → Caller Cert
  returns : Text → Cert → Caller Cert

module _ {Cert : Type 0} where
  -- the look-up under the read lock
  unfoldable pub read_cache : Text → Cache Cert → Caller Cert
  read_cache host cache = elim (lookup (host_only host) cache) [
    | some cert ↦ returns host cert
    | none ↦ mints host
  ]

  -- the double-checked store under the lock
  unfoldable pub store : Text → Cert → Cache Cert → Cache Cert × Caller Cert
  store host minted cache = elim (lookup (host_only host) cache) [
    | some existing ↦ (cache, returns host existing)
    | none ↦ (put (host_only host) minted cache, returns host minted)
  ]

  -- one step of one call; `minted` is what mintLeaf yields, if that is the step
  unfoldable pub advance : Option Cert → Caller Cert → Cache Cert → Cache Cert × Caller Cert
  unfolding read_cache store
  advance minted (reads host) cache = (cache, read_cache host cache)
  advance none (mints host) cache = (cache, fails host)
  advance (some cert) (mints host) cache = store host cert cache
  advance minted (fails host) cache = (cache, fails host)
  advance minted (returns host cert) cache = (cache, returns host cert)

  -- a step of the caller with an index
  unfoldable pub schedule :
      ℕ → Option Cert → List (Caller Cert) → Cache Cert → Cache Cert × List (Caller Cert)
  unfolding advance
  schedule n minted [] cache = (cache, [])
  schedule zero minted (c ∷ cs) cache =
      let (cache', c') = advance minted c cache in (cache', c' ∷ cs)
  schedule (suc n) minted (c ∷ cs) cache =
      let (cache', cs') = schedule n minted cs cache in (cache', c ∷ cs')

  unfoldable pub interleave :
      List (ℕ × Option Cert) → List (Caller Cert) → Cache Cert → Cache Cert × List (Caller Cert)
  unfolding schedule
  interleave [] cs cache = (cache, cs)
  interleave ((n, minted) ∷ steps) cs cache =
      let (cache', cs') = schedule n minted cs cache in interleave steps cs' cache'
