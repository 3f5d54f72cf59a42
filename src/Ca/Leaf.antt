-- ===== src/Ca/Leaf.antt =====
-- `mintLeaf` of internal/ca/leaf.go, and a handshake's certificate: the name, the cache, the mint.
use proxysim.Prelude.{
  ℕ, ◌≡◌, ◌==◌, Bool, true, false, not, ◌&&◌, ◌||◌, List, [], ◌∷◌, Option, none, some, Text, All,
  text_eq,
}
use proxysim.Ca.{Cache, Caller, reads, mints, fails, returns, host_only, certificate_name, advance}
use proxysim.Ca.Certificate.{Outcome, got, error, Template, leaf_template}
use proxysim.Ca.Load.{Root}

-- Package x509 for a leaf: the certificate of a template, signed by a parent, with its DER bytes, and
-- `VerifyHostname`.
pub record Signer (Key Cert LeafKey : Type 0) : Type 0 where
  pub parse_ip : Text → Option Text
  pub create_certificate : Template → Cert → LeafKey → Key → Outcome Text
  pub parse_certificate : Text → Outcome Cert
  pub verify_hostname : Cert → Text → Bool

-- `*tls.Certificate`
pub record Minted (Cert LeafKey : Type 0) : Type 0 where
  pub certificate : List Text
  pub private_key : LeafKey
  pub leaf : Cert

abbrev pub bind : {A B : Type 0} → Outcome A → (A → Outcome B) → Outcome B
bind (got a) f = f a
bind (error e) f = error e

abbrev pub to_option : {A : Type 0} → Outcome A → Option A
to_option (got a) = some a
to_option (error e) = none

-- not empty, not the root of the names, and no address in brackets
abbrev pub is_host : Text → Bool
is_host [] = false
is_host (b ∷ rest) = not (b == 91) && not (text_eq (b ∷ rest) (b'.' ∷ []))

-- What VerifyHostname documents: a certificate stands for an address of its template, and for a name
-- that is no address, if the template has it.
pub record Verifies {Key Cert LeafKey : Type 0} (x : Signer Key Cert LeafKey) : Type 0 where
  pub by_address :
      (t : Template) (parent : Cert) (l : LeafKey) (k : Key) (der : Text) (cert : Cert)
      (host ip : Text)
      → x.create_certificate t parent l k ≡ got der
      → x.parse_certificate der ≡ got cert
      → x.parse_ip host ≡ some ip
      → t.ip_addresses ≡ ip ∷ []
      → x.verify_hostname cert host ≡ true
  pub by_name :
      (t : Template) (parent : Cert) (l : LeafKey) (k : Key) (der : Text) (cert : Cert)
      (host : Text)
      → x.create_certificate t parent l k ≡ got der
      → x.parse_certificate der ≡ got cert
      → x.parse_ip host ≡ none
      → is_host host ≡ true
      → t.dns_names ≡ host ∷ []
      → x.verify_hostname cert host ≡ true

module _ {Key Cert LeafKey : Type 0} (x : Signer Key Cert LeafKey) (root : Root Key Cert)
    (leaf_key : LeafKey) where
  unfoldable pub mint_leaf : Outcome ℕ → ℕ → Text → Outcome (Minted Cert LeafKey)
  unfolding leaf_template
  mint_leaf serial now host = bind serial λ n.
      bind (x.create_certificate (leaf_template x.parse_ip n host now) root.cert leaf_key root.key)
        λ der.
          bind (x.parse_certificate der)
            λ leaf. got (record { certificate = der ∷ []; private_key = leaf_key; leaf = leaf })

  -- One call of Leaf that nobody interrupts.
  unfoldable pub leaf :
      Outcome ℕ
      → ℕ
      → Text
      → Cache (Minted Cert LeafKey)
      → Cache (Minted Cert LeafKey) × Caller (Minted Cert LeafKey)
  unfolding advance mint_leaf
  leaf serial now host cache =
      let (cache', caller) = advance none (reads host) cache in
      advance (to_option (mint_leaf serial now (host_only host))) caller cache'

  -- `GetCertificate` of TLSConfigFor
  unfoldable pub get_certificate :
      Text
      → Outcome ℕ
      → ℕ
      → Text
      → Cache (Minted Cert LeafKey)
      → Cache (Minted Cert LeafKey) × Caller (Minted Cert LeafKey)
  unfolding leaf certificate_name
  get_certificate connect_host serial now server_name cache =
      leaf serial now (certificate_name connect_host server_name) cache

module _ {Key Cert LeafKey : Type 0} (x : Signer Key Cert LeafKey) where
  -- VerifyHostname has no quarrel with the leaf, where the host is a name or an address at all
  abbrev pub stands_for : Text → Minted Cert LeafKey → Bool
  stands_for host m = not (is_host host) || x.verify_hostname m.leaf host

  -- so of each entry of a cache
  abbrev pub Standing : Cache (Minted Cert LeafKey) → Type 0
  Standing cache = All (λ entry. stands_for entry.0 entry.1 ≡ true) cache

  -- so of what a call for a name returned, which was asked for no other name; a call that is over
  -- has returned or failed
  abbrev pub AnsweredFor : Text → Caller (Minted Cert LeafKey) → Type 0
  AnsweredFor name (returns host m) = (host ≡ name) × (stands_for (host_only name) m ≡ true)
  AnsweredFor name (fails host) = host ≡ name
  AnsweredFor name (reads host) = ⊥
  AnsweredFor name (mints host) = ⊥

  -- so of what a mint gives
  abbrev pub Made : Text → Outcome (Minted Cert LeafKey) → Type 0
  Made host (got m) = stands_for host m ≡ true
  Made host (error e) = Unit
