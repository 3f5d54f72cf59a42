-- ===== src/Ca/Valid.antt =====
-- The leaf of a handshake stands for the name that was asked for.
use proxysim.Prelude.{
  ℕ, ◌+◌, ◌*◌, ◌≡◌, refl, ltb, member, Bool, true, not, ◌&&◌, ◌||◌, List, [], ◌∷◌, Option, none,
  some, Text, is_some, is_nil, All, lookup, put, erase, text_eq, text_eq_iff, arith, Option-cases,
  Bool-cases, inl, inr, if◌then◌else◌, subst, sym,
}
use proxysim.Ca.{
  Cache, Caller, mints, returns, host_only, certificate_name, read_cache, store, advance,
}
use proxysim.Ca.Certificate.{Outcome, got, error, Template, leaf_template, day}
use proxysim.Ca.Load.{Root}
use proxysim.Ca.Leaf.{
  Signer, Minted, Verifies, to_option, mint_leaf, leaf, get_certificate, stands_for, Standing,
  AnsweredFor, is_host, bind, Made,
}

lookup-All :
    {V : Type 0} (p : Text → V → Bool) (k : Text) (v : V) (m : List (Text × V))
    → All (λ e. p e.0 e.1 ≡ true) m
    → lookup k m ≡ some v
    → p k v ≡ true
unfolding lookup
lookup-All p k v [] h e = ground arith
lookup-All p k v ((j, w) ∷ m) h e = ground (arith, lookup-All p k v m h.1, text_eq_iff j k, h.0)

erase-All :
    {V : Type 0} (p : Text → V → Bool) (k : Text) (m : List (Text × V))
    → All (λ e. p e.0 e.1 ≡ true) m
    → All (λ e. p e.0 e.1 ≡ true) (erase k m)
unfolding erase
erase-All p k [] h = tt
erase-All p k ((j, w) ∷ m) h = elim (Bool-cases (text_eq j k)) [
  | inl e ↦ rw e (erase-All p k m h.1)
  | inr e ↦ rw e (h.0, erase-All p k m h.1)
]

bind-eq-got :
    {A B : Type 0} (o : Outcome A) (f : A → Outcome B) (b : B)
    → bind o f ≡ got b
    → (a : A) × (o ≡ got a) × (f a ≡ got b)
bind-eq-got (got a) f b h = (a, refl, h)
bind-eq-got (error e) f b h = ground arith

to_option-eq-some : {A : Type 0} (o : Outcome A) (a : A) → to_option o ≡ some a → o ≡ got a
to_option-eq-some (got b) a h = ground (arith, h)
to_option-eq-some (error e) a h = ground arith

-- what iOS asks of a leaf's lifetime and use, and one entry of the kind that the host is
abbrev pub is_acceptable : (Text → Option Text) → Text → Template → Bool
is_acceptable parse_ip host t =
    ltb t.not_after (t.not_before + 398 * day)
    && t.for_servers
    && not t.is_ca
    && not t.can_sign_certs
    && (if is_some (parse_ip host)
        then not (is_nil t.ip_addresses) && is_nil t.dns_names
        else member host t.dns_names && is_nil t.ip_addresses)

-- The template of a leaf, for any host and at any time: it lasts less than 398 days from its start,
-- skew of the clock included, it is for servers and signs nothing, and it has an address, and no
-- name, if the host is an address, and else the host as a name and no address.
pub leaf_template-acceptable :
    (parse_ip : Text → Option Text) (serial : ℕ) (host : Text) (now : ℕ)
    → is_acceptable parse_ip host (leaf_template parse_ip serial host now) ≡ true
unfolding leaf_template member
leaf_template-acceptable parse_ip serial host now = ground (arith, text_eq_iff host host)

-- The name that a client asks for: that of its hello, or that of CONNECT if the hello has none.
abbrev pub asked : Text → Text → Text
asked connect_host [] = connect_host
asked connect_host (b ∷ server_name) = b ∷ server_name

certificate_name_lem :
    (connect_host server_name : Text)
    → certificate_name connect_host server_name ≡ asked connect_host server_name
unfolding certificate_name
certificate_name_lem connect_host [] = refl
certificate_name_lem connect_host (b ∷ server_name) = refl

module _ {Key Cert LeafKey : Type 0} (x : Signer Key Cert LeafKey) (root : Root Key Cert)
    (leaf_key : LeafKey) (laws : Verifies x) where
  minted_stands :
      (n now : ℕ) (host der : Text) (cert : Cert)
      → x.create_certificate (leaf_template x.parse_ip n host now) root.cert leaf_key root.key
        ≡ got der
      → x.parse_certificate der ≡ got cert
      → (not (is_host host) || x.verify_hostname cert host) ≡ true
  unfolding leaf_template
  minted_stands n now host der cert c p =
      let t = leaf_template x.parse_ip n host now in
      elim (Option-cases (x.parse_ip host)) [
        | inl e ↦
            let names : t.dns_names ≡ host ∷ [] = rw (e, leaf_template) refl in
            elim (Bool-cases (is_host host)) [
              | inl h ↦
                  rw (h, laws.by_name t root.cert leaf_key root.key der cert host c p e h names)
                    refl
              | inr h ↦ rw h refl
            ]
        | inr (ip, e) ↦
            let addresses : t.ip_addresses ≡ ip ∷ [] = rw (e, leaf_template) refl in
            rw (laws.by_address t root.cert leaf_key root.key der cert host ip c p e addresses)
              (ground arith)
      ]

  mint_stands :
      (serial : Outcome ℕ) (now : ℕ) (host : Text) (m : Minted Cert LeafKey)
      → mint_leaf x root leaf_key serial now host ≡ got m
      → stands_for x host m ≡ true
  unfolding mint_leaf
  mint_stands serial now host m h =
      let (n, s, f) = bind-eq-got serial _ m h in
      let (der, c, g) =
        bind-eq-got
          (x.create_certificate (leaf_template x.parse_ip n host now) root.cert leaf_key root.key) _
          m f in
      let (cert, p, q) = bind-eq-got (x.parse_certificate der) _ m g in
      subst (Made x host) q (minted_stands n now host der cert c p)

  mint_option :
      (serial : Outcome ℕ) (now : ℕ) (host : Text) (m : Minted Cert LeafKey)
      → to_option (mint_leaf x root leaf_key serial now host) ≡ some m
      → stands_for x host m ≡ true
  mint_option serial now host m h =
      mint_stands serial now host m
        (to_option-eq-some (mint_leaf x root leaf_key serial now host) m h)

  store-Standing :
      (m : Minted Cert LeafKey) (host : Text) (cache : Cache (Minted Cert LeafKey))
      → stands_for x (host_only host) m ≡ true
      → Standing x cache
      → Standing x (store host m cache).0 × AnsweredFor x host (store host m cache).1
  unfolding store put
  store-Standing m host cache good h = elim (Option-cases (lookup (host_only host) cache)) [
    | inl e ↦
        rw (e, store) ((good, erase-All (stands_for x) (host_only host) cache h), (refl, good))
    | inr (old, e) ↦
        rw (e, store) (h, (refl, lookup-All (stands_for x) (host_only host) old cache h e))
  ]

  mints-Standing :
      (minted : Option (Minted Cert LeafKey)) (host : Text) (cache : Cache (Minted Cert LeafKey))
      → ((m : Minted Cert LeafKey) → minted ≡ some m → stands_for x (host_only host) m ≡ true)
      → Standing x cache
      → Standing x (advance minted (mints host) cache).0
        × AnsweredFor x host (advance minted (mints host) cache).1
  unfolding advance
  mints-Standing none host cache good h = (h, refl)
  mints-Standing (some m) host cache good h = store-Standing m host cache (good m refl) h

  leaf-Standing :
      (serial : Outcome ℕ) (now : ℕ) (host : Text) (cache : Cache (Minted Cert LeafKey))
      → Standing x cache
      → Standing x (leaf x root leaf_key serial now host cache).0
        × AnsweredFor x host (leaf x root leaf_key serial now host cache).1
  unfolding leaf advance
  leaf-Standing serial now host cache h =
      let minted = to_option (mint_leaf x root leaf_key serial now (host_only host)) in
      let Good : Cache (Minted Cert LeafKey) × Caller (Minted Cert LeafKey) → Type 0 =
        λ r. Standing x r.0 × AnsweredFor x host r.1 in
      elim (Option-cases (lookup (host_only host) cache)) [
        | inl e ↦
            let missed : read_cache host cache ≡ mints host = rw (e, read_cache) refl in
            subst (λ k. Good (advance minted k cache)) (sym missed)
              (mints-Standing minted host cache (mint_option serial now (host_only host)) h)
        | inr (old, e) ↦
            let found : read_cache host cache ≡ returns host old = rw (e, read_cache) refl in
            subst (λ k. Good (advance minted k cache)) (sym found)
              (h, (refl, lookup-All (stands_for x) (host_only host) old cache h e))
      ]

  -- If each cached leaf stands for its host, as VerifyHostname tells, then so does each after a
  -- handshake. The handshake ends, with a failure or a leaf, for the name of the client's hello, or
  -- that of CONNECT if the hello has none, and for no other name; the leaf stands for that name
  -- without its port, be it an address or a name, and the leaf minted or from the cache.
  pub get_certificate-Standing :
      (connect_host server_name : Text) (serial : Outcome ℕ) (now : ℕ)
      (cache : Cache (Minted Cert LeafKey))
      → Standing x cache
      → Standing x (get_certificate x root leaf_key connect_host serial now server_name cache).0
        × AnsweredFor x
            (asked connect_host server_name)
            (get_certificate x root leaf_key connect_host serial now server_name cache).1
  unfolding get_certificate
  get_certificate-Standing connect_host server_name serial now cache h =
      rw (sym (certificate_name_lem connect_host server_name))
        (leaf-Standing serial now (certificate_name connect_host server_name) cache h)
