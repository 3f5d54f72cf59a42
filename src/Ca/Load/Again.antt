-- ===== src/Ca/Load/Again.antt =====
-- The authority that was generated once is the one that every later run loads.
use proxysim.Prelude.{
  ◌≡◌, refl, sym, subst, ap, ◌∙◌, Bool, false, none, some, Text, text_eq_refl, arith,
}
use proxysim.Ca.Files.{Name, crt, key, Dir, Store, Disk, file_of, crt_perm, key_perm}
use proxysim.Ca.Certificate.{
  Outcome, got, error, Crypto, random_serial, root_template, Template, Block, certificate_kind,
  key_kind,
}
use proxysim.Ca.Load.{
  generating_key, generating_serial, signing, reparsing, Error, Result, ok, failed, M, Entropy,
  Root, Authority, lift, file_exists, read_file, load_from, parse_root, load_root, load, after,
  make_root, generate_into, persist, key_pem_of, pure, leaf_key,
}

-- What the cryptographic packages document: encodings are read back, and a certificate that is
-- created for a key carries the public half of that key.
pub record Faithful {Key Cert : Type 0} (c : Crypto Key Cert) : Type 0 where
  pub block_back : (b : Block) → c.decode_block (c.encode_block b) ≡ some b
  pub key_back : (k : Key) → c.parse_key (c.marshal_key k) ≡ got k
  pub carries :
      (t : Template) (k : Key) (der : Text) (cert : Cert)
      → c.create_certificate t k ≡ got der
      → c.parse_certificate der ≡ got cert
      → c.public_key cert ≡ some (c.public_of k)

-- Inversion of a successful bind, and of a value from outside.
after-eq-ok :
    {A B : Type 0} (r : Store × Result A) (f : A → M B) (s : Store) (b : B)
    → after r f ≡ (s, ok b)
    → (t : Store) × (a : A) × (r ≡ (t, ok a)) × (f a t ≡ (s, ok b))
after-eq-ok (t, ok a) f s b h = (t, a, refl, h)
after-eq-ok (t, failed e) f s b h = cc

lift-eq-ok :
    {A : Type 0} (wrap : Text → Error) (o : Outcome A) (s t : Store) (a : A)
    → lift wrap o s ≡ (t, ok a)
    → (o ≡ got a) × (t ≡ s)
unfolding lift
lift-eq-ok wrap (got b) s t a h = (cc, cc)
lift-eq-ok wrap (error e) s t a h = cc

ok_injective :
    {A : Type 0} (s t : Store) (a b : A)
    → ◌≡◌ {A = Store × Result A} (s, ok a) (t, ok b)
    → (s ≡ t) × (a ≡ b)
ok_injective s t a b h = (ap (λ r. r.0) h, cc)

-- a file that is not there
exists_none :
    (d : Disk) (n : Name) (s t : Store) (b : Bool)
    → file_of n s.dir ≡ none
    → file_exists d n s ≡ (t, ok b)
    → (t ≡ s) × (b ≡ false)
unfolding file_exists
exists_none d n s t b e h = (ground (arith, e, h), ground (arith, e, h))

persist_written :
    (d : Disk) (cert_pem key_pem : Text) (s t : Store)
    → persist d cert_pem key_pem s ≡ (t, ok tt)
    → (t.dir.crt_file ≡ some (record { contents = cert_pem; mode = crt_perm }))
      × (t.dir.key_file ≡ some (record { contents = key_pem; mode = key_perm }))
unfolding persist
persist_written d cert_pem key_pem s t h = ground (arith, h)

module _ {Key Cert : Type 0} (c : Crypto Key Cert) where
  -- A root that was generated: its certificate is read from the bytes of the PEM, which were created
  -- for its key.
  pub record Made (r : Root Key Cert) : Type 0 where
    pub template : Template
    pub der : Text
    pub created : c.create_certificate template r.key ≡ got der
    pub read : c.parse_certificate der ≡ got r.cert
    pub pem : r.cert_pem ≡ c.encode_block (record { kind = certificate_kind; bytes = der })

  abbrev root_of : Cert → Key → Text → Root Key Cert
  root_of cert k der = record {
    cert = cert;
    key = k;
    cert_pem = c.encode_block (record { kind = certificate_kind; bytes = der });
  }

  make_root-Made :
      {LeafKey : Type 0} (e : Entropy Key LeafKey) (s t : Store) (r : Root Key Cert)
      → make_root c e s ≡ (t, ok r)
      → Made r × (t ≡ s)
  unfolding make_root
  make_root-Made e s t r h =
      let (s1, k, h1, f1) = after-eq-ok (lift generating_key e.root_key s) _ t r h in
      let (s2, serial, h2, f2) =
        after-eq-ok (lift generating_serial (random_serial e.rand_int) s1) _ t r f1 in
      let tmpl = root_template serial e.now in
      let (s3, der, h3, f3) =
        after-eq-ok (lift signing (c.create_certificate tmpl k) s2) _ t r f2 in
      let (s4, cert, h4, f4) = after-eq-ok (lift reparsing (c.parse_certificate der) s3) _ t r f3 in
      let q1 = lift-eq-ok generating_key e.root_key s s1 k h1 in
      let q2 = lift-eq-ok generating_serial (random_serial e.rand_int) s1 s2 serial h2 in
      let q3 = lift-eq-ok signing (c.create_certificate tmpl k) s2 s3 der h3 in
      let q4 = lift-eq-ok reparsing (c.parse_certificate der) s3 s4 cert h4 in
      let last = ok_injective s4 t (root_of cert k der) r f4 in
      (
        subst Made last.1
            (record { template = tmpl; der = der; created = q3.0; read = q4.0; pem = refl }),
        sym last.0 ∙ q4.1 ∙ q3.1 ∙ q2.1 ∙ q1.1,
      )

  module _ (laws : Faithful c) where
    -- The two files of a generated root are read back as it.
    parse_root_back :
        (r : Root Key Cert) (s : Store)
        → Made r
        → parse_root c r.cert_pem (key_pem_of c r.key) s ≡ (s, ok r)
    unfolding parse_root
    parse_root_back r s m = ground (
      arith,
      m.pem,
      m.read,
      laws.block_back (record { kind = certificate_kind; bytes = m.der }),
      laws.block_back (record { kind = key_kind; bytes = c.marshal_key r.key }),
      laws.key_back r.key,
      laws.carries m.template r.key m.der r.cert m.created m.read,
      text_eq_refl certificate_kind,
    )

  -- The two files of a root.
  abbrev pub Stored : Root Key Cert → Dir → Type 0
  Stored r dir =
      (dir.crt_file ≡ some (record { contents = r.cert_pem; mode = crt_perm }))
      × (dir.key_file ≡ some (record { contents = key_pem_of c r.key; mode = key_perm }))

  generate_into-Stored :
      {LeafKey : Type 0} (d : Disk) (e : Entropy Key LeafKey) (s t : Store) (r : Root Key Cert)
      → generate_into c d e s ≡ (t, ok r)
      → Made r × Stored r t.dir
  unfolding generate_into
  generate_into-Stored d e s t r h =
      let (s1, root, h1, f1) = after-eq-ok (make_root c e s) _ t r h in
      let (s2, u, h2, f2) =
        after-eq-ok (persist d root.cert_pem (key_pem_of c root.key) s1) (λ _. pure root) t r f1 in
      let last = ok_injective s2 t root r f2 in
      let m = make_root-Made e s s1 root h1 in
      let w = persist_written d root.cert_pem (key_pem_of c root.key) s1 s2 h2 in
      subst (λ x. Made x × Stored x t.dir) last.1 (m.0, subst (λ x. Stored root x.dir) last.0 w)

  load_first-Stored :
      {LeafKey : Type 0} (d : Disk) (e : Entropy Key LeafKey) (s t : Store)
      (a : Authority Key Cert LeafKey)
      → s.dir.crt_file ≡ none
      → s.dir.key_file ≡ none
      → load c d e s ≡ (t, ok a)
      → Made a.root × Stored a.root t.dir
  unfolding load
  load_first-Stored d e s t a n m h =
      let (s1, b, h1, f1) = after-eq-ok (file_exists d crt s) _ t a h in
      let (s2, b', h2, f2) = after-eq-ok (file_exists d key s1) _ t a f1 in
      let (s3, root, h3, f3) = after-eq-ok (load_root c d e b b' s2) _ t a f2 in
      let (s4, l, h4, f4) = after-eq-ok (lift leaf_key e.leaf_key_made s3) _ t a f3 in
      let q1 = exists_none d crt s s1 b n h1 in
      let q2 = exists_none d key s1 s2 b' (ap (λ x. x.dir.key_file) q1.0 ∙ m) h2 in
      let q3 = subst (λ x. load_root c d e b x s2 ≡ (s3, ok root)) q2.1 h3 in
      let q4 = subst (λ x. load_root c d e x false s2 ≡ (s3, ok root)) q1.1 q3 in
      let st = generate_into-Stored d e s2 s3 root (unfold load_root in q4) in
      let q5 = lift-eq-ok leaf_key e.leaf_key_made s3 s4 l h4 in
      let last = ok_injective s4 t (record { root = root; leaf_key = l }) a f4 in
      subst (λ x. Made x.root × Stored x.root t.dir) last.1
        (st.0, subst (λ x. Stored root x.dir) (sym q5.1 ∙ last.0) st.1)

  -- a disk on which files can be looked at and read
  pub record Readable (d : Disk) : Type 0 where
    pub stats : (n : Name) → d.stat_fault n ≡ none
    pub reads : (n : Name) → d.read_fault n ≡ none

  module _ (laws : Faithful c) where
    load_from-Stored :
        (d : Disk) (r : Root Key Cert) (s : Store)
        → Readable d
        → Stored r s.dir
        → Made r
        → load_from c d s ≡ (s, ok r)
    unfolding load_from read_file
    load_from-Stored d r s rd st m =
        ground (arith, rd.reads crt, rd.reads key, st, parse_root_back laws r s m)

    -- The authority that a run generates in an empty directory is the one that a later run loads, with
    -- the certificate, the key and the PEM text that it had; the later run changes nothing. The files
    -- have not been changed in between and can be read; only the leaf key is new.
    pub load_again :
        {LeafKey : Type 0} (d d' : Disk) (e e' : Entropy Key LeafKey) (s t : Store)
        (a : Authority Key Cert LeafKey) (later : Store) (l : LeafKey)
        → s.dir.crt_file ≡ none
        → s.dir.key_file ≡ none
        → load c d e s ≡ (t, ok a)
        → later.dir.crt_file ≡ t.dir.crt_file
        → later.dir.key_file ≡ t.dir.key_file
        → Readable d'
        → e'.leaf_key_made ≡ got l
        → load c d' e' later ≡ (later, ok (record { root = a.root; leaf_key = l }))
    unfolding load load_root file_exists lift
    load_again d d' e e' s t a later l n m h p q rd g =
        let first = load_first-Stored d e s t a n m h in
        let there : Stored a.root later.dir = (p ∙ first.1.0, q ∙ first.1.1) in
        ground (
          arith,
          rd.stats crt,
          rd.stats key,
          g,
          there,
          load_from-Stored d' a.root later rd there first.0,
        )
