-- ===== src/Ca/Load.antt =====
-- `Load` of internal/ca/authority.go over the four states of the directory. Errors are values of
-- `Error`, one constructor for a message of the source.
pub mod Preserved
pub mod Again
pub mod Guarded
pub mod Private
use proxysim.Prelude.{ℕ, Bool, true, false, List, [], ◌∷◌, Option, none, some, Text, if◌then◌else◌}
use proxysim.Ca.Files.{
  Name, crt, key, Dir, File, Store, Disk, file_of, dir_perm, key_perm, crt_perm, write_file,
  chmod_file, mkdir, chmod_dir,
}
use proxysim.Ca.Certificate.{
  Outcome, got, error, Crypto, Template, root_template, certificate_kind, key_kind, parse_cert_pem,
  parse_key_pem, verify_key_matches_cert, random_serial,
}

pub data Error : Type 0 where
  crt_without_key key_without_crt : Error
  stat reading parsing writing securing : Name → Text → Error
  mismatch generating_key generating_serial signing reparsing creating_dir securing_dir leaf_key :
      Text → Error

pub data Result (A : Type 0) : Type 0 where
  ok : A → Result A
  failed : Error → Result A

-- An action on the store that may fail.
abbrev pub M : Type 0 → Type 0
M A = Store → Store × Result A

infixl 5 ◌>>=◌ ◌>>◌
abbrev pub after : {A B : Type 0} → Store × Result A → (A → M B) → Store × Result B
after (s, ok a) f = f a s
after (s, failed e) f = (s, failed e)

abbrev pub ◌>>=◌ : {A B : Type 0} → M A → (A → M B) → M B
◌>>=◌ m f s = after (m s) f

abbrev pub ◌>>◌ : {B : Type 0} → M (Unit {0}) → M B → M B
m >> k = m >>= λ _. k

abbrev pub pure : {A : Type 0} → A → M A
pure a s = (s, ok a)

abbrev pub fail : {A : Type 0} → Error → M A
fail e s = (s, failed e)

-- a value from outside
unfoldable pub lift : {A : Type 0} → (Text → Error) → Outcome A → M A
lift wrap (got a) s = (s, ok a)
lift wrap (error e) s = (s, failed (wrap e))

-- a call that returns an error only
unfoldable pub check : (Text → Error) → (Store → Store × Option Text) → M (Unit {0})
check wrap call s =
    let (s', e) = call s in elim e [ none ↦ (s', ok tt) | some m ↦ (s', failed (wrap m)) ]

unfoldable pub file_exists : Disk → Name → M Bool
file_exists d n s = elim (d.stat_fault n) [
  | some e ↦ (s, failed (stat n e))
  | none ↦ elim (file_of n s.dir) [ some f ↦ (s, ok true) | none ↦ (s, ok false) ]
]

unfoldable pub read_file : Disk → Name → M Text
read_file d n s = elim (d.read_fault n) [
  | some e ↦ (s, failed (reading n e))
  | none ↦ elim (file_of n s.dir) [
    | some f ↦ (s, ok f.contents)
    | none ↦ (s, failed (reading n []))
  ]
]

-- What a process gets from outside while it generates an authority.
pub record Entropy (Key LeafKey : Type 0) : Type 0 where
  pub root_key : Outcome Key
  pub rand_int : ℕ → Outcome ℕ
  pub now : ℕ
  pub leaf_key_made : Outcome LeafKey

-- The root of an authority, and the whole of it; the cache starts empty.
pub record Root (Key Cert : Type 0) : Type 0 where
  pub cert : Cert
  pub key : Key
  pub cert_pem : Text

pub record Authority (Key Cert LeafKey : Type 0) : Type 0 where
  pub root : Root Key Cert
  pub leaf_key : LeafKey

unfoldable pub secure_key : Disk → Text → M (Unit {0})
unfolding check mkdir chmod_dir write_file chmod_file
secure_key d key_pem = do
  check creating_dir (mkdir d dir_perm)
  check securing_dir (chmod_dir d dir_perm)
  check (writing key) (write_file d key key_pem key_perm)
  check (securing key) (chmod_file d key key_perm)

unfoldable pub secure_crt : Disk → Text → M (Unit {0})
unfolding check write_file chmod_file
secure_crt d cert_pem = do
  check (writing crt) (write_file d crt cert_pem crt_perm)
  check (securing crt) (chmod_file d crt crt_perm)

-- The key is written and secured before there is a certificate.
unfoldable pub persist : Disk → Text → Text → M (Unit {0})
unfolding secure_key secure_crt
persist d cert_pem key_pem = do secure_key d key_pem; secure_crt d cert_pem

module _ {Key Cert : Type 0} (c : Crypto Key Cert) where
  unfoldable pub parse_root : Text → Text → M (Root Key Cert)
  unfolding parse_cert_pem parse_key_pem verify_key_matches_cert lift
  parse_root cert_pem key_pem = do
    cert ← lift (parsing crt) (parse_cert_pem c cert_pem)
    k ← lift (parsing key) (parse_key_pem c key_pem)
    elim (verify_key_matches_cert c cert k) [
      | some e ↦ fail (mismatch e)
      | none ↦ pure (record { cert = cert; key = k; cert_pem = cert_pem })
    ]

  unfoldable pub load_from : Disk → M (Root Key Cert)
  unfolding read_file parse_root
  load_from d = do
    cert_pem ← read_file d crt
    key_pem ← read_file d key
    parse_root cert_pem key_pem

  -- The certificate, its PEM and its key, before anything is written.
  unfoldable pub make_root : {LeafKey : Type 0} → Entropy Key LeafKey → M (Root Key Cert)
  unfolding root_template random_serial lift
  make_root e = do
    k ← lift generating_key e.root_key
    serial ← lift generating_serial (random_serial e.rand_int)
    der ← lift signing (c.create_certificate (root_template serial e.now) k)
    cert ← lift reparsing (c.parse_certificate der)
    pure (record {
      cert = cert;
      key = k;
      cert_pem = c.encode_block (record { kind = certificate_kind; bytes = der });
    })

  abbrev pub key_pem_of : Key → Text
  key_pem_of k = c.encode_block (record { kind = key_kind; bytes = c.marshal_key k })

  unfoldable pub generate_into : {LeafKey : Type 0} → Disk → Entropy Key LeafKey → M (Root Key Cert)
  unfolding make_root persist
  generate_into d e = do
    root ← make_root e
    persist d root.cert_pem (key_pem_of root.key)
    pure root

  -- the four states
  unfoldable pub load_root :
      {LeafKey : Type 0} → Disk → Entropy Key LeafKey → Bool → Bool → M (Root Key Cert)
  unfolding load_from generate_into
  load_root d e true true = load_from d
  load_root d e false false = generate_into d e
  load_root d e true false = fail crt_without_key
  load_root d e false true = fail key_without_crt

  unfoldable pub load :
      {LeafKey : Type 0} → Disk → Entropy Key LeafKey → M (Authority Key Cert LeafKey)
  unfolding file_exists load_root lift
  load d e = do
    crt_exists ← file_exists d crt
    key_exists ← file_exists d key
    root ← load_root d e crt_exists key_exists
    made ← lift leaf_key e.leaf_key_made
    pure (record { root = root; leaf_key = made })
