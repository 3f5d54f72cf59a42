-- ===== src/Examples/Authorities.antt =====
-- internal/ca/authority.go and leaf.go with toy packages: a key is a number, and a certificate holds
-- the key, or the name that it was issued for.
use proxysim.Prelude.{
  ℕ, zero, suc, ◌≡◌, refl, true, false, not, ◌&&◌, List, [], ◌∷◌, Option, none, some, Text, codes,
  text_eq, text_eq_refl, if◌then◌else◌, arith,
}
use proxysim.Ca.{Cache}
use proxysim.Ca.Files.{no_access, crt_perm, crt, key, Store, Disk}
use proxysim.Ca.Certificate.{Outcome, got, error, Block, Crypto}
use proxysim.Ca.Load.{ok, Entropy, Root, load}
use proxysim.Ca.Load.Again.{Faithful, load_again}
use proxysim.Ca.Load.Guarded.{is_guarded, Always}
use proxysim.Ca.Load.Private.{load-Always}
use proxysim.Ca.Load.Preserved.{is_ok, load_preserves}
use proxysim.Ca.Leaf.{Signer, Minted, Verifies, get_certificate, Standing, AnsweredFor}
use proxysim.Ca.Valid.{asked, get_certificate-Standing}

-- a text behind a mark of its length in ones
abbrev encode : Text → Text → Text
encode [] bytes = 0 ∷ bytes
encode (c ∷ kind) bytes = suc c ∷ encode kind bytes

abbrev cons_kind : ℕ → Option Block → Option Block
cons_kind c none = none
cons_kind c (some b) = some (record b { kind = c ∷ b.kind })

abbrev read_pem : Text → Option Block
read_pem [] = none
read_pem (zero ∷ bytes) = some (record { kind = []; bytes = bytes })
read_pem (suc c ∷ s) = cons_kind c (read_pem s)

abbrev first : Text → Outcome ℕ
first [] = error []
first (k ∷ rest) = got k

abbrev pub crypto : Crypto ℕ ℕ
crypto = record {
  create_certificate = λ t k. got (k ∷ []);
  parse_certificate = first;
  marshal_key = λ k. k ∷ [];
  parse_key = first;
  encode_block = λ b. encode b.kind b.bytes;
  decode_block = read_pem;
  public_key = λ cert. some (cert, 65537);
  public_of = λ k. (k, 65537);
}

read_pem-encode :
    (kind bytes : Text)
    → read_pem (encode kind bytes) ≡ some (record { kind = kind; bytes = bytes })
read_pem-encode [] bytes = refl
read_pem-encode (c ∷ kind) bytes = rw (read_pem-encode kind bytes) refl

faithful : Faithful crypto
faithful = record {
  block_back = λ b. read_pem-encode b.kind b.bytes;
  key_back = λ k. refl;
  carries = λ t k der cert e f. ground (arith, e, f);
}

abbrev pub disk : Disk
disk = record {
  stat_fault = λ n. none;
  read_fault = λ n. none;
  mkdir_fault = none;
  chmod_dir_fault = none;
  write_fault = λ n. none;
  chmod_fault = λ n. none;
  umask = record { owner = no_access; group = no_access; others = no_access };
  so_far = λ n. [];
}

-- the certificate's file cannot be written
abbrev full_disk : Disk
full_disk = record disk { write_fault = λ n. elim n [ crt ↦ some (codes "no space") | key ↦ none ] }

abbrev pub entropy : Entropy ℕ ℕ
entropy = record {
  root_key = got 77;
  rand_int = λ limit. got 5;
  now = 1000000;
  leaf_key_made = got 8;
}

abbrev later_entropy : Entropy ℕ ℕ
later_entropy = record entropy { leaf_key_made = got 9 }

abbrev pub empty : Store
empty = record { dir = record { dir_mode = none; crt_file = none; key_file = none }; past = [] }

abbrev pem : Text
pem = encode (codes "CERTIFICATE") (77 ∷ [])

abbrev root : Root ℕ ℕ
root = record { cert = 77; key = 77; cert_pem = pem }

abbrev filled : Store
filled = (load crypto disk entropy empty).0

generated : load crypto disk entropy empty ≡ (filled, ok (record { root = root; leaf_key = 8 }))
unfolding load text_eq
generated = refl

load_again_example :
    load crypto disk later_entropy filled ≡ (filled, ok (record { root = root; leaf_key = 9 }))
load_again_example =
    load_again crypto faithful disk disk entropy later_entropy empty filled
      (record { root = root; leaf_key = 8 }) filled 9 refl refl generated refl refl
      (record { stats = λ n. refl; reads = λ n. refl }) refl

load-Always_example : Always is_guarded (load crypto full_disk entropy empty).0
load-Always_example = load-Always crypto full_disk entropy empty (tt, refl)

-- the key got lost
abbrev widowed : Store
widowed = record {
  dir = record {
    dir_mode = none;
    crt_file = some (record { contents = pem; mode = crt_perm });
    key_file = none;
  };
  past = [];
}

load_preserves_example :
    ((load crypto disk entropy widowed).0 ≡ widowed)
    × ((is_ok (load crypto disk entropy widowed).1 && not (true && false)) ≡ false)
load_preserves_example = load_preserves crypto disk entropy widowed refl

abbrev parse_ip : Text → Option Text
parse_ip host = if text_eq host (codes "127.0.0.1") then some host else none

abbrev head : List Text → Text
head [] = []
head (t ∷ ts) = t

abbrev read_block : Option Block → Outcome Block
read_block none = error []
read_block (some b) = got b

-- a certificate is a block of an address and a name
abbrev signer : Signer ℕ Block ℕ
signer = record {
  parse_ip = parse_ip;
  create_certificate = λ t parent l k. got (encode (head t.ip_addresses) (head t.dns_names));
  parse_certificate = λ der. read_block (read_pem der);
  verify_hostname = λ cert host. elim (parse_ip host) [
    | some ip ↦ text_eq cert.kind ip
    | none ↦ text_eq cert.bytes host
  ];
}

issued :
    (ip name der : Text) (cert : Block)
    → got (encode ip name) ≡ got der
    → read_block (read_pem der) ≡ got cert
    → (cert.kind ≡ ip) × (cert.bytes ≡ name)
issued ip name der cert e f = ground (arith, e, f, read_pem-encode ip name)

verifies : Verifies signer
verifies = record {
  by_address = λ t parent l k der cert host ip e f p h.
      let i = issued (head t.ip_addresses) (head t.dns_names) der cert e f in
      ground (arith, p, h, i, text_eq_refl ip);
  by_name = λ t parent l k der cert host e f p n h.
      let i = issued (head t.ip_addresses) (head t.dns_names) der cert e f in
      ground (arith, p, h, i, text_eq_refl host);
}

abbrev block_root : Root ℕ Block
block_root = record { cert = record { kind = []; bytes = [] }; key = 77; cert_pem = [] }

abbrev cached : Cache (Minted Block ℕ)
cached =
    (
      codes "b.com",
      record {
        certificate = [];
        private_key = 8;
        leaf = record { kind = []; bytes = codes "b.com" };
      },
    )
    ∷ []

-- a client without SNI that connects to an address
get_certificate-Standing_example :
    let r = get_certificate signer block_root 8 (codes "127.0.0.1:443") (got 5) 1000000 [] cached in
    Standing signer r.0 × AnsweredFor signer (asked (codes "127.0.0.1:443") []) r.1
unfolding text_eq
get_certificate-Standing_example =
    get_certificate-Standing signer block_root 8 verifies (codes "127.0.0.1:443") [] (got 5) 1000000
      cached (refl, tt)
