-- ===== src/Ca/Certificate.antt =====
-- The certificates of internal/ca: their templates, and what the cryptographic packages give.
use proxysim.Prelude.{
  ℕ, ◌+◌, ◌-◌, ◌*◌, ◌^◌, ◌==◌, Bool, true, false, not, ◌||◌, List, [], ◌∷◌, Option, none, some,
  Text, codes, text_eq, if◌then◌else◌,
}

-- A call that gives a value or an error's message.
pub data Outcome (A : Type 0) : Type 0 where
  got : A → Outcome A
  error : Text → Outcome A

-- Seconds.
abbrev pub hour : ℕ
hour = 60 * 60

abbrev pub day : ℕ
day = 24 * hour

abbrev pub root_validity : ℕ
root_validity = 10 * 365 * day

abbrev pub leaf_validity : ℕ
leaf_validity = 397 * day

abbrev pub clock_skew : ℕ
clock_skew = hour

-- What a template asks for; the times are seconds, and now is more than an hour from their start.
pub record Template : Type 0 where
  pub serial : ℕ
  pub common_name : Text
  pub organization : List Text
  pub not_before : ℕ
  pub not_after : ℕ
  pub can_sign_certs : Bool
  pub is_ca : Bool
  pub max_path_len : Option ℕ
  pub for_servers : Bool
  pub ip_addresses : List Text
  pub dns_names : List Text

unfoldable pub root_template : ℕ → ℕ → Template
root_template serial now = record {
  serial = serial;
  common_name = codes "proxysim Local Root CA";
  organization = codes "proxysim" ∷ [];
  not_before = now - clock_skew;
  not_after = now + root_validity;
  can_sign_certs = true;
  is_ca = true;
  max_path_len = some 0;
  for_servers = false;
  ip_addresses = [];
  dns_names = [];
}

-- `net.ParseIP` is the first argument: the address in its canonical form, if the host is one.
unfoldable pub leaf_template : (Text → Option Text) → ℕ → Text → ℕ → Template
leaf_template parse_ip serial host now =
    let tmpl : Template = record {
      serial = serial;
      common_name = host;
      organization = [];
      not_before = now - clock_skew;
      not_after = now + leaf_validity;
      can_sign_certs = false;
      is_ca = false;
      max_path_len = none;
      for_servers = true;
      ip_addresses = [];
      dns_names = [];
    } in
    elim (parse_ip host) [
      | some ip ↦ record tmpl { ip_addresses = ip ∷ [] }
      | none ↦ record tmpl { dns_names = host ∷ [] }
    ]

pub record Block : Type 0 where
  pub kind : Text
  pub bytes : Text

-- Packages rsa, x509 and pem. A certificate is parsed from its DER bytes; its public key is `none`
-- where it is not RSA's, and else the modulus and the exponent.
pub record Crypto (Key Cert : Type 0) : Type 0 where
  pub create_certificate : Template → Key → Outcome Text
  pub parse_certificate : Text → Outcome Cert
  pub marshal_key : Key → Text
  pub parse_key : Text → Outcome Key
  pub encode_block : Block → Text
  pub decode_block : Text → Option Block
  pub public_key : Cert → Option (ℕ × ℕ)
  pub public_of : Key → ℕ × ℕ

abbrev pub certificate_kind : Text
certificate_kind = codes "CERTIFICATE"

abbrev pub key_kind : Text
key_kind = codes "RSA PRIVATE KEY"

module _ {Key Cert : Type 0} (c : Crypto Key Cert) where
  unfoldable pub parse_cert_pem : Text → Outcome Cert
  parse_cert_pem cert_pem = elim (c.decode_block cert_pem) [
    | none ↦ error (codes "no CERTIFICATE PEM block found")
    | some b ↦
        if text_eq b.kind certificate_kind
        then c.parse_certificate b.bytes
        else error (codes "no CERTIFICATE PEM block found")
  ]

  unfoldable pub parse_key_pem : Text → Outcome Key
  parse_key_pem key_pem = elim (c.decode_block key_pem) [
    | none ↦ error (codes "no PEM block found")
    | some b ↦ c.parse_key b.bytes
  ]

  -- `none`, or the error's message; `%T` of the key is left out of it.
  unfoldable pub verify_key_matches_cert : Cert → Key → Option Text
  verify_key_matches_cert cert k = elim (c.public_key cert) [
    | none ↦ some (codes "certificate public key is not RSA")
    | some (n, e) ↦
        let (m, f) = c.public_of k in
        if not (n == m) || not (e == f)
        then some (codes "private key does not match certificate public key")
        else none
  ]

-- `randomSerial`: `rand.Int` below 2^128 is the argument.
abbrev pub serial_limit : ℕ
serial_limit = 2 ^ 128

unfoldable pub random_serial : (ℕ → Outcome ℕ) → Outcome ℕ
random_serial rand_int = rand_int serial_limit
