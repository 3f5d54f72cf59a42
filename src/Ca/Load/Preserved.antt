-- ===== src/Ca/Load/Preserved.antt =====
-- An authority that is there, whole or in part, is never written over.
use proxysim.Prelude.{◌≡◌, refl, ◌∙◌, ◌&&◌, Bool, true, false, not, ◌||◌, Text, is_some, arith}
use proxysim.Ca.Files.{Name, crt, key, Store, Disk}
use proxysim.Ca.Certificate.{Outcome, got, error, Crypto}
use proxysim.Ca.Load.{
  Error, Result, ok, failed, M, Entropy, lift, file_exists, read_file, load_from, parse_root,
  load_root, load, after,
}

-- An action that leaves the store alone.
abbrev pub Quiet : {A : Type 0} → M A → Type 0
Quiet m = (s : Store) → (m s).0 ≡ s

pub after-Quiet :
    {A B : Type 0} (r : Store × Result A) (f : A → M B) (s : Store)
    → r.0 ≡ s
    → ((a : A) → Quiet (f a))
    → (after r f).0 ≡ s
after-Quiet (s', ok a) f s h quiet = quiet a s' ∙ h
after-Quiet (s', failed e) f s h quiet = h

pub lift-Quiet : {A : Type 0} (wrap : Text → Error) (o : Outcome A) → Quiet (lift wrap o)
unfolding lift
lift-Quiet wrap (got a) s = refl
lift-Quiet wrap (error e) s = refl

read_file-Quiet : (d : Disk) (n : Name) → Quiet (read_file d n)
unfolding read_file
read_file-Quiet d n s = ground arith

pub file_exists-Quiet : (d : Disk) (n : Name) → Quiet (file_exists d n)
unfolding file_exists
file_exists-Quiet d n s = ground arith

abbrev pub is_ok : {A : Type 0} → Result A → Bool
is_ok (ok a) = true
is_ok (failed e) = false

module _ {Key Cert : Type 0} (c : Crypto Key Cert) where
  parse_root-Quiet : (cert_pem key_pem : Text) → Quiet (parse_root c cert_pem key_pem)
  unfolding parse_root
  parse_root-Quiet cert_pem key_pem s = ground arith

  pub load_from-Quiet : (d : Disk) → Quiet (load_from c d)
  unfolding load_from
  load_from-Quiet d s =
      after-Quiet (read_file d crt s) _ s (read_file-Quiet d crt s) (λ cert_pem s'.
        after-Quiet (read_file d key s') _ s' (read_file-Quiet d key s')
          (λ key_pem. parse_root-Quiet cert_pem key_pem))

  -- If either file is there, Load changes nothing in the directory, whatever fails; and it gives an
  -- authority only if both are there.
  pub load_preserves :
      {LeafKey : Type 0} (d : Disk) (e : Entropy Key LeafKey) (s : Store)
      → (is_some s.dir.crt_file || is_some s.dir.key_file) ≡ true
      → ((load c d e s).0 ≡ s)
        × ((is_ok (load c d e s).1 && not (is_some s.dir.crt_file && is_some s.dir.key_file))
            ≡ false)
  unfolding load file_exists load_root
  load_preserves d e s h = (ground (arith, load_from-Quiet d s), ground arith)
