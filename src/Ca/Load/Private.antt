-- ===== src/Ca/Load/Private.antt =====
-- What a crash can leave of an authority that is being generated.
use proxysim.Prelude.{
  ◌≡◌, refl, ap, sym, ◌∙◌, Bool, true, false, Option, Text, is_some, arith, Option-cases, inl, inr,
}
use proxysim.Ca.Files.{
  Mode, crt, key, Dir, File, Store, Disk, file_of, dir_perm, key_perm, crt_perm, move, written,
  write_file, chmod_file, mkdir, chmod_dir, with_mode, with_file,
}
use proxysim.Ca.Certificate.{Crypto, root_template, random_serial}
use proxysim.Ca.Load.{
  ok, M, Entropy, lift, check, file_exists, load_from, load_root, load, make_root, generate_into,
  persist, secure_key, secure_crt, creating_dir, securing_dir, writing, securing, generating_key,
  generating_serial, signing, reparsing, leaf_key, key_pem_of,
}
use proxysim.Ca.Load.Preserved.{Quiet, after-Quiet, lift-Quiet, file_exists-Quiet, load_from-Quiet}
use proxysim.Ca.Load.Guarded.{
  is_guarded, Always, move-Always, after-Always, check_store, check-Always, Keeps, write-Always,
  chmod-Always, mkdir-Always, chmod_dir-Always,
}

write_key-Keeps : (d : Disk) (text : Text) → Keeps is_guarded (written d key text key_perm)
write_key-Keeps d text dir h = ground (arith, h)

chmod_key-Keeps : Keeps is_guarded (λ dir. with_file key (with_mode key_perm dir.key_file) dir)
chmod_key-Keeps dir h = ground (arith, h)

secure_key-Always :
    (d : Disk) (key_pem : Text) (s : Store)
    → Always is_guarded s
    → Always is_guarded (secure_key d key_pem s).0
unfolding secure_key
secure_key-Always d key_pem s h =
    after-Always is_guarded (check creating_dir (mkdir d dir_perm) s) _
      (check-Always is_guarded creating_dir (mkdir d dir_perm) s (mkdir-Always d dir_perm s h))
      λ _ s1 h1 _.
        after-Always is_guarded (check securing_dir (chmod_dir d dir_perm) s1) _
          (check-Always is_guarded securing_dir (chmod_dir d dir_perm) s1
            (chmod_dir-Always d dir_perm s1 h1))
          λ _ s2 h2 _.
            after-Always is_guarded (check (writing key) (write_file d key key_pem key_perm) s2) _
              (check-Always is_guarded (writing key) (write_file d key key_pem key_perm) s2
                (write-Always is_guarded d key key_pem key_perm s2 (write_key-Keeps d) h2))
              λ _ s3 h3 _.
                check-Always is_guarded (securing key) (chmod_file d key key_perm) s3
                  (chmod-Always is_guarded d key key_perm s3 chmod_key-Keeps h3)

secure_key_done :
    (d : Disk) (key_pem : Text) (s t : Store) (u : Unit)
    → secure_key d key_pem s ≡ (t, ok u)
    → is_some t.dir.key_file ≡ true
unfolding secure_key
secure_key_done d key_pem s t u h = ground (arith, h)

-- A directory with a key stays guarded whatever is written to the certificate's file.
crt_keeps :
    (dir : Dir) (f : Option File)
    → is_some dir.key_file ≡ true
    → is_guarded dir ≡ true
    → is_guarded (with_file crt f dir) ≡ true
crt_keeps dir f k h = ground (arith, k, h)

write_crt-Always :
    (d : Disk) (text : Text) (mode : Mode) (s : Store)
    → is_some s.dir.key_file ≡ true
    → Always is_guarded s
    → Always is_guarded (write_file d crt text mode s).0
unfolding write_file
write_crt-Always d text mode s k h =
    let dir = written d crt (d.so_far crt) mode s.dir in
    let begun = move dir s in
    let g = crt_keeps s.dir (file_of crt dir) k h.1 in
    let b = move-Always is_guarded dir s g h in
    let dir' = written d crt text mode dir in
    elim (Option-cases (d.write_fault crt)) [
      | inl e ↦
          rw (e, write_file)
            (move-Always is_guarded dir' begun (crt_keeps dir (file_of crt dir') k g) b)
      | inr (m, e) ↦ rw (e, write_file) b
    ]

key-write_crt :
    (d : Disk) (text : Text) (mode : Mode) (s : Store)
    → (write_file d crt text mode s).0.dir.key_file ≡ s.dir.key_file
unfolding write_file
key-write_crt d text mode s = ground arith

chmod_crt-Always :
    (d : Disk) (mode : Mode) (s : Store)
    → is_some s.dir.key_file ≡ true
    → Always is_guarded s
    → Always is_guarded (chmod_file d crt mode s).0
unfolding chmod_file
chmod_crt-Always d mode s k h =
    let f = with_mode mode s.dir.crt_file in
    elim (Option-cases (d.chmod_fault crt)) [
      | inl e ↦
          rw (e, chmod_file)
            (move-Always is_guarded (with_file crt f s.dir) s (crt_keeps s.dir f k h.1) h)
      | inr (m, e) ↦ rw (e, chmod_file) h
    ]

secure_crt-Always :
    (d : Disk) (cert_pem : Text) (s : Store)
    → is_some s.dir.key_file ≡ true
    → Always is_guarded s
    → Always is_guarded (secure_crt d cert_pem s).0
unfolding secure_crt
secure_crt-Always d cert_pem s k h =
    let write = write_file d crt cert_pem crt_perm in
    after-Always is_guarded (check (writing crt) write s) _
      (check-Always is_guarded (writing crt) write s (write_crt-Always d cert_pem crt_perm s k h))
      λ _ t h' e. check-Always is_guarded (securing crt) (chmod_file d crt crt_perm) t (
        chmod_crt-Always d crt_perm t
          (ap (λ r. is_some r.0.dir.key_file) (sym e)
            ∙ ap (λ x. is_some x.dir.key_file) (check_store (writing crt) write s)
            ∙ ap is_some (key-write_crt d cert_pem crt_perm s)
            ∙ k)
          h')

persist-Always :
    (d : Disk) (cert_pem key_pem : Text) (s : Store)
    → Always is_guarded s
    → Always is_guarded (persist d cert_pem key_pem s).0
unfolding persist
persist-Always d cert_pem key_pem s h =
    after-Always is_guarded (secure_key d key_pem s) _ (secure_key-Always d key_pem s h)
      λ u t h' e. secure_crt-Always d cert_pem t (secure_key_done d key_pem s t u e) h'

Quiet-Always :
    {A : Type 0} (p : Dir → Bool) (m : M A) (s : Store) → Quiet m → Always p s → Always p (m s).0
Quiet-Always p m s quiet h = rw (quiet s) h

module _ {Key Cert LeafKey : Type 0} (c : Crypto Key Cert) (d : Disk)
    (e : Entropy Key LeafKey) where
  make_root-Quiet : Quiet (make_root c e)
  unfolding make_root
  make_root-Quiet s =
      after-Quiet (lift generating_key e.root_key s) _ s (lift-Quiet generating_key e.root_key s)
        λ k s1.
          after-Quiet (lift generating_serial (random_serial e.rand_int) s1) _ s1
            (lift-Quiet generating_serial (random_serial e.rand_int) s1)
            λ serial s2.
              let der = c.create_certificate (root_template serial e.now) k in
              after-Quiet (lift signing der s2) _ s2 (lift-Quiet signing der s2) λ bytes s3.
                after-Quiet (lift reparsing (c.parse_certificate bytes) s3) _ s3
                  (lift-Quiet reparsing (c.parse_certificate bytes) s3) λ _ s4. refl

  generate_into-Always :
      (s : Store) → Always is_guarded s → Always is_guarded (generate_into c d e s).0
  unfolding generate_into
  generate_into-Always s h =
      after-Always is_guarded (make_root c e s) _
        (Quiet-Always is_guarded (make_root c e) s make_root-Quiet h)
        λ root t h1 _.
          let pem = key_pem_of c root.key in
          after-Always is_guarded (persist d root.cert_pem pem t) _
            (persist-Always d root.cert_pem pem t h1) λ _ u h2 _. h2

  load_root-Always :
      (crt_exists key_exists : Bool) (s : Store)
      → Always is_guarded s
      → Always is_guarded (load_root c d e crt_exists key_exists s).0
  unfolding load_root
  load_root-Always true true s h = Quiet-Always is_guarded (load_from c d) s (load_from-Quiet c d) h
  load_root-Always false false s h = generate_into-Always s h
  load_root-Always true false s h = h
  load_root-Always false true s h = h

  -- If at no moment the key file was open to group or others, nor a certificate there without a
  -- key, then Load brings no such moment, whatever the umask is and whichever call fails: a crash
  -- leaves neither a key that others can use nor a certificate alone.
  pub load-Always : (s : Store) → Always is_guarded s → Always is_guarded (load c d e s).0
  unfolding load
  load-Always s h =
      after-Always is_guarded (file_exists d crt s) _
        (Quiet-Always is_guarded (file_exists d crt) s (file_exists-Quiet d crt) h)
        λ x s1 h1 _.
          after-Always is_guarded (file_exists d key s1) _
            (Quiet-Always is_guarded (file_exists d key) s1 (file_exists-Quiet d key) h1)
            λ y s2 h2 _.
              after-Always is_guarded (load_root c d e x y s2) _ (load_root-Always x y s2 h2)
                λ root s3 h3 _.
                  after-Always is_guarded (lift leaf_key e.leaf_key_made s3) _
                    (Quiet-Always is_guarded (lift leaf_key e.leaf_key_made) s3
                      (lift-Quiet leaf_key e.leaf_key_made) h3)
                    λ _ s4 h4 _. h4
