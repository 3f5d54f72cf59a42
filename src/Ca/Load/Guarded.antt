-- ===== src/Ca/Load/Guarded.antt =====
-- What each call on the files of an authority keeps of the directory, at every moment.
use proxysim.Prelude.{
  ◌≡◌, refl, Bool, true, not, ◌&&◌, [], ◌∷◌, Option, none, some, Text, is_some, All, All-append,
  arith, Option-cases, inl, inr,
}
use proxysim.Ca.Files.{
  Access, Mode, Name, Dir, Store, Disk, file_of, move, written, write_file, chmod_file, mkdir,
  chmod_dir, with_mode, with_file, masked,
}
use proxysim.Ca.Load.{Error, Result, ok, failed, M, check, after}

abbrev pub is_closed : Access → Bool
is_closed a = not a.reads && not a.writes && not a.executes

-- Only its owner can do anything with the key file, and there is no certificate without a key.
abbrev pub is_guarded : Dir → Bool
is_guarded dir = elim dir.key_file [
  | none ↦ not (is_some dir.crt_file)
  | some f ↦ is_closed f.mode.group && is_closed f.mode.others
]

-- A property of the directory at every moment.
abbrev pub Always : (Dir → Bool) → Store → Type 0
Always p s = All (λ dir. p dir ≡ true) s.past × (p s.dir ≡ true)

pub move-Always :
    (p : Dir → Bool) (d : Dir) (s : Store) → p d ≡ true → Always p s → Always p (move d s)
move-Always p d s h a = (All-append (λ dir. p dir ≡ true) s.past (d ∷ []) a.0 (h, tt), h)

pub after-Always :
    {A B : Type 0} (p : Dir → Bool) (r : Store × Result A) (f : A → M B)
    → Always p r.0
    → ((a : A) (s : Store) → Always p s → r ≡ (s, ok a) → Always p (f a s).0)
    → Always p (after r f).0
after-Always p (s, ok a) f h k = k a s h refl
after-Always p (s, failed e) f h k = h

pub check_store :
    (wrap : Text → Error) (call : Store → Store × Option Text) (s : Store)
    → (check wrap call s).0 ≡ (call s).0
unfolding check
check_store wrap call s = ground arith

pub check-Always :
    (p : Dir → Bool) (wrap : Text → Error) (call : Store → Store × Option Text) (s : Store)
    → Always p (call s).0
    → Always p (check wrap call s).0
check-Always p wrap call s h = rw (check_store wrap call s) h

-- a change of the directory that keeps a property
abbrev pub Keeps : (Dir → Bool) → (Dir → Dir) → Type 0
Keeps p change = (dir : Dir) → p dir ≡ true → p (change dir) ≡ true

pub write-Always :
    (p : Dir → Bool) (d : Disk) (n : Name) (contents : Text) (mode : Mode) (s : Store)
    → ((text : Text) → Keeps p (written d n text mode))
    → Always p s
    → Always p (write_file d n contents mode s).0
unfolding write_file
write-Always p d n contents mode s keeps h =
    let begun = move (written d n (d.so_far n) mode s.dir) s in
    let b =
      move-Always p (written d n (d.so_far n) mode s.dir) s (keeps (d.so_far n) s.dir h.1) h in
    elim (Option-cases (d.write_fault n)) [
      | inl e ↦
          rw (e, write_file)
            (move-Always p (written d n contents mode begun.dir) begun
              (keeps contents begun.dir b.1) b)
      | inr (m, e) ↦ rw (e, write_file) b
    ]

pub chmod-Always :
    (p : Dir → Bool) (d : Disk) (n : Name) (mode : Mode) (s : Store)
    → Keeps p (λ dir. with_file n (with_mode mode (file_of n dir)) dir)
    → Always p s
    → Always p (chmod_file d n mode s).0
unfolding chmod_file
chmod-Always p d n mode s keeps h =
    let dir = with_file n (with_mode mode (file_of n s.dir)) s.dir in
    elim (Option-cases (d.chmod_fault n)) [
      | inl e ↦ rw (e, chmod_file) (move-Always p dir s (keeps s.dir h.1) h)
      | inr (m, e) ↦ rw (e, chmod_file) h
    ]

pub mkdir-Always :
    (d : Disk) (mode : Mode) (s : Store)
    → Always is_guarded s
    → Always is_guarded (mkdir d mode s).0
unfolding mkdir
mkdir-Always d mode s h =
    let dir : Dir = record (s.dir) { dir_mode = some (masked mode d.umask) } in
    let moved = move-Always is_guarded dir s h.1 h in
    elim (Option-cases d.mkdir_fault) [
      | inl e ↦ elim (Option-cases s.dir.dir_mode) [
        | inl q ↦ rw (e, q, mkdir) moved
        | inr (m, q) ↦ rw (e, q, mkdir) h
      ]
      | inr (m, e) ↦ rw (e, mkdir) h
    ]

pub chmod_dir-Always :
    (d : Disk) (mode : Mode) (s : Store)
    → Always is_guarded s
    → Always is_guarded (chmod_dir d mode s).0
unfolding chmod_dir
chmod_dir-Always d mode s h = elim (Option-cases d.chmod_dir_fault) [
  | inl e ↦
      rw (e, chmod_dir) (move-Always is_guarded (record (s.dir) { dir_mode = some mode }) s h.1 h)
  | inr (m, e) ↦ rw (e, chmod_dir) h
]
