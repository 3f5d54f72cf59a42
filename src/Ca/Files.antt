-- ===== src/Ca/Files.antt =====
-- The directory of the certificate authority: two files with their permissions, and the calls of
-- package os that internal/ca/authority.go makes on them.
use proxysim.Prelude.{Bool, true, false, not, ◌&&◌, List, [], ◌∷◌, ◌++◌, Option, none, some, Text}

-- The permissions of one class of users.
pub record Access : Type 0 where
  pub reads : Bool
  pub writes : Bool
  pub executes : Bool

pub record Mode : Type 0 where
  pub owner : Access
  pub group : Access
  pub others : Access

abbrev pub no_access : Access
no_access = record { reads = false; writes = false; executes = false }

abbrev pub read_only : Access
read_only = record { reads = true; writes = false; executes = false }

abbrev pub read_write : Access
read_write = record { reads = true; writes = true; executes = false }

abbrev pub full_access : Access
full_access = record { reads = true; writes = true; executes = true }

-- 0o700, 0o600 and 0o644
abbrev pub dir_perm : Mode
dir_perm = record { owner = full_access; group = no_access; others = no_access }

abbrev pub key_perm : Mode
key_perm = record { owner = read_write; group = no_access; others = no_access }

abbrev pub crt_perm : Mode
crt_perm = record { owner = read_write; group = read_only; others = read_only }

abbrev mask_access : Access → Access → Access
mask_access a m = record {
  reads = a.reads && not m.reads;
  writes = a.writes && not m.writes;
  executes = a.executes && not m.executes;
}

-- what the umask leaves of the permissions of a new file
abbrev pub masked : Mode → Mode → Mode
masked mode umask = record {
  owner = mask_access mode.owner umask.owner;
  group = mask_access mode.group umask.group;
  others = mask_access mode.others umask.others;
}

pub record File : Type 0 where
  pub contents : Text
  pub mode : Mode

pub data Name : Type 0 where
  crt key : Name

-- `dir_mode` is `none` where there is no directory.
pub record Dir : Type 0 where
  pub dir_mode : Option Mode
  pub crt_file : Option File
  pub key_file : Option File

abbrev pub file_of : Name → Dir → Option File
file_of crt d = d.crt_file
file_of key d = d.key_file

abbrev pub with_file : Name → Option File → Dir → Dir
with_file crt f d = record d { crt_file = f }
with_file key f d = record d { key_file = f }

-- The directory, and what it was after every action: where a crash may hit.
pub record Store : Type 0 where
  pub dir : Dir
  pub past : List Dir

-- What the file system does: the errors of its calls, where they fail, the umask, and what a write
-- that is under way, or fails, has written so far.
pub record Disk : Type 0 where
  pub stat_fault : Name → Option Text
  pub read_fault : Name → Option Text
  pub mkdir_fault : Option Text
  pub chmod_dir_fault : Option Text
  pub write_fault : Name → Option Text
  pub chmod_fault : Name → Option Text
  pub umask : Mode
  pub so_far : Name → Text

abbrev pub move : Dir → Store → Store
move d s = record { dir = d; past = s.past ++ d ∷ [] }

-- The mode of a file that is opened for writing: an old file keeps its own.
abbrev pub mode_of : Option File → Mode → Mode
mode_of none mode = mode
mode_of (some f) mode = f.mode

abbrev pub written : Disk → Name → Text → Mode → Dir → Dir
written d n contents mode dir =
    with_file n
      (some (record { contents = contents; mode = mode_of (file_of n dir) (masked mode d.umask) }))
      dir

-- `os.WriteFile`: the file is created or truncated, and then filled.
unfoldable pub write_file : Disk → Name → Text → Mode → Store → Store × Option Text
write_file d n contents mode s =
    let begun = move (written d n (d.so_far n) mode s.dir) s in
    elim (d.write_fault n) [
      | some e ↦ (begun, some e)
      | none ↦ (move (written d n contents mode begun.dir) begun, none)
    ]

abbrev pub with_mode : Mode → Option File → Option File
with_mode mode none = none
with_mode mode (some f) = some (record f { mode = mode })

-- `os.Chmod` of a file
unfoldable pub chmod_file : Disk → Name → Mode → Store → Store × Option Text
chmod_file d n mode s = elim (d.chmod_fault n) [
  | some e ↦ (s, some e)
  | none ↦ (move (with_file n (with_mode mode (file_of n s.dir)) s.dir) s, none)
]

-- `os.MkdirAll`; the directories above are there.
unfoldable pub mkdir : Disk → Mode → Store → Store × Option Text
mkdir d mode s = elim d.mkdir_fault [
  | some e ↦ (s, some e)
  | none ↦ elim s.dir.dir_mode [
    | some old ↦ (s, none)
    | none ↦ (move (record (s.dir) { dir_mode = some (masked mode d.umask) }) s, none)
  ]
]

-- `os.Chmod` of the directory
unfoldable pub chmod_dir : Disk → Mode → Store → Store × Option Text
chmod_dir d mode s = elim d.chmod_dir_fault [
  | some e ↦ (s, some e)
  | none ↦ (move (record (s.dir) { dir_mode = some mode }) s, none)
]
