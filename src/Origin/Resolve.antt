-- ===== src/Origin/Resolve.antt =====
-- internal/origin/origin_darwin.go: the search for the process that owns a socket. The C library's
-- answers (the processes, their sockets and paths) are the argument `System`.
pub mod Finding
use proxysim.Prelude.{
  ℕ, ◌+◌, ◌*◌, ◌/◌, ◌%◌, ◌<◌, ◌≡◌, ◌≢◌, Bool, true, false, not, ◌&&◌, List, [], ◌∷◌, Option, none,
  some, Text, ◌==◌, if◌then◌else◌, arith, Option-cases, Bool-cases, inl, inr, ◌⊎◌, refl, sym, subst,
  ap, ◌∙◌,
}
use proxysim.Origin.{Process, Cache, classify}

-- What libproc tells of a file descriptor of a process: whether it is a socket, whether its
-- details could be read in full, whether it is TCP, and its ports in network byte order.
pub record Descriptor : Type 0 where
  pub is_socket : Bool
  pub is_read : Bool
  pub is_tcp : Bool
  pub local_port : ℕ
  pub foreign_port : ℕ

-- `none` is a failed call.
pub record System : Type 0 where
  pub pids : Option (List ℕ)
  pub descriptors : ℕ → Option (List Descriptor)
  pub path_of : ℕ → Option Text

-- `n<<8 | n>>8` on a uint16: the two halves do not overlap, so the disjunction is a sum.
unfoldable pub ntohs : ℕ → ℕ
ntohs n = n * 256 % 65536 + n / 256

-- the body of the loop over the descriptors
unfoldable pub owns : ℕ → ℕ → Descriptor → Bool
unfolding ntohs
owns local_port foreign_port d =
    if not d.is_socket
    then false
    else if not d.is_read
    then false
    else if not d.is_tcp
    then false
    else ntohs d.local_port == local_port % 65536 && ntohs d.foreign_port == foreign_port % 65536

any_owns : ℕ → ℕ → List Descriptor → Bool
any_owns l f [] = false
any_owns l f (d ∷ ds) = if owns l f d then true else any_owns l f ds

unfoldable pub pid_owns_socket : System → ℕ → ℕ → ℕ → Bool
unfolding any_owns
pid_owns_socket sys pid l f = elim (sys.descriptors pid) [
  | none ↦ false
  | some ds ↦ any_owns l f ds
]

unfoldable pub pid_path : System → ℕ → Text
pid_path sys pid = elim (sys.path_of pid) [ none ↦ [] | some p ↦ p ]

scan : System → ℕ → ℕ → List ℕ → Option (ℕ × Text)
scan sys l f [] = none
scan sys l f (pid ∷ pids) =
    let rest = scan sys l f pids in
    if pid == 0
    then rest
    else if pid_owns_socket sys pid l f
    then some (pid, pid_path sys pid)
    else rest

-- `none` is the error that no process owns the socket, or that the processes cannot be listed.
unfoldable pub find_socket_owner : System → ℕ → ℕ → Option (ℕ × Text)
unfolding scan
find_socket_owner sys l f = elim sys.pids [ none ↦ none | some pids ↦ scan sys l f pids ]

-- `Resolve`. An endpoint is a TCP port, or `none` where the address is not TCP; `none` is an error.
unfoldable pub resolve :
    (Text → Option Text) → System → Cache → Option ℕ → Option ℕ → Option Process × Cache
resolve plutil sys cache (some lt) (some rt) = elim (find_socket_owner sys rt lt) [
  | none ↦ (none, cache)
  | some (pid, path) ↦ let (p, cache') = classify plutil cache pid path in (some p, cache')
]
resolve plutil sys cache _ _ = (none, cache)

-- `ntohs` swaps the bytes, so it undoes itself on a uint16.
pub ntohs_involutive : (n : ℕ) → n < 65536 → ntohs (ntohs n) ≡ n
unfolding ntohs
ntohs_involutive n h = omega arith

-- A readable TCP socket between two ports: its ports are stored with their two bytes swapped.
pub record Matches (local_port foreign_port : ℕ) (d : Descriptor) : Type 0 where
  pub socket : d.is_socket ≡ true
  pub read : d.is_read ≡ true
  pub tcp : d.is_tcp ≡ true
  pub here : d.local_port % 256 * 256 + d.local_port / 256 ≡ local_port % 65536
  pub there : d.foreign_port % 256 * 256 + d.foreign_port / 256 ≡ foreign_port % 65536

abbrev pub In : {A : Type 0} → A → List A → Type 0
In x [] = ⊥
In x (y ∷ ys) = (x ≡ y) ⊎ In x ys

-- a process with such a socket among its descriptors
abbrev pub HasSocket : System → ℕ → ℕ → ℕ → Type 0
HasSocket sys pid l f =
    (ds : List Descriptor) × (sys.descriptors pid ≡ some ds)
    × (d : Descriptor) × In d ds
    × Matches l f d

ntohs_lem : (n : ℕ) → ntohs n ≡ n % 256 * 256 + n / 256
unfolding ntohs
ntohs_lem n = omega arith

owns-Matches : (l f : ℕ) (d : Descriptor) → owns l f d ≡ true → Matches l f d
unfolding owns
owns-Matches l f d h = record {
  socket = ground (arith, h);
  read = ground (arith, h);
  tcp = ground (arith, h);
  here = ground (arith, h, ntohs_lem d.local_port);
  there = ground (arith, h, ntohs_lem d.foreign_port);
}

pub Matches-owns : (l f : ℕ) (d : Descriptor) → Matches l f d → owns l f d ≡ true
unfolding owns
Matches-owns l f d m = ground (
  arith,
  m.socket,
  m.read,
  m.tcp,
  m.here,
  m.there,
  ntohs_lem d.local_port,
  ntohs_lem d.foreign_port,
)

any_owns_sound :
    (l f : ℕ) (ds : List Descriptor)
    → any_owns l f ds ≡ true
    → (d : Descriptor) × In d ds × Matches l f d
unfolding any_owns
any_owns_sound l f [] h = ground (arith, h)
any_owns_sound l f (d ∷ ds) h = elim (Bool-cases (owns l f d)) [
  | inl e ↦ (d, inl refl, owns-Matches l f d e)
  | inr e ↦ let (x, place, m) = any_owns_sound l f ds (ground (arith, e, h)) in (x, inr place, m)
]

pid_owns-HasSocket :
    (sys : System) (pid l f : ℕ) → pid_owns_socket sys pid l f ≡ true → HasSocket sys pid l f
unfolding pid_owns_socket
pid_owns-HasSocket sys pid l f h = elim (Option-cases (sys.descriptors pid)) [
  | inl e ↦ absurd (ground (arith, e, h))
  | inr (ds, e) ↦
      let (d, place, m) = any_owns_sound l f ds (ground (arith, e, h)) in (ds, e, d, place, m)
]

scan_sound :
    (sys : System) (l f : ℕ) (pids : List ℕ) (pid : ℕ) (path : Text)
    → scan sys l f pids ≡ some (pid, path)
    → In pid pids × (pid ≢ 0) × (pid_owns_socket sys pid l f ≡ true) × (path ≡ pid_path sys pid)
unfolding scan
scan_sound sys l f [] pid path h = cc
scan_sound sys l f (q ∷ pids) pid path h = ground (arith, scan_sound sys l f pids pid path)

classify_keeps :
    (plutil : Text → Option Text) (cache : Cache) (pid : ℕ) (path : Text)
    → ((classify plutil cache pid path).0.pid ≡ pid)
      × ((classify plutil cache pid path).0.path ≡ path)
unfolding classify
classify_keeps plutil cache pid path = ground arith

-- A process that is resolved for a connection from port `rt` to the proxy's port `lt` is one of the
-- processes that libproc lists, not the kernel's 0; among its descriptors is a readable TCP socket
-- with local port `rt` and foreign port `lt`, read from network byte order; and its path is what
-- libproc tells of that process, or empty.
pub resolve_sound :
    (plutil : Text → Option Text) (sys : System) (cache : Cache) (lt rt : ℕ) (p : Process)
    → (resolve plutil sys cache (some lt) (some rt)).0 ≡ some p
    → (pids : List ℕ) × (sys.pids ≡ some pids)
      × In p.pid pids
      × (p.pid ≢ 0)
      × HasSocket sys p.pid rt lt
      × (p.path ≡ elim (sys.path_of p.pid) [ none ↦ [] | some path ↦ path ])
unfolding resolve find_socket_owner pid_path
resolve_sound plutil sys cache lt rt p h = elim (Option-cases sys.pids) [
  | inl e ↦ absurd (ground (arith, e))
  | inr (pids, e) ↦ elim (Option-cases (scan sys rt lt pids)) [
    | inl f ↦ absurd (ground (arith, e, f))
    | inr ((pid, path), f) ↦
        let (listed, live, owner, its_path) = scan_sound sys rt lt pids pid path f in
        let (same_pid, same_path) = classify_keeps plutil cache pid path in
        let found : (classify plutil cache pid path).0 ≡ p = ground (arith, e, f) in
        let is_pid : pid ≡ p.pid = sym same_pid ∙ ap (λ q. q.pid) found in
        (
          pids,
          e,
          subst (λ n. In n pids) is_pid listed,
          subst (λ n. n ≢ 0) is_pid live,
          subst (λ n. HasSocket sys n rt lt) is_pid (pid_owns-HasSocket sys pid rt lt owner),
          sym (ap (λ q. q.path) found) ∙ same_path ∙ its_path ∙ ap (pid_path sys) is_pid,
        )
  ]
]
