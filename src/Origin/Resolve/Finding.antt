-- ===== src/Origin/Resolve/Finding.antt =====
-- The search of internal/origin/origin_darwin.go where there is an owner.
use proxysim.Prelude.{
  ℕ, ◌≡◌, ◌≢◌, true, List, [], ◌∷◌, ◌++◌, Option, none, some, Text, arith, Option-cases, inl, inr,
  refl,
}
use proxysim.Origin.{Cache}
use proxysim.Origin.Resolve.{
  Descriptor, System, owns, any_owns, pid_owns_socket, scan, find_socket_owner, resolve,
}

any_owns_lem :
    (l f : ℕ) (before after : List Descriptor) (d : Descriptor)
    → owns l f d ≡ true
    → any_owns l f (before ++ d ∷ after) ≡ true
unfolding any_owns
any_owns_lem l f [] after d h = rw h refl
any_owns_lem l f (x ∷ before) after d h = ground (arith, any_owns_lem l f before after d h)

-- A process with a descriptor of the ports owns the socket.
pub pid_owns-descriptors :
    (sys : System) (l f pid : ℕ) (before after : List Descriptor) (d : Descriptor)
    → sys.descriptors pid ≡ some (before ++ d ∷ after)
    → owns l f d ≡ true
    → pid_owns_socket sys pid l f ≡ true
unfolding pid_owns_socket
pid_owns-descriptors sys l f pid before after d e h =
    rw (pid_owns_socket, e) (any_owns_lem l f before after d h)

scan_finds :
    (sys : System) (l f : ℕ) (before after : List ℕ) (pid : ℕ)
    → pid ≢ 0
    → pid_owns_socket sys pid l f ≡ true
    → scan sys l f (before ++ pid ∷ after) ≢ none
unfolding scan
scan_finds sys l f [] after pid live h = ground (arith, live, h)
scan_finds sys l f (q ∷ before) after pid live h =
    ground (arith, scan_finds sys l f before after pid live h)

find_finds :
    (sys : System) (l f : ℕ) (before after : List ℕ) (pid : ℕ)
    → sys.pids ≡ some (before ++ pid ∷ after)
    → pid ≢ 0
    → pid_owns_socket sys pid l f ≡ true
    → find_socket_owner sys l f ≢ none
unfolding find_socket_owner
find_finds sys l f before after pid e live h =
    let found : scan sys l f (before ++ pid ∷ after) ≢ none =
      scan_finds sys l f before after pid live h in
    simp (find_socket_owner, e) found

-- Where the listed processes have an owner of the socket, the search resolves some process.
pub resolve_finds :
    (plutil : Text → Option Text) (sys : System) (cache : Cache) (lt rt : ℕ) (before after : List ℕ)
    (pid : ℕ)
    → sys.pids ≡ some (before ++ pid ∷ after)
    → pid ≢ 0
    → pid_owns_socket sys pid rt lt ≡ true
    → (resolve plutil sys cache (some lt) (some rt)).0 ≢ none
unfolding resolve
resolve_finds plutil sys cache lt rt before after pid e live h =
    elim (Option-cases (find_socket_owner sys rt lt)) [
      | inl n ↦ absurd (find_finds sys rt lt before after pid e live h n)
      | inr ((p, path), f) ↦ ground (arith, f)
    ]
