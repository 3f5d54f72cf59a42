-- ===== src/Origin/Libproc/Complete.antt =====
-- The search of internal/origin/origin_darwin.go over what its buffers were filled with.
use proxysim.Prelude.{
  sym, subst, inl, inr, Option-cases, ℕ, ◌+◌, ◌/◌, ◌<◌, ◌≤◌, ◌≡◌, ◌≢◌, ◌∙◌, ap, refl, Bool, true,
  false, List, [], ◌∷◌, ◌++◌, map, Option, some, Text, length, take, take_whole, is_nil,
  if◌then◌else◌, ◌==◌, arith,
}
use proxysim.Origin.{Cache, Process}
use proxysim.Origin.Resolve.{
  Matches, In, HasSocket, Matches-owns, pid_owns_socket, resolve, resolve_sound,
}
use proxysim.Origin.Resolve.Finding.{pid_owns-descriptors, resolve_finds}
use proxysim.Origin.Libproc.{
  FdInfo, Libproc, Fetched, failed, panicked, fetched, fetch, list_pids, list_fds, descriptor,
  result, system,
}
use proxysim.Origin.Libproc.Buffers.{Answers, fetch_fits}
use proxysim.Origin.Libproc.Listed.{map-append, In-take, In-map}

-- What libproc promises of the calls with a buffer, for the processes and the open descriptors at
-- their time.
pub record IsDocumented (lp : Libproc) (live : List ℕ) (open_fds : ℕ → List FdInfo) : Type 0 where
  pub stride : 0 < lp.fd_stride
  pub pids : Answers 4 lp.list_pids live
  pub fds : (pid : ℕ) → Answers lp.fd_stride (lp.list_fds pid) (open_fds pid)

-- a buffer that everything fits into has everything
fetch_whole {ℓ} :
    {A : Type ℓ} (z : A) (len stride : ℕ) (call : ℕ → ℕ × List A) (before after : List A) (x : A)
    (live : List A)
    → live ≡ before ++ x ∷ after
    → 0 < stride
    → Answers stride call live
    → length live ≤ len
    → fetch z len stride call ≡ fetched (before ++ x ∷ after)
fetch_whole z len stride call before after x live e pos answers fits =
    fetch_fits z len stride call live pos answers
    ∙ rw (take_whole live len fits, e, not_nil before) refl
  where
    not_nil : (xs : List _) → is_nil (xs ++ x ∷ after) ≡ false
    not_nil [] = refl
    not_nil (y ∷ xs) = refl

guarded {ℓ} :
    {A : Type ℓ} (b : Bool) (x : Fetched A) → x ≢ panicked → (if b then failed else x) ≢ panicked
guarded true x h = ground arith
guarded false x h = h

fetch_safe {ℓ} :
    {A : Type ℓ} (z : A) (len stride : ℕ) (call : ℕ → ℕ × List A) (live : List A)
    → 0 < stride
    → Answers stride call live
    → fetch z len stride call ≢ panicked
fetch_safe z len stride call live pos answers =
    rw (fetch_fits z len stride call live pos answers)
      (guarded (is_nil (take len live)) (fetched (take len live)) (ground arith))

guarded_eq {ℓ} :
    {A : Type ℓ} (b : Bool) (x y : A) → (if b then failed else fetched x) ≡ fetched y → x ≡ y
guarded_eq true x y h = absurd (ground (arith, h))
guarded_eq false x y h = ground (arith, h)

unguarded {ℓ} :
    {A : Type ℓ} (b : Bool) (x : Fetched A) (y : A)
    → (if b then failed else x) ≡ fetched y
    → x ≡ fetched y
unguarded true x y h = absurd (ground (arith, h))
unguarded false x y h = h

module _ (lp : Libproc) (live : List ℕ) (open_fds : ℕ → List FdInfo) where
  -- No call with a buffer panics.
  pub no_panic :
      IsDocumented lp live open_fds
      → (pid : ℕ) → (list_pids lp ≢ panicked) × (list_fds lp pid ≢ panicked)
  unfolding list_pids list_fds
  no_panic h pid =
      let z : FdInfo = record { proc_fd = 0; proc_fdtype = 0 } in
      let pids : fetch 0 (lp.pids_need / 4 + 64) 4 lp.list_pids ≢ panicked =
        fetch_safe 0 (lp.pids_need / 4 + 64) 4 lp.list_pids live (omega arith) h.pids in
      let fds : fetch z (lp.fds_need pid / lp.fd_stride + 16) lp.fd_stride (lp.list_fds pid)
          ≢ panicked =
        fetch_safe z (lp.fds_need pid / lp.fd_stride + 16) lp.fd_stride (lp.list_fds pid)
          (open_fds pid) h.stride (h.fds pid) in
      (guarded (lp.pids_need == 0) _ pids, guarded (lp.fds_need pid == 0) _ fds)

  -- what is listed is open
  list_fds-In :
      (pid : ℕ) (fds : List FdInfo) (fd : FdInfo)
      → IsDocumented lp live open_fds
      → list_fds lp pid ≡ fetched fds
      → In fd fds
      → In fd (open_fds pid)
  unfolding list_fds
  list_fds-In pid fds fd h e place =
      let z : FdInfo = record { proc_fd = 0; proc_fdtype = 0 } in
      let len : ℕ = lp.fds_need pid / lp.fd_stride + 16 in
      let got : fetch z len lp.fd_stride (lp.list_fds pid) ≡ fetched fds =
        unguarded (lp.fds_need pid == 0) _ fds e in
      let some_of : take len (open_fds pid) ≡ fds =
        guarded_eq (is_nil (take len (open_fds pid))) _ fds (
          sym (fetch_fits z len lp.fd_stride (lp.list_fds pid) (open_fds pid) h.stride (h.fds pid))
          ∙ got) in
      In-take fd len (open_fds pid) (subst (In fd) (sym some_of) place)

  -- what the search finds is an open descriptor
  HasSocket-open :
      (pid l f : ℕ)
      → IsDocumented lp live open_fds
      → HasSocket (system lp) pid l f
      → (fd : FdInfo) × In fd (open_fds pid) × Matches l f (descriptor lp pid fd)
  unfolding system
  HasSocket-open pid l f h (ds, e, d, place, m) = of_list (list_fds lp pid) refl
    where
      of_list :
          (o : Fetched (List FdInfo))
          → list_fds lp pid ≡ o
          → (fd : FdInfo) × In fd (open_fds pid) × Matches l f (descriptor lp pid fd)
      of_list failed q = absurd (ground (arith, e, q))
      of_list panicked q = absurd (ground (arith, e, q))
      of_list (fetched fds) q =
          let all : map (descriptor lp pid) fds ≡ ds = ground (arith, e, q) in
          let (fd, at, is) = In-map (descriptor lp pid) d fds (subst (In d) (sym all) place) in
          (fd, list_fds-In pid fds fd h q at, subst (Matches l f) is m)

  -- such a process owns the socket, for the search
  is_owner :
      (l f pid : ℕ) (fd : FdInfo) (fds_before fds_after : List FdInfo)
      → IsDocumented lp live open_fds
      → 0 < lp.fds_need pid
      → length (open_fds pid) ≤ lp.fds_need pid / lp.fd_stride + 16
      → open_fds pid ≡ fds_before ++ fd ∷ fds_after
      → Matches l f (descriptor lp pid fd)
      → pid_owns_socket (system lp) pid l f ≡ true
  unfolding system
  is_owner l f pid fd fds_before fds_after h fn fl fs own =
      let z : FdInfo = record { proc_fd = 0; proc_fdtype = 0 } in
      let fds : fetch z (lp.fds_need pid / lp.fd_stride + 16) lp.fd_stride (lp.list_fds pid)
          ≡ fetched (fds_before ++ fd ∷ fds_after) =
        fetch_whole z (lp.fds_need pid / lp.fd_stride + 16) lp.fd_stride (lp.list_fds pid)
          fds_before fds_after fd (open_fds pid) fs h.stride (h.fds pid) fl in
      let fd_some : lp.fds_need pid == 0 ≡ false = ground (arith, fn) in
      let opened : list_fds lp pid ≡ fetched (fds_before ++ fd ∷ fds_after) =
        rw (list_fds, fd_some, fds) refl in
      let described : (system lp).descriptors pid
          ≡ some (
              map (descriptor lp pid) fds_before
              ++ descriptor lp pid fd ∷ map (descriptor lp pid) fds_after) =
        rw (system, opened)
          (ap some (map-append (descriptor lp pid) fds_before (fd ∷ fds_after))) in
      pid_owns-descriptors (system lp) l f pid (map (descriptor lp pid) fds_before)
        (map (descriptor lp pid) fds_after) (descriptor lp pid fd) described
        (Matches-owns l f (descriptor lp pid fd) own)

  -- A live process with an open, readable TCP socket with local port `rt` and foreign port `lt` is
  -- what Resolve gives for a connection from `rt` to the proxy's `lt`, if no other process has such a
  -- socket, and if since the sizing calls no more than 64 processes began and no more than 16 of its
  -- descriptors were opened.
  pub resolve_complete :
      (plutil : Text → Option Text) (cache : Cache) (lt rt pid : ℕ) (before after : List ℕ)
      (fd : FdInfo) (fds_before fds_after : List FdInfo)
      → IsDocumented lp live open_fds
      → 0 < lp.pids_need
      → 0 < lp.fds_need pid
      → length live ≤ lp.pids_need / 4 + 64
      → length (open_fds pid) ≤ lp.fds_need pid / lp.fd_stride + 16
      → live ≡ before ++ pid ∷ after
      → open_fds pid ≡ fds_before ++ fd ∷ fds_after
      → pid ≢ 0
      → Matches rt lt (descriptor lp pid fd)
      → ((q : ℕ) (other : FdInfo)
          → In other (open_fds q)
          → Matches rt lt (descriptor lp q other)
          → q ≡ pid)
      → (p : Process) × ((resolve plutil (system lp) cache (some lt) (some rt)).0 ≡ some p)
        × (p.pid ≡ pid)
  unfolding system list_pids result
  resolve_complete plutil cache lt rt pid before after fd fds_before fds_after h pn fn pl fl ps fs
        live_pid own only =
      let pids : fetch 0 (lp.pids_need / 4 + 64) 4 lp.list_pids ≡ fetched (before ++ pid ∷ after) =
        fetch_whole 0 (lp.pids_need / 4 + 64) 4 lp.list_pids before after pid live ps (omega arith)
          h.pids pl in
      let pid_some : lp.pids_need == 0 ≡ false = ground (arith, pn) in
      let listed : (system lp).pids ≡ some (before ++ pid ∷ after) = rw (pid_some, pids) refl in
      let owner = is_owner rt lt pid fd fds_before fds_after h fn fl fs own in
      elim (Option-cases (resolve plutil (system lp) cache (some lt) (some rt)).0) [
        | inl e ↦
            absurd (
              resolve_finds plutil (system lp) cache lt rt before after pid listed live_pid owner e)
        | inr (p, e) ↦
            let (_, _, _, _, has, _) = resolve_sound plutil (system lp) cache lt rt p e in
            let (other, is_open, matches) = HasSocket-open p.pid rt lt h has in
            (p, e, only p.pid other is_open matches)
      ]
