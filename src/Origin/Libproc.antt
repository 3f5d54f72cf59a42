-- ===== src/Origin/Libproc.antt =====
-- internal/origin/origin_darwin.go: the buffers that it hands to libproc, which is the argument
-- `Libproc`. Numbers in C are ints; an answer that is not positive is written 0.
pub mod Buffers
pub mod Complete
pub mod Listed
use proxysim.Prelude.{
  ℕ, zero, suc, ◌+◌, ◌-◌, ◌*◌, ◌/◌, ◌≡◌, Bool, true, false, not, List, [], ◌∷◌, ◌++◌, map, Option,
  none, some, Text, length, take, leb, ltb, ◌==◌, if◌then◌else◌,
}
use proxysim.Origin.Resolve.{Descriptor, System}

-- `proc_fdinfo`
pub record FdInfo : Type 0 where
  pub proc_fd : ℕ
  pub proc_fdtype : ℕ

-- What the code reads of a `socket_fdinfo`, its ports in network byte order.
pub record SocketInfo : Type 0 where
  pub soi_kind : ℕ
  pub insi_lport : ℕ
  pub insi_fport : ℕ

-- The calls of libproc, and the constants of its headers. A sizing call answers with a number of
-- bytes; a call with a buffer is given its size in bytes, and answers with the number of bytes that it
-- has filled and with what it has put at the buffer's start.
pub record Libproc : Type 0 where
  pub pids_need : ℕ
  pub list_pids : ℕ → ℕ × List ℕ
  pub fds_need : ℕ → ℕ
  pub list_fds : ℕ → ℕ → ℕ × List FdInfo
  pub fd_info : ℕ → ℕ → ℕ × SocketInfo
  pub pid_path : ℕ → ℕ → ℕ × Text
  pub fd_stride : ℕ
  pub info_size : ℕ
  pub fdtype_socket : ℕ
  pub sockinfo_tcp : ℕ
  pub path_maxsize : ℕ

-- What comes of a call with a buffer; a slice behind the buffer's end panics.
pub data Fetched {ℓ} (A : Type ℓ) : Type ℓ where
  failed : Fetched A
  panicked : Fetched A
  fetched : A → Fetched A

zeros {ℓ} : {A : Type ℓ} → A → ℕ → List A
zeros zero_element zero = []
zeros zero_element (suc n) = zero_element ∷ zeros zero_element n

-- A buffer of `len` zeros with some elements put at its start.
filled {ℓ} : {A : Type ℓ} → A → ℕ → List A → List A
unfolding zeros
filled zero_element len xs = take len xs ++ zeros zero_element (len - length xs)

-- `buf[:n]`
slice {ℓ} : {A : Type ℓ} → ℕ → List A → Fetched (List A)
slice n buf = if leb n (length buf) then fetched (take n buf) else panicked

-- a buffer of `len` elements of `stride` bytes, a call that fills it, and the slice of what it filled
unfoldable pub fetch {ℓ} : {A : Type ℓ} → A → ℕ → ℕ → (ℕ → ℕ × List A) → Fetched (List A)
unfolding filled slice
fetch zero_element len stride call =
    let (got, xs) = call (len * stride) in
    if got == 0 then failed else slice (got / stride) (filled zero_element len xs)

-- `listPIDs`; a C int has four bytes.
unfoldable pub list_pids : Libproc → Fetched (List ℕ)
unfolding fetch
list_pids lp = if lp.pids_need == 0 then failed else fetch 0 (lp.pids_need / 4 + 64) 4 lp.list_pids

-- the descriptors of `pidOwnsSocket`
unfoldable pub list_fds : Libproc → ℕ → Fetched (List FdInfo)
unfolding fetch
list_fds lp pid =
    let none_yet : FdInfo = record { proc_fd = 0; proc_fdtype = 0 } in
    let need = lp.fds_need pid in
    if need == 0
    then failed
    else fetch none_yet (need / lp.fd_stride + 16) lp.fd_stride (lp.list_fds pid)

-- what the loop of `pidOwnsSocket` asks of a descriptor
unfoldable pub descriptor : Libproc → ℕ → FdInfo → Descriptor
descriptor lp pid fd =
    let (n, si) = lp.fd_info pid fd.proc_fd in
    record {
      is_socket = fd.proc_fdtype == lp.fdtype_socket;
      is_read = not (ltb n lp.info_size);
      is_tcp = si.soi_kind == lp.sockinfo_tcp;
      local_port = si.insi_lport;
      foreign_port = si.insi_fport;
    }

-- `pidPath`, `failed` where it is ""
unfoldable pub pid_path : Libproc → ℕ → Fetched Text
unfolding fetch
pid_path lp pid = fetch 0 lp.path_maxsize 1 (lp.pid_path pid)

result {ℓ} : {A : Type ℓ} → Fetched A → Option A
result (fetched x) = some x
result _ = none

-- What the search for a socket's owner is told.
unfoldable pub system : Libproc → System
unfolding list_pids list_fds descriptor pid_path result
system lp = record {
  pids = result (list_pids lp);
  descriptors =
      λ pid. elim (list_fds lp pid) [ fetched fds ↦ some (map (descriptor lp pid) fds) | _ ↦ none ];
  path_of = λ pid. result (pid_path lp pid);
}
