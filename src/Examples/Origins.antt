-- ===== src/Examples/Origins.antt =====
-- internal/origin at concrete filters, paths and sockets.
use proxysim.Prelude.{
  ℕ, ◌==◌, ◌*◌, ◌/◌, ◌<◌, ap, length, take, ◌≡◌, ◌≢◌, ◌↔◌, ◌⊎◌, refl, Bool, true, false, not, ◌&&◌,
  ◌||◌, List, [], ◌∷◌, Option, none, some, Text, codes, member, is_nil, if◌then◌else◌, arith,
}
use proxysim.Strings.{nonblank, trim_space}
use proxysim.Origin.{
  Process, Filter, Cache, build_filter, active, matches, read_bundle_id, bundle_id, classify,
}
use proxysim.Origin.Classify.{InDevice, InRuntime, Agrees, classify-simulator}
use native.Mathlib.Nat.{mul-div_cancel}
use proxysim.Origin.Libproc.{FdInfo, Libproc, descriptor, system}
use proxysim.Origin.Libproc.Complete.{IsDocumented, resolve_complete}
use proxysim.Origin.Resolve.{Descriptor, System, Matches, In, HasSocket, resolve, resolve_sound}

abbrev safari : Process
safari = record {
  pid = 7;
  path = codes "/x.simruntime/MobileSafari";
  simulator = true;
  device_udid = [];
  bundle_id = [];
}

abbrev app_names : List Text
app_names = codes " com.example.a" ∷ codes " " ∷ []

abbrev sim_only : Filter
sim_only = record { only_sim = true; apps = [] }

app_names_kept : nonblank app_names ≡ codes "com.example.a" ∷ []
unfolding nonblank trim_space
app_names_kept = refl

app_names_named : nonblank app_names ≢ []
app_names_named e = ground (arith, app_names_kept, e)

abbrev no_plutil : Text → Option Text
no_plutil d = none

abbrev safari_path : Text
safari_path = codes "/x.simruntime/MobileSafari"

classify-simulator_example :
    ((classify no_plutil [] 7 safari_path).0.simulator ≡ true
      → InDevice safari_path ⊎ InRuntime safari_path)
    × (InDevice safari_path ⊎ InRuntime safari_path
        → (classify no_plutil [] 7 safari_path).0.simulator ≡ true)
classify-simulator_example = classify-simulator no_plutil [] 7 safari_path

abbrev maps_app : Text
maps_app = codes "/Maps.app"

empty-Agrees : Agrees no_plutil []
unfolding proxysim.Prelude.Assoc.lookup
empty-Agrees d v h = ground arith

-- port 8888 is 0x22b8, and 50000 is 0xc350
abbrev one_socket : System
one_socket = record {
  pids = some (0 ∷ 41 ∷ []);
  descriptors = λ pid. some (
      (record {
        is_socket = true;
        is_read = true;
        is_tcp = true;
        local_port = 0x50c3;
        foreign_port = 0xb822;
      })
      ∷ []);
  path_of = λ pid. some (codes "/bin/curl");
}

abbrev curl : Process
curl = record {
  pid = 41;
  path = codes "/bin/curl";
  simulator = false;
  device_udid = [];
  bundle_id = [];
}

curl_resolved : (resolve no_plutil one_socket [] (some 8888) (some 50000)).0 ≡ some curl
unfolding resolve proxysim.Origin.Resolve.find_socket_owner proxysim.Origin.Resolve.pid_owns_socket
    proxysim.Origin.Resolve.pid_path proxysim.Origin.Resolve.owns classify proxysim.Strings.contains
    proxysim.Strings.cut proxysim.Strings.strip_prefix
curl_resolved = refl

resolve_sound_example :
    (listed : List ℕ) × (one_socket.pids ≡ some listed)
    × In curl.pid listed
    × (curl.pid ≢ 0)
    × HasSocket one_socket curl.pid 50000 8888
    × (curl.path ≡ elim (one_socket.path_of curl.pid) [ none ↦ [] | some path ↦ path ])
resolve_sound_example = resolve_sound no_plutil one_socket [] 8888 50000 curl curl_resolved

abbrev pids : List ℕ
pids = 0 ∷ 41 ∷ []

abbrev socket_fd : FdInfo
socket_fd = record { proc_fd = 3; proc_fdtype = 2 }

abbrev fds : List FdInfo
fds = (record { proc_fd = 0; proc_fdtype = 1 }) ∷ socket_fd ∷ []

-- Both sizing calls are a byte short of one element.
abbrev curl_only : Libproc
curl_only = record {
  pids_need = 3;
  list_pids = λ n. (length (take (n / 4) pids) * 4, take (n / 4) pids);
  fds_need = λ pid. 7;
  list_fds = λ pid n. (length (take (n / 8) fds) * 8, take (n / 8) fds);
  fd_info = λ pid fd. (
    if pid == 41 then 792 else 0,
    record { soi_kind = 2; insi_lport = 0x50c3; insi_fport = 0xb822 },
  );
  pid_path = λ pid n. (9, codes "/bin/curl");
  fd_stride = 8;
  info_size = 792;
  fdtype_socket = 2;
  sockinfo_tcp = 2;
  path_maxsize = 4096;
}

curl_only-IsDocumented : IsDocumented curl_only pids (λ pid. fds)
curl_only-IsDocumented = record {
  stride = omega arith;
  pids = λ n. ap (λ k. (length (take k pids) * 4, take k pids)) (mul-div_cancel n (omega arith));
  fds = λ pid n. ap (λ k. (length (take k fds) * 8, take k fds)) (mul-div_cancel n (omega arith));
}

curl-Matches : Matches 50000 8888 (descriptor curl_only 41 socket_fd)
unfolding descriptor
curl-Matches = record { socket = refl; read = refl; tcp = refl; here = refl; there = refl }

-- libproc tells of no other process's sockets
no_other :
    (q : ℕ) (other : FdInfo)
    → In other fds
    → Matches 50000 8888 (descriptor curl_only q other)
    → q ≡ 41
unfolding descriptor
no_other q other place m = ground (arith, m.read)

resolve_complete_example :
    (p : Process) × ((resolve no_plutil (system curl_only) [] (some 8888) (some 50000)).0 ≡ some p)
    × (p.pid ≡ 41)
resolve_complete_example =
    resolve_complete curl_only pids (λ pid. fds) no_plutil [] 8888 50000 41 (0 ∷ []) [] socket_fd
      ((record { proc_fd = 0; proc_fdtype = 1 }) ∷ []) [] curl_only-IsDocumented (omega arith)
      (omega arith) (omega arith) (omega arith) refl refl (λ e. ground (arith, e)) curl-Matches
      no_other
