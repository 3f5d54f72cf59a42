-- ===== src/Examples/Serving.antt =====
-- main.go on a machine with one service, whose proxies are off.
use proxysim.Prelude.{
  ℕ, ◌≡◌, refl, Bool, true, false, [], ◌∷◌, ◌++◌, none, some, Text, codes, text_eq, if◌then◌else◌,
  arith,
}
use proxysim.Strings.{trim_space, cut, split_on, strip_prefix, has_prefix, to_lower}
use proxysim.Strings.Signed.{pos, atoi}
use proxysim.Strings.Decimal.{parse_uint}
use proxysim.Proxy.Server.{World}
use proxysim.Proxy.Connect.{serve_http, handle_connect, tunnel}
use proxysim.Ca.Certificate.{got}
use proxysim.Sim.{present, parsed}
use proxysim.Sysproxy.{Runner, Codec, Mac, Config as Snapshot, restore_to, networksetup, state_args}
use proxysim.Sysproxy.Parse.{parse_default_interface, service_for_interface, parse_proxy_setting}
use proxysim.Sysproxy.Restore.{Kind, name, Documented, Permits}
use proxysim.Sysproxy.Takeover.{apply}
use proxysim.Sysproxy.Recovery.{sound}
use proxysim.Main.{
  Config, Outside, Host, signalled, setup_system_proxy, controller, server, run as run_main,
}
use proxysim.Main.Exit.{Left, run-Left}
use proxysim.Main.Private.{system_proxy_private}
use proxysim.Main.Loopback.{Local, run-Local}
use proxysim.Examples.Data.{
  same_addr, host_resolver, pinned_peer, answering, connect_request, empty_world,
}
use proxysim.Examples.Authorities.{crypto, disk, entropy, empty}
use proxysim.Examples.Takeovers.{Machine, view, run, set_view, set_other, state_view, state_other}

-- Takeovers' settings commands, and the reports.
abbrev pub reporting : Runner Machine
reporting name (cmd ∷ []) s = (s, codes "(1) Wi-Fi\n(Hardware Port: Wi-Fi, Device: en0)\n", none)
reporting name (cmd ∷ service ∷ []) s = (s, codes "Enabled: No\nServer: corp\nPort: 3128\n", none)
reporting name (cmd ∷ service ∷ host ∷ port ∷ []) s = run name (cmd ∷ service ∷ host ∷ port ∷ []) s
reporting name (cmd ∷ service ∷ state ∷ []) s =
    if text_eq name (codes "route")
    then (s, codes "  interface: en0\n", none)
    else run name (cmd ∷ service ∷ state ∷ []) s
reporting name _ s = (s, [], none)

reporting_state :
    (service : Text) (k : Kind) (enabled : Bool) (s : Machine)
    → reporting networksetup (state_args service (name k) enabled) s
      ≡ run networksetup (state_args service (name k) enabled) s
unfolding text_eq
reporting_state service k enabled s = refl

documented : Documented reporting view
unfolding text_eq
documented = record {
  set_view = λ service k host port s e. set_view service k host port s;
  set_other = λ service k host port s e. set_other service k host port s;
  state_view = λ service k enabled s e. state_view service k enabled s;
  state_other = λ service k enabled s e. state_other service k enabled s;
}

permits : Permits reporting
unfolding text_eq
permits = record {
  sets = λ service kind host port s. ground arith;
  states = λ service kind enabled s. ground arith;
}

abbrev pub corporate : Snapshot
corporate = record {
  service = codes "Wi-Fi";
  web = record { enabled = false; host = codes "corp"; port = pos 3128 };
  secure = record { enabled = false; host = codes "corp"; port = pos 3128 };
}

abbrev json : Codec
json = record { marshal = λ c. some (codes "{}"); unmarshal = λ t. some corporate }

abbrev pub outside : Outside ℕ ℕ ℕ Machine Unit
outside = record {
  user_home = got (codes "/Users/me");
  join_path = λ dir rest. dir ++ rest;
  listen = λ address. none;
  crypto = crypto;
  disk = disk;
  entropy = entropy;
  sim_run = λ name args temps s. (s, [], none);
  sim_read = λ out. parsed [];
  cert_stat = present;
  sys_run = reporting;
  supported = true;
  json = json;
  snapshot_disk = sound;
  meanwhile = λ s. s;
  ending = signalled none;
}

abbrev flags : Config
flags = record {
  port = pos 8888;
  ca_dir = codes "~/.proxysim";
  verbose = false;
  exclude = codes "bank.example, ";
  trust_set = [];
  device = [];
  ui = true;
  ui_port = pos 8889;
  ui_history = pos 1000;
  only_sim = false;
  apps = [];
  system_proxy = true;
  no_trust = false;
}

abbrev off : Machine
off = (
  record { enabled = false; host = codes "corp"; port = codes "3128" },
  record { enabled = false; host = codes "corp"; port = codes "3128" },
)

abbrev machine : Host Machine Unit
machine = record {
  mac = record { sys = off; file = none; past = [] };
  store = empty;
  bench = record { sys = tt; temps = []; ran = [] };
  bound = [];
}

abbrev taken : Mac Machine
taken = (setup_system_proxy outside (pos 8888) machine.mac).0

set_up :
    setup_system_proxy outside (pos 8888) machine.mac
    ≡ (taken, record { service = codes "Wi-Fi"; restored = false }, restore_to corporate, none)
unfolding setup_system_proxy text_eq parse_default_interface service_for_interface
    parse_proxy_setting cut split_on trim_space atoi parse_uint apply strip_prefix has_prefix
    to_lower
set_up = refl

run-Left_example :
    Left outside view documented permits corporate machine.mac taken
      (run_main outside flags machine)
run-Left_example =
    run-Left outside view documented permits flags machine taken
      (record { service = codes "Wi-Fi"; restored = false }) corporate refl refl set_up

run-Local_example : Local (run_main outside flags machine).0.bound
run-Local_example = run-Local outside flags machine tt

abbrev seeded : World
seeded = record empty_world { controller = controller flags }

system_proxy_private_example :
    let s = server host_resolver flags in
    ((serve_http same_addr s pinned_peer answering connect_request seeded).0.emitted
      ≡ seeded.emitted)
    × ((serve_http same_addr s pinned_peer answering connect_request seeded).0.learned
        ≡ seeded.learned)
    × (handle_connect same_addr s pinned_peer connect_request seeded
        ≡ tunnel pinned_peer connect_request.host [] false seeded)
system_proxy_private_example =
    system_proxy_private same_addr host_resolver flags pinned_peer answering connect_request seeded
      refl refl refl
