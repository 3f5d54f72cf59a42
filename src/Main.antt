-- ===== src/Main.antt =====
-- main.go: the resolved flags, and how run wires the parts together, up to its exit. The network,
-- the home directory and the signals are arguments.
pub mod Exit
pub mod Private
pub mod Loopback
pub mod Overwritten
pub mod Flags
use proxysim.Prelude.{
  Bool, true, false, not, ◌||◌, List, [], ◌∷◌, ◌++◌, Option, none, some, Text, codes, is_nil,
  text_eq, if◌then◌else◌,
}
use proxysim.Strings.{has_prefix, strip_prefix, split_on, nonblank}
use proxysim.Strings.Signed.{ℤ, itoa}
use proxysim.Origin.{Process, Filter, Controller, build_filter, active, new_controller, current}
use proxysim.Proxy.Server.{
  Server, World, ServerOption, with_excluded_hosts, with_origin_filter, with_origin_filter_func,
  Resolver, new as new_server,
}
use proxysim.Ca.Files.{Store, Disk}
use proxysim.Ca.Certificate.{Outcome, got, error, Crypto}
use proxysim.Ca.Load.{Entropy, Authority, Result, load, ok, failed, Error as LoadError}
use proxysim.Sim.{
  Bench, Stat, Runner as SimRunner, Parsed, RawDevice, install_root_cert, Error as SimError,
  Result as SimResult, ok as done, failed as refused,
}
use proxysim.Sysproxy.{
  Runner, Codec, Mac, Manager, Restorer, Error as TakeoverError, Disk as SnapshotDisk,
}
use proxysim.Sysproxy.Takeover.{new_manager, loopback, apply, recover, restore}

pub record Config : Type 0 where
  pub port : ℤ
  pub ca_dir : Text
  pub verbose : Bool
  pub exclude : Text
  pub trust_set : Text
  pub device : Text
  pub ui : Bool
  pub ui_port : ℤ
  pub ui_history : ℤ
  pub only_sim : Bool
  pub apps : List Text
  pub system_proxy : Bool
  pub no_trust : Bool

unfoldable pub split_suffixes : Text → List Text
unfolding split_on nonblank
split_suffixes csv = nonblank (split_on b',' csv)

-- `strings.TrimPrefix(s, prefix)`
abbrev pub trim_prefix : Text → Text → Text
trim_prefix s p = elim (strip_prefix p s) [ some rest ↦ rest | none ↦ s ]

-- `os.UserHomeDir` and `filepath.Join` are the first arguments.
unfoldable pub expand_path : Outcome Text → (Text → Text → Text) → Text → Outcome Text
unfolding has_prefix text_eq
expand_path home join_path path =
    if text_eq path (codes "~") || has_prefix path (codes "~/")
    then elim home [
      | error e ↦ error (codes "resolving home directory: " ++ e)
      | got dir ↦ got (join_path dir (trim_prefix path (codes "~")))
    ]
    else got path

pub data Error : Type 0 where
  home : Text → Error
  loading : LoadError → Error
  trusting : SimError → Error
  listening ui_listening : Text → Text → Error
  serving serving_ui shutting_down : Text → Error

-- What ends the service: a server's failure, or a signal with what the shutdown then gives.
pub data Ending : Type 0 where
  proxy_failed ui_failed : Text → Ending
  signalled : Option Text → Ending

abbrev pub result_of : Ending → Option Error
result_of (proxy_failed e) = some (serving e)
result_of (ui_failed e) = some (serving_ui e)
result_of (signalled none) = none
result_of (signalled (some e)) = some (shutting_down e)

-- The machine that the process acts on, with the addresses it listens on.
pub record Host (Sys Sims : Type 0) : Type 0 where
  pub mac : Mac Sys
  pub store : Store
  pub bench : Bench Sims
  pub bound : List Text

-- -system-proxy implies -only-sim
abbrev pub only_sim_of : Config → Bool
only_sim_of cfg = cfg.only_sim || cfg.system_proxy

unfoldable pub seed : Config → Filter
seed cfg = build_filter (only_sim_of cfg) cfg.apps

unfoldable pub controller : Config → Controller
unfolding seed
controller cfg = if cfg.ui then new_controller (seed cfg) else record { p = none }

unfoldable pub options : Resolver → Config → List ServerOption
unfolding seed split_suffixes
options resolve cfg =
    let suffixes = split_suffixes cfg.exclude in
    (if is_nil suffixes then [] else with_excluded_hosts suffixes ∷ [])
    ++ (if cfg.ui
        then with_origin_filter_func (some resolve) (some current) ∷ []
        else if active (seed cfg)
        then with_origin_filter (some resolve) (seed cfg) ∷ []
        else [])

-- the handler
unfoldable pub server : Resolver → Config → Server
unfolding options
server resolve cfg = new_server true (options resolve cfg)

-- What run meets outside: os, net, the crypto packages, the commands, what the system does while the
-- proxy serves, and how the service ends.
pub record Outside (Key Cert LeafKey Sys Sims : Type 0) : Type 0 where
  pub user_home : Outcome Text
  pub join_path : Text → Text → Text
  pub listen : Text → Option Text
  pub crypto : Crypto Key Cert
  pub disk : Disk
  pub entropy : Entropy Key LeafKey
  pub sim_run : SimRunner Sims
  pub sim_read : Text → Parsed (List (Text × List RawDevice))
  pub cert_stat : Stat
  pub sys_run : Runner Sys
  pub supported : Bool
  pub json : Codec
  pub snapshot_disk : SnapshotDisk
  pub meanwhile : Sys → Sys
  pub ending : Ending

-- `net.JoinHostPort("127.0.0.1", port)`
abbrev pub address : ℤ → Text
address port = loopback ++ codes ":" ++ itoa port

abbrev pub Setup : Type 0 → Type 0
Setup Sys = Mac Sys × Manager × Restorer × Option TakeoverError

abbrev pub Exit : Type 0 → Type 0 → Type 0
Exit Sys Sims = Host Sys Sims × Option Error

module _ {Key Cert LeafKey Sys Sims : Type 0} (o : Outside Key Cert LeafKey Sys Sims) where
  unfoldable pub auto_trust : Text → Config → Host Sys Sims → Host Sys Sims
  auto_trust cert_path cfg h =
      let (bench, _) =
        install_root_cert o.sim_run o.sim_read o.cert_stat cert_path cfg.trust_set cfg.device
          h.bench in
      record h { bench = bench }

  unfoldable pub result_of_trust : SimResult Unit → Option Error
  result_of_trust (done u) = none
  result_of_trust (refused e) = some (trusting e)

  -- -trust: the certificate is installed, and nothing is served.
  unfoldable pub trust_ca : Config → Host Sys Sims → Exit Sys Sims
  unfolding expand_path result_of_trust
  trust_ca cfg h = elim (expand_path o.user_home o.join_path cfg.ca_dir) [
    | error e ↦ (h, some (home e))
    | got dir ↦
        let (bench, r) =
          install_root_cert o.sim_run o.sim_read o.cert_stat (o.join_path dir (codes "ca.crt"))
            cfg.trust_set cfg.device h.bench in
        (record h { bench = bench }, result_of_trust r)
  ]

  -- A failed recovery is reported only.
  unfoldable pub setup_system_proxy : ℤ → Mac Sys → Setup Sys
  setup_system_proxy port mac =
      let (recovered, _) = recover o.sys_run o.supported o.json o.snapshot_disk mac in
      apply o.sys_run o.supported o.json o.snapshot_disk port new_manager recovered

  -- the service until it ends
  unfoldable pub wait : Host Sys Sims → Exit Sys Sims
  wait h = (record h { mac = record (h.mac) { sys = o.meanwhile h.mac.sys } }, result_of o.ending)

  -- run behind the takeover
  unfoldable pub serve : Config → Host Sys Sims → Exit Sys Sims
  unfolding wait
  serve cfg h = if not cfg.ui then wait h else elim (o.listen (address cfg.ui_port)) [
    | some e ↦ (h, some (ui_listening (address cfg.ui_port) e))
    | none ↦ wait (record h { bound = h.bound ++ address cfg.ui_port ∷ [] })
  ]

  -- The deferred restore of a takeover that succeeded, behind the rest of run.
  unfoldable pub deferred :
      (Host Sys Sims → Exit Sys Sims) → Host Sys Sims → Setup Sys → Exit Sys Sims
  deferred rest h (mac, m, restorer, some e) = rest (record h { mac = mac })
  deferred rest h (mac, m, restorer, none) =
      let (h', exit) = rest (record h { mac = mac }) in
      let (mac', _, _) = restore o.sys_run o.snapshot_disk restorer m h'.mac in
      (record h' { mac = mac' }, exit)

  -- run behind the proxy's listener
  unfoldable pub take_over : Config → Host Sys Sims → Exit Sys Sims
  unfolding deferred serve setup_system_proxy
  take_over cfg h =
      if cfg.system_proxy
      then deferred (serve cfg) h (setup_system_proxy cfg.port h.mac)
      else serve cfg h

  unfoldable pub listen_and_serve : Config → Host Sys Sims → Exit Sys Sims
  unfolding take_over
  listen_and_serve cfg h = elim (o.listen (address cfg.port)) [
    | some e ↦ (h, some (listening (address cfg.port) e))
    | none ↦ take_over cfg (record h { bound = h.bound ++ address cfg.port ∷ [] })
  ]

  -- run behind ca.Load
  unfoldable pub behind_load :
      Text → Config → Host Sys Sims → Result (Authority Key Cert LeafKey) → Exit Sys Sims
  unfolding listen_and_serve auto_trust
  behind_load dir cfg h (failed e) = (h, some (loading e))
  behind_load dir cfg h (ok authority) =
      listen_and_serve cfg
        (if cfg.no_trust then h else auto_trust (o.join_path dir (codes "ca.crt")) cfg h)

  unfoldable pub run : Config → Host Sys Sims → Exit Sys Sims
  unfolding behind_load expand_path
  run cfg h = elim (expand_path o.user_home o.join_path cfg.ca_dir) [
    | error e ↦ (h, some (home e))
    | got dir ↦
        let (store, r) = load o.crypto o.disk o.entropy h.store in
        behind_load dir cfg (record h { store = store }) r
  ]

  -- main, with whether -trust is given
  unfoldable pub start : Bool → Config → Host Sys Sims → Exit Sys Sims
  unfolding trust_ca run
  start trust cfg h = if trust then trust_ca cfg h else run cfg h
