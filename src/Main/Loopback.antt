-- ===== src/Main/Loopback.antt =====
-- The addresses that run listens on.
use proxysim.Prelude.{
  ◌≡◌, refl, inl, inr, Bool, true, List, [], ◌∷◌, ◌++◌, none, some, Text, codes, All, All-append,
  Bool-cases, Option-cases,
}
use proxysim.Strings.{has_prefix, strip_prefix}
use proxysim.Strings.Signed.{ℤ}
use proxysim.Ca.Load.{Result, Authority, load, ok, failed}
use proxysim.Main
use proxysim.Main.{
  Config, Outside, Host, Exit, Setup, auto_trust, setup_system_proxy, wait, serve, deferred,
  listen_and_serve, behind_load, run, trust_ca, start, address, expand_path,
}
use proxysim.Main.Exit.{Outcome-cases}

-- 127.0.0.1 and a port
abbrev pub is_loopback : Text → Bool
is_loopback addr = has_prefix addr (codes "127.0.0.1:")

abbrev pub Local : List Text → Type 0
Local addrs = All (λ a. is_loopback a ≡ true) addrs

address_loopback : (port : ℤ) → is_loopback (address port) ≡ true
unfolding has_prefix strip_prefix
address_loopback port = refl

module _ {Key Cert LeafKey Sys Sims : Type 0} (o : Outside Key Cert LeafKey Sys Sims) where
  bind-Local : (port : ℤ) (addrs : List Text) → Local addrs → Local (addrs ++ address port ∷ [])
  bind-Local port addrs h =
      All-append (λ a. is_loopback a ≡ true) addrs (address port ∷ []) h (address_loopback port, tt)

  serve-Local : (cfg : Config) (h : Host Sys Sims) → Local h.bound → Local (serve o cfg h).0.bound
  unfolding serve wait
  serve-Local cfg h l = elim (Bool-cases cfg.ui) [
    | inr e ↦ rw (e, serve) l
    | inl e ↦ elim (Option-cases (o.listen (address cfg.ui_port))) [
      | inl n ↦ rw (e, n, serve) (bind-Local cfg.ui_port h.bound l)
      | inr (msg, n) ↦ rw (e, n, serve) l
    ]
  ]

  deferred-Local :
      (cfg : Config) (h : Host Sys Sims) (s : Setup Sys)
      → Local h.bound
      → Local (deferred o (serve o cfg) h s).0.bound
  unfolding deferred
  deferred-Local cfg h (mac, m, r, none) l = serve-Local cfg (record h { mac = mac }) l
  deferred-Local cfg h (mac, m, r, some e) l = serve-Local cfg (record h { mac = mac }) l

  take_over-Local :
      (cfg : Config) (h : Host Sys Sims) → Local h.bound → Local (Main.take_over o cfg h).0.bound
  unfolding Main.take_over
  take_over-Local cfg h l = elim (Bool-cases cfg.system_proxy) [
    | inl e ↦ rw (e, Main.take_over) (deferred-Local cfg h (setup_system_proxy o cfg.port h.mac) l)
    | inr e ↦ rw (e, Main.take_over) (serve-Local cfg h l)
  ]

  listen-Local :
      (cfg : Config) (h : Host Sys Sims) → Local h.bound → Local (listen_and_serve o cfg h).0.bound
  unfolding listen_and_serve
  listen-Local cfg h l = elim (Option-cases (o.listen (address cfg.port))) [
    | inl n ↦
        rw (n, listen_and_serve)
          (take_over-Local cfg (record h { bound = h.bound ++ address cfg.port ∷ [] })
            (bind-Local cfg.port h.bound l))
    | inr (msg, n) ↦ rw (n, listen_and_serve) l
  ]

  behind_load-Local :
      (dir : Text) (cfg : Config) (h : Host Sys Sims) (r : Result (Authority Key Cert LeafKey))
      → Local h.bound
      → Local (behind_load o dir cfg h r).0.bound
  unfolding behind_load auto_trust
  behind_load-Local dir cfg h (failed e) l = l
  behind_load-Local dir cfg h (ok authority) l = elim (Bool-cases cfg.no_trust) [
    | inl n ↦ rw (n, behind_load) (listen-Local cfg h l)
    | inr n ↦
        rw (n, behind_load)
          (listen-Local cfg (auto_trust o (o.join_path dir (codes "ca.crt")) cfg h) l)
  ]

  -- Whatever the flags are, and whatever fails: if all addresses that are listened on are 127.0.0.1
  -- with a port, they still are when run has ended.
  pub run-Local : (cfg : Config) (h : Host Sys Sims) → Local h.bound → Local (run o cfg h).0.bound
  unfolding run
  run-Local cfg h l = elim (Outcome-cases (expand_path o.user_home o.join_path cfg.ca_dir)) [
    | inl (msg, n) ↦ rw (n, run) l
    | inr (dir, n) ↦
        let (store, r) = load o.crypto o.disk o.entropy h.store in
        rw (n, run) (behind_load-Local dir cfg (record h { store = store }) r l)
  ]

  -- With -trust nothing is bound, no key is made and the system proxy is left alone.
  trust_ca_only :
      (cfg : Config) (h : Host Sys Sims)
      → let h' = (start o true cfg h).0 in
        (h'.bound ≡ h.bound) × (h'.store ≡ h.store) × (h'.mac ≡ h.mac)
  unfolding start trust_ca
  trust_ca_only cfg h = elim (Outcome-cases (expand_path o.user_home o.join_path cfg.ca_dir)) [
    | inl (msg, n) ↦ rw (n, trust_ca) (refl, refl, refl)
    | inr (dir, n) ↦ rw (n, trust_ca) (refl, refl, refl)
  ]
