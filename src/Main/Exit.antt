-- ===== src/Main/Exit.antt =====
-- The system proxy when run has ended.
use proxysim.Prelude.{
  ◌≡◌, refl, ◌⊎◌, inl, inr, Bool, true, false, [], ◌∷◌, ◌++◌, none, Text, codes, arith, Bool-cases,
  Option-cases,
}
use proxysim.Ca.Certificate.{Outcome, got, error}
use proxysim.Ca.Load.{Result, Authority, load, ok, failed}
use proxysim.Strings.Signed.{ℤ}
use proxysim.Sysproxy.{
  Runner, Codec, Disk, Mac, Manager, restore_to, Config as Snapshot, ok as done,
}
use proxysim.Sysproxy.Takeover.{take_over, set_and_conclude, set_or_roll_back, apply, new_manager}
use proxysim.Sysproxy.Restore.{Kind, Shown, Documented, Permits}
use proxysim.Sysproxy.Recovery.{sound, Restored, restore_once}
use proxysim.Main
use proxysim.Main.{
  Config, Outside, Host, Exit, Setup, auto_trust, setup_system_proxy, wait, serve, deferred,
  listen_and_serve, behind_load, run, address, expand_path, Error,
}

take_over-restored :
    {Sys : Type 0} (run : Runner Sys) (supported : Bool) (json : Codec) (d : Disk) (service : Text)
    (port : ℤ) (c cfg : Snapshot) (w mac : Mac Sys) (m n : Manager)
    → take_over run supported json d service port c n w ≡ (mac, m, restore_to cfg, none)
    → m.restored ≡ n.restored
unfolding take_over set_and_conclude set_or_roll_back
take_over-restored run supported json d service port c cfg w mac m n h = ground (arith, h)

apply-restored :
    {Sys : Type 0} (run : Runner Sys) (supported : Bool) (json : Codec) (d : Disk) (port : ℤ)
    (cfg : Snapshot) (w mac : Mac Sys) (m n : Manager)
    → apply run supported json d port n w ≡ (mac, m, restore_to cfg, none)
    → m.restored ≡ n.restored
unfolding apply
apply-restored run supported json d port cfg w mac m n h =
    ground (arith, h, take_over-restored run supported json d)

pub Outcome-cases :
    {A : Type 0} (o : Outcome A) → ((e : Text) × (o ≡ error e)) ⊎ ((a : A) × (o ≡ got a))
Outcome-cases (error e) = inl (e, refl)
Outcome-cases (got a) = inr (a, refl)

module _ {Key Cert LeafKey Sys Sims : Type 0} (o : Outside Key Cert LeafKey Sys Sims)
    (view : Sys → Text → Kind → Shown) (laws : Documented o.sys_run view)
    (permits : Permits o.sys_run) where
  -- Either nothing of this process has changed the machine, or a snapshot is put back, with none
  -- left, over what the takeover had made of the machine, or over what became of that since.
  abbrev pub Left : Snapshot → Mac Sys → Mac Sys → Exit Sys Sims → Type 0
  Left c mac taken r =
      (r.0.mac ≡ mac)
      ⊎ ((later : Mac Sys) × ((later.sys ≡ taken.sys) ⊎ (later.sys ≡ o.meanwhile taken.sys))
          × Restored o.sys_run view laws permits o.json c later (r.0.mac, done tt))

  -- while the proxy serves, the machine stays, or becomes what happens to it meanwhile
  serve-sys :
      (cfg : Config) (h : Host Sys Sims)
      → ((serve o cfg h).0.mac.sys ≡ h.mac.sys)
        ⊎ ((serve o cfg h).0.mac.sys ≡ o.meanwhile h.mac.sys)
  unfolding serve wait
  serve-sys cfg h = elim (Bool-cases cfg.ui) [
    | inl e ↦ elim (Option-cases (o.listen (address cfg.ui_port))) [
      | inl n ↦ rw (e, serve, n) (inr refl)
      | inr (msg, n) ↦ rw (e, serve, n) (inl refl)
    ]
    | inr e ↦ rw (e, serve) (inr refl)
  ]

  deferred-Left :
      (cfg : Config) (h : Host Sys Sims) (mac : Mac Sys) (m : Manager) (c : Snapshot)
      → o.snapshot_disk ≡ sound
      → m.restored ≡ false
      → Left c h.mac mac (deferred o (serve o cfg) h (mac, m, restore_to c, none))
  unfolding deferred Restored serve
  deferred-Left cfg h mac m c e f =
      let later = (serve o cfg (record h { mac = mac })).0.mac in
      let (back, _) = restore_once o.sys_run view laws permits o.json c m later later f in
      inr (later, serve-sys cfg (record h { mac = mac }), rw e (refl, back.1, back.2))

  take_over-Left :
      (cfg : Config) (h : Host Sys Sims) (mac : Mac Sys) (m : Manager) (c : Snapshot)
      → o.snapshot_disk ≡ sound
      → cfg.system_proxy ≡ true
      → setup_system_proxy o cfg.port h.mac ≡ (mac, m, restore_to c, none)
      → Left c h.mac mac (Main.take_over o cfg h)
  unfolding Main.take_over setup_system_proxy
  take_over-Left cfg h mac m c e f g =
      let fresh =
        apply-restored o.sys_run o.supported o.json o.snapshot_disk cfg.port c _ mac m new_manager
          g in
      rw (f, Main.take_over, g) (deferred-Left cfg h mac m c e fresh)

  listen_and_serve-Left :
      (cfg : Config) (h : Host Sys Sims) (mac : Mac Sys) (m : Manager) (c : Snapshot)
      → o.snapshot_disk ≡ sound
      → cfg.system_proxy ≡ true
      → setup_system_proxy o cfg.port h.mac ≡ (mac, m, restore_to c, none)
      → Left c h.mac mac (listen_and_serve o cfg h)
  unfolding listen_and_serve
  listen_and_serve-Left cfg h mac m c e f g = elim (Option-cases (o.listen (address cfg.port))) [
    | inl n ↦
        rw (n, listen_and_serve)
          (take_over-Left cfg (record h { bound = h.bound ++ address cfg.port ∷ [] }) mac m c e f g)
    | inr (msg, n) ↦ rw (n, listen_and_serve) (inl refl)
  ]

  behind_load-Left :
      (dir : Text) (cfg : Config) (h : Host Sys Sims) (r : Result (Authority Key Cert LeafKey))
      (mac : Mac Sys) (m : Manager) (c : Snapshot)
      → o.snapshot_disk ≡ sound
      → cfg.system_proxy ≡ true
      → setup_system_proxy o cfg.port h.mac ≡ (mac, m, restore_to c, none)
      → Left c h.mac mac (behind_load o dir cfg h r)
  unfolding behind_load auto_trust
  behind_load-Left dir cfg h (failed e) mac m c d f g = inl refl
  behind_load-Left dir cfg h (ok authority) mac m c d f g = elim (Bool-cases cfg.no_trust) [
    | inl n ↦ rw (n, behind_load) (listen_and_serve-Left cfg h mac m c d f g)
    | inr n ↦
        rw (n, behind_load)
          (listen_and_serve-Left cfg (auto_trust o (o.join_path dir (codes "ca.crt")) cfg h) mac m c
            d f g)
  ]

  -- If the setting commands do what they document and none fails, and no operation on the snapshot's
  -- file does: when the takeover of -system-proxy succeeds, then however run returns, by an error
  -- before or behind it, a server's failure or a signal that it waits for, and whatever became of the
  -- settings while it served, its snapshot is put back over them and none is left, unless run returned
  -- before it touched the machine. Of a server that the snapshot has no host for only the state is put
  -- back: its host and port stay as they were before the restore. A signal between the takeover and
  -- the wait for signals is no return of run.
  pub run-Left :
      (cfg : Config) (h : Host Sys Sims) (mac : Mac Sys) (m : Manager) (c : Snapshot)
      → o.snapshot_disk ≡ sound
      → cfg.system_proxy ≡ true
      → setup_system_proxy o cfg.port h.mac ≡ (mac, m, restore_to c, none)
      → Left c h.mac mac (run o cfg h)
  unfolding run
  run-Left cfg h mac m c e f g =
      elim (Outcome-cases (expand_path o.user_home o.join_path cfg.ca_dir)) [
        | inl (msg, n) ↦ rw (n, run) (inl refl)
        | inr (dir, n) ↦
            let (store, r) = load o.crypto o.disk o.entropy h.store in
            rw (n, run) (behind_load-Left dir cfg (record h { store = store }) r mac m c e f g)
      ]
