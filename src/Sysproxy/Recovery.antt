-- ===== src/Sysproxy/Recovery.antt =====
-- A takeover is taken back by its own restore function, and by the next run after a crash.
use proxysim.Prelude.{
  ◌≡◌, refl, ap, ◌∙◌, true, false, List, [], ◌∷◌, ◌++◌, Option, none, some, Text, All, Option-cases,
  inl, inr, arith,
}
use proxysim.Strings.Signed.{ℤ, itoa}
use proxysim.Sysproxy.{
  note, Runner, Config, Codec, Disk, Mac, Manager, Error, Done, ok, recovering, restoring,
  restore_to, networksetup, webproxy, securewebproxy, set_args, clear_snapshot, persist, write_file,
  load_snapshot, command,
}
use proxysim.Sysproxy.Takeover.{
  loopback, set_proxy, take_over, set_and_conclude, set_or_roll_back, restore_config, clear_unless,
  recover, restore,
}
use proxysim.Sysproxy.Restore.{
  Shown, Documented, Permits, name, Kind, web, secure, after, both, file-after, restore_config_lem,
  PutBack, both-PutBack,
}

append_three {ℓ} :
    {A : Type ℓ} (l : List A) (a b c : A)
    → ((l ++ a ∷ []) ++ b ∷ []) ++ c ∷ [] ≡ l ++ a ∷ b ∷ c ∷ []
append_three [] a b c = refl
append_three (x ∷ l) a b c = ap (◌∷◌ x) (append_three l a b c)

-- A file system without faults.
abbrev pub sound : Disk
sound = record { write_fault = none; read_fault = none; remove_fault = none }

module _ {Sys : Type 0} (run : Runner Sys) (view : Sys → Text → Kind → Shown)
    (laws : Documented run view) (permits : Permits run) (json : Codec) where
  file-both : (cfg : Config) (w : Mac Sys) → (both run view laws permits cfg w).file ≡ w.file
  file-both cfg w =
      file-after run view laws permits cfg.service web cfg.web
        (after run view laws permits cfg.service secure cfg.secure w)
      ∙ file-after run view laws permits cfg.service secure cfg.secure w

  -- the world after the snapshot was put back and cleared
  abbrev cleaned : Config → Mac Sys → Mac Sys
  cleaned cfg w = (clear_snapshot sound (both run view laws permits cfg w)).0

  clear_lem :
      (w : Mac Sys)
      → ((clear_snapshot sound w).1 ≡ ok tt)
        × ((clear_snapshot sound w).0.file ≡ none)
        × ((clear_snapshot sound w).0.sys ≡ w.sys)
  unfolding clear_snapshot
  clear_lem w = elim (Option-cases w.file) [
    | inl e ↦ ground (arith, e)
    | inr (c, e) ↦ ground (arith, e)
  ]

  -- Everything is well after a restoration: no error, no file, the settings of the snapshot.
  unfoldable pub Restored : Config → Mac Sys → Mac Sys × Done → Type 0
  Restored cfg w r = (r.1 ≡ ok tt) × (r.0.file ≡ none) × PutBack run view laws permits cfg w r.0

  restored_lem :
      (cfg : Config) (wrap : Error → Error) (w : Mac Sys)
      → Restored cfg w (clear_unless run sound wrap (restore_config run cfg w))
  unfolding clear_unless Restored PutBack
  restored_lem cfg wrap w =
      let b = both run view laws permits cfg w in
      let c = clear_lem b in
      let p = both-PutBack run view laws permits cfg w in
      rw (restore_config_lem run view laws permits cfg w) (
        c.0,
        c.1,
        (ap (λ s. view s cfg.service web) c.2 ∙ p.0, ap (λ s. view s cfg.service secure) c.2 ∙ p.1),
      )

  load_lem :
      (cfg : Config) (contents : Text) (w : Mac Sys)
      → w.file ≡ some contents
      → json.unmarshal contents ≡ some cfg
      → load_snapshot json sound w ≡ ok (some cfg)
  unfolding load_snapshot
  load_lem cfg contents w f u = rw (f, u, load_snapshot) refl

  -- Where no command and no file operation fails, a run that finds a readable snapshot puts its
  -- settings back from whatever state the machine is in, and removes the file. Without a stored
  -- server only the state of a proxy is put back.
  pub recover_lem :
      (cfg : Config) (contents : Text) (w : Mac Sys)
      → w.file ≡ some contents
      → json.unmarshal contents ≡ some cfg
      → Restored cfg w (recover run true json sound w)
  unfolding recover
  recover_lem cfg contents w f u =
      rw (load_lem cfg contents w f u, recover) (restored_lem cfg (recovering cfg.service) w)

  -- Where no command and no file operation fails, the first call of the restore function that Apply
  -- returns puts the settings of the snapshot back and removes the file, and a further call changes
  -- nothing and reports no error.
  pub restore_once :
      (cfg : Config) (m : Manager) (w later : Mac Sys)
      → m.restored ≡ false
      → let (w', m', r) = restore run sound (restore_to cfg) m w in
        Restored cfg w (w', r) × (restore run sound (restore_to cfg) m' later ≡ (later, m', ok tt))
  unfolding restore
  restore_once cfg m w later e = rw (e, restore) (restored_lem cfg (restoring cfg.service) w, refl)

  -- the proxy as Apply sets it
  abbrev pub pointed : ℤ → Shown
  pointed port = record { enabled = true; host = loopback; port = itoa port }

  -- where a new run finds the machine after a crash
  abbrev pub crashed : Sys × Option Text → Mac Sys
  crashed p = record { sys = p.0; file = p.1; past = [] }

  -- the worlds after the two commands
  abbrev set_one : Text → Kind → ℤ → Mac Sys → Mac Sys
  set_one service k port w =
      (command run networksetup (set_args service (name k) loopback port) w).0

  set_proxy_lem :
      (service : Text) (port : ℤ) (w : Mac Sys)
      → set_proxy run service port w
        ≡ (set_one service web port (set_one service secure port w), ok tt)
  unfolding set_proxy command
  set_proxy_lem service port w =
      rw
        (
          permits.sets service securewebproxy loopback port w.sys,
          set_proxy,
          permits.sets service webproxy loopback port (set_one service secure port w).sys,
        )
        refl

  view-set_proxy :
      (service : Text) (port : ℤ) (w : Mac Sys)
      → let w' = set_one service web port (set_one service secure port w) in
        (view w'.sys service web ≡ pointed port) × (view w'.sys service secure ≡ pointed port)
  unfolding command
  view-set_proxy service port w =
      let w' = set_one service secure port w in
      (
        laws.set_view service web loopback port w'.sys (permits.sets _ _ _ _ _),
        laws.set_other service web loopback port w'.sys (permits.sets _ _ _ _ _)
            ∙ laws.set_view service secure loopback port w.sys (permits.sets _ _ _ _ _),
      )

  persist_lem :
      (cfg : Config) (contents : Text) (w : Mac Sys)
      → json.marshal cfg ≡ some contents
      → persist json sound cfg w ≡ (note (record w { file = some contents }), ok tt)
  unfolding persist write_file
  persist_lem cfg contents w e = rw (e, persist) refl

  -- the crash points of a takeover
  abbrev points : Text → ℤ → Text → Mac Sys → List (Sys × Option Text)
  points service port contents w =
      let w1 = set_one service secure port w in
      let w2 = set_one service web port w1 in
      (w.sys, some contents) ∷ (w1.sys, some contents) ∷ (w2.sys, some contents) ∷ []

  take_over_lem :
      (service : Text) (port : ℤ) (cfg : Config) (contents : Text) (m : Manager) (w : Mac Sys)
      → json.marshal cfg ≡ some contents
      → take_over run true json sound service port cfg m w ≡ (
        set_one service web port
            (set_one service secure port (note (record w { file = some contents }))),
        record m { service = service },
        restore_to cfg,
        none,
      )
  unfolding take_over set_and_conclude set_or_roll_back
  take_over_lem service port cfg contents m w e =
      ap (set_and_conclude run true json sound service port cfg m) (persist_lem cfg contents w e)
      ∙ ap (set_or_roll_back run true json sound service cfg m)
          (set_proxy_lem service port (note (record w { file = some contents })))

  past-take_over :
      (service : Text) (port : ℤ) (contents : Text) (w : Mac Sys)
      → (set_one service web port
          (set_one service secure port (note (record w { file = some contents })))).past
        ≡ w.past ++ points service port contents w
  unfolding command
  past-take_over service port contents w = append_three w.past _ _ _

  -- Where no command and no file operation fails and JSON reads the snapshot back, a takeover,
  -- from its write of the snapshot on, ends with both proxies pointing at the port, no error and the
  -- restore function of the snapshot. Killed after any of its actions, it leaves a snapshot file
  -- from which the next run puts the settings of the snapshot back (the state alone, where no server
  -- was stored): the file is written before the first setting changes.
  pub crash_recovered :
      (service : Text) (port : ℤ) (cfg : Config) (contents : Text) (m : Manager) (w : Mac Sys)
      → json.marshal cfg ≡ some contents
      → json.unmarshal contents ≡ some cfg
      → let (w', m', r, e) = take_over run true json sound service port cfg m w in
        (e ≡ none)
        × (r ≡ restore_to cfg)
        × (view w'.sys service web ≡ pointed port)
        × (view w'.sys service secure ≡ pointed port)
        × ((passed : List (Sys × Option Text)) × (w'.past ≡ w.past ++ passed)
            × All (λ p. Restored cfg (crashed p) (recover run true json sound (crashed p))) passed)
  crash_recovered service port cfg contents m w e u =
      let start : Mac Sys = note (record w { file = some contents }) in
      let seen = view-set_proxy service port start in
      let found : (s : Sys)
          → Restored cfg (crashed (s, some contents))
              (recover run true json sound (crashed (s, some contents))) =
        λ s. recover_lem cfg contents (crashed (s, some contents)) refl u in
      rw (take_over_lem service port cfg contents m w e) (
        refl,
        refl,
        seen.0,
        seen.1,
        (
          points service port contents w,
          past-take_over service port contents w,
          (found _, (found _, (found _, tt))),
        ),
      )
