-- ===== src/Main/Overwritten.antt =====
-- setupSystemProxy of main.go where a recovery fails.
use proxysim.Prelude.{
  ◌≡◌, refl, sym, ap, ◌∙◌, Bool, true, Option, none, some, Text, inl, inr, arith, Bool-cases,
}
use proxysim.Strings.Signed.{ℤ}
use proxysim.Sysproxy.{
  note, Runner, Config, Codec, Disk, Mac, Manager, Error, Result, Done, ok, failed, restore_to,
  recovering, command, clear_snapshot, persist, write_file, load_snapshot, primary_service,
  snapshot, webproxy, securewebproxy,
}
use proxysim.Sysproxy.Parse.{Setting}
use proxysim.Sysproxy.Takeover.{
  new_manager, set_proxy, restore_state, restore_setting, restore_config, and_then, clear_unless,
  set_or_roll_back, set_and_conclude, take_over, apply, recover,
}
use proxysim.Main.{Outside, setup_system_proxy}

module _ {Sys : Type 0} (run : Runner Sys) where
  file-restore_state :
      (service kind : Text) (s : Setting) (w : Mac Sys)
      → (restore_state run service kind s w).0.file ≡ w.file
  unfolding restore_state command
  file-restore_state service kind s w = ground arith

  file-restore_setting :
      (service kind : Text) (s : Setting) (w : Mac Sys)
      → (restore_setting run service kind s w).0.file ≡ w.file
  unfolding restore_setting command restore_state
  file-restore_setting service kind s w = ground arith

  file-and_then :
      (r : Mac Sys × Done) (rest : Mac Sys → Mac Sys × Done) (file : Option Text)
      → r.0.file ≡ file
      → ((w : Mac Sys) → (rest w).0.file ≡ w.file)
      → (and_then run r rest).0.file ≡ file
  unfolding and_then
  file-and_then (w, failed e) rest file h keep = h
  file-and_then (w, ok u) rest file h keep = keep w ∙ h

  file-restore_config : (cfg : Config) (w : Mac Sys) → (restore_config run cfg w).0.file ≡ w.file
  unfolding restore_config
  file-restore_config cfg w =
      file-and_then (restore_setting run cfg.service securewebproxy cfg.secure w)
        (restore_setting run cfg.service webproxy cfg.web) w.file
        (file-restore_setting cfg.service securewebproxy cfg.secure w)
        (file-restore_setting cfg.service webproxy cfg.web)

  file-clear_unless :
      (d : Disk) (wrap : Error → Error) (r : Mac Sys × Done) (w' : Mac Sys) (e : Error)
      → clear_unless run d wrap r ≡ (w', failed e)
      → w'.file ≡ r.0.file
  unfolding clear_unless clear_snapshot
  file-clear_unless d wrap (w, failed e') w' e h = ap (λ r. r.0.file) (sym h)
  file-clear_unless d wrap (w, ok u) w' e h = ground (arith, h)

  file-set_proxy :
      (service : Text) (port : ℤ) (w : Mac Sys) → (set_proxy run service port w).0.file ≡ w.file
  unfolding set_proxy command
  file-set_proxy service port w = ground arith

  -- a recovery that fails keeps the file
  file-recover :
      (supported : Bool) (json : Codec) (d : Disk) (w w' : Mac Sys) (e : Error)
      → recover run supported json d w ≡ (w', failed e)
      → w'.file ≡ w.file
  unfolding recover
  file-recover supported json d w w' e h = elim (Bool-cases supported) [
    | inr off ↦ ground (arith, h, off)
    | inl on ↦ loaded on (load_snapshot json d w) refl
  ]
    where
      loaded :
          supported ≡ true
          → (r : Result (Option Config)) → load_snapshot json d w ≡ r
          → w'.file ≡ w.file
      loaded on (failed e') l = ground (arith, h, on, l)
      loaded on (ok none) l = ground (arith, h, on, l)
      loaded on (ok (some cfg)) l =
          let same : recover run supported json d w
              ≡ clear_unless run d (recovering cfg.service) (restore_config run cfg w) =
            rw (on, recover, l) refl in
          file-clear_unless d (recovering cfg.service) (restore_config run cfg w) w' e
            (sym same ∙ h)
          ∙ file-restore_config cfg w

module _ {Key Cert LeafKey Sys Sims : Type 0} (o : Outside Key Cert LeafKey Sys Sims) where
  setup_recovered :
      (port : ℤ) (mac recovered : Mac Sys) (e : Error)
      → recover o.sys_run o.supported o.json o.snapshot_disk mac ≡ (recovered, failed e)
      → setup_system_proxy o port mac
        ≡ apply o.sys_run o.supported o.json o.snapshot_disk port new_manager recovered
  unfolding setup_system_proxy
  setup_recovered port mac recovered e rec =
      ap (λ r. apply o.sys_run o.supported o.json o.snapshot_disk port new_manager r.0) rec

  apply_lem :
      (port : ℤ) (w w1 w2 : Mac Sys) (service : Text) (cfg : Config)
      → o.supported ≡ true
      → primary_service o.sys_run w ≡ (w1, ok service)
      → snapshot o.sys_run service w1 ≡ (w2, ok cfg)
      → apply o.sys_run o.supported o.json o.snapshot_disk port new_manager w
        ≡ take_over o.sys_run o.supported o.json o.snapshot_disk service port cfg new_manager w2
  unfolding apply
  apply_lem port w w1 w2 service cfg supported prim snap = simp (supported, prim, snap)

  -- Where a recovery fails, its snapshot is still there; but where Apply then can list the current
  -- settings and set its own, the snapshot is replaced by that of the current settings, with no error.
  pub setup-overwrites :
      (port : ℤ) (mac recovered w1 w2 : Mac Sys) (e : Error) (service contents : Text)
      (cfg : Config)
      → o.supported ≡ true
      → o.snapshot_disk.write_fault ≡ none
      → recover o.sys_run o.supported o.json o.snapshot_disk mac ≡ (recovered, failed e)
      → primary_service o.sys_run recovered ≡ (w1, ok service)
      → snapshot o.sys_run service w1 ≡ (w2, ok cfg)
      → o.json.marshal cfg ≡ some contents
      → (set_proxy o.sys_run service port (note (record w2 { file = some contents }))).1 ≡ ok tt
      → let (mac', _, r, err) = setup_system_proxy o port mac in
        (recovered.file ≡ mac.file)
        × (err ≡ none)
        × (r ≡ restore_to cfg)
        × (mac'.file ≡ some contents)
  unfolding take_over set_and_conclude set_or_roll_back
  setup-overwrites port mac recovered w1 w2 e service contents cfg supported writes rec prim snap
        json set =
      let start : Mac Sys = note (record w2 { file = some contents }) in
      let kept : recovered.file ≡ mac.file =
        file-recover o.sys_run o.supported o.json o.snapshot_disk mac recovered e rec in
      let wrote : write_file o.snapshot_disk contents w2 ≡ (start, none) =
        rw (write_file, writes) refl in
      let written : persist o.json o.snapshot_disk cfg w2 ≡ (start, ok tt) =
        simp (persist, json, wrote) in
      let now : Mac Sys = (set_proxy o.sys_run service port start).0 in
      let pointed : set_proxy o.sys_run service port start ≡ (now, ok tt) = λ i. (now, set i) in
      let m : Manager = record new_manager { service = service } in
      let took : take_over o.sys_run o.supported o.json o.snapshot_disk service port cfg new_manager
            w2
          ≡ (now, m, restore_to cfg, none) =
        ap
          (set_and_conclude o.sys_run o.supported o.json o.snapshot_disk service port cfg
            new_manager)
          written
        ∙ ap (set_or_roll_back o.sys_run o.supported o.json o.snapshot_disk service cfg new_manager)
            pointed in
      let all : setup_system_proxy o port mac ≡ (now, m, restore_to cfg, none) =
        setup_recovered port mac recovered e rec
        ∙ apply_lem port recovered w1 w2 service cfg supported prim snap
        ∙ took in
      rw all (kept, refl, refl, file-set_proxy o.sys_run service port start)
