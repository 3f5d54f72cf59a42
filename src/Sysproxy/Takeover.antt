-- ===== src/Sysproxy/Takeover.antt =====
-- Apply, Recover and the restore function of internal/sysproxy/sysproxy.go.
use proxysim.Prelude.{Bool, true, false, [], Option, none, some, Text, codes, is_nil, if◌then◌else◌}
use proxysim.Strings.{trim_space}
use proxysim.Strings.Signed.{ℤ}
use proxysim.Sysproxy.Parse.{Setting}
use proxysim.Sysproxy.{
  Runner, Config, Codec, Disk, Mac, Manager, Error, restoring_host, restoring_state, reading_config,
  restoring, recovering, Done, ok, failed, Restorer, noop, restore_to, networksetup, webproxy,
  securewebproxy, set_args, state_args, classify_set_err, clear_snapshot, persist, load_snapshot,
  command, primary_service, snapshot,
}

abbrev pub new_manager : Manager
new_manager = record { service = []; restored = false }

abbrev pub loopback : Text
loopback = codes "127.0.0.1"

module _ {Sys : Type 0} (run : Runner Sys) where
  unfoldable pub set_proxy : Text → ℤ → Mac Sys → Mac Sys × Done
  unfolding command classify_set_err
  set_proxy service port w =
      let (w', out, e) =
        command run networksetup (set_args service securewebproxy loopback port) w in
      elim e [
        | some m ↦ (w', failed (classify_set_err m out))
        | none ↦
            let (w'', out', e') =
              command run networksetup (set_args service webproxy loopback port) w' in
            elim e' [ some m ↦ (w'', failed (classify_set_err m out')) | none ↦ (w'', ok tt) ]
      ]

  unfoldable pub restore_state : Text → Text → Setting → Mac Sys → Mac Sys × Done
  unfolding command
  restore_state service kind s w =
      let (w', out, e) = command run networksetup (state_args service kind s.enabled) w in
      elim e [
        | some m ↦ (w', failed (restoring_state kind service m (trim_space out)))
        | none ↦ (w', ok tt)
      ]

  unfoldable pub restore_setting : Text → Text → Setting → Mac Sys → Mac Sys × Done
  unfolding command restore_state
  restore_setting service kind s w =
      if is_nil s.host
      then restore_state service kind s w
      else (let (w', out, e) = command run networksetup (set_args service kind s.host s.port) w in
          elim e [
            | some m ↦ (w', failed (restoring_host kind service m (trim_space out)))
            | none ↦ restore_state service kind s w'
          ])

  -- the rest of a function behind the check of an error
  unfoldable pub and_then : Mac Sys × Done → (Mac Sys → Mac Sys × Done) → Mac Sys × Done
  and_then (w, failed e) rest = (w, failed e)
  and_then (w, ok u) rest = rest w

  unfoldable pub restore_config : Config → Mac Sys → Mac Sys × Done
  unfolding restore_setting and_then
  restore_config cfg w =
      and_then (restore_setting cfg.service securewebproxy cfg.secure w)
        (λ w'. restore_setting cfg.service webproxy cfg.web w')

  -- clears the snapshot unless the restoration failed, whose error is wrapped
  unfoldable pub clear_unless : Disk → (Error → Error) → Mac Sys × Done → Mac Sys × Done
  unfolding clear_snapshot
  clear_unless d wrap (w, failed e) = (w, failed (wrap e))
  clear_unless d wrap (w, ok u) = clear_snapshot d w

  -- The restore function; only its first call acts.
  unfoldable pub restore : Disk → Restorer → Manager → Mac Sys → Mac Sys × Manager × Done
  unfolding restore_config clear_unless
  restore d noop m w = (w, m, ok tt)
  restore d (restore_to cfg) m w =
      if m.restored
      then (w, m, ok tt)
      else (let m' : Manager = record m { restored = true } in
          let (w', r) = clear_unless d (restoring cfg.service) (restore_config cfg w) in
          (w', m', r))

  module _ (supported : Bool) (json : Codec) (d : Disk) where
    -- Apply once the proxies are set, or failed to be set
    unfoldable pub set_or_roll_back :
        Text → Config → Manager → Mac Sys × Done → Mac Sys × Manager × Restorer × Option Error
    unfolding restore_config clear_snapshot
    set_or_roll_back service cfg m (w, ok u) =
        (w, record m { service = service }, restore_to cfg, none)
    set_or_roll_back service cfg m (w, failed e) =
        let (back, _) = restore_config cfg w in
        let (cleared, _) = clear_snapshot d back in (cleared, m, noop, some e)

    -- Apply once the snapshot is written, or failed to be written
    unfoldable pub set_and_conclude :
        Text → ℤ → Config → Manager → Mac Sys × Done → Mac Sys × Manager × Restorer × Option Error
    unfolding set_proxy set_or_roll_back
    set_and_conclude service port cfg m (w, failed e) = (w, m, noop, some e)
    set_and_conclude service port cfg m (w, ok u) =
        set_or_roll_back service cfg m (set_proxy service port w)

    unfoldable pub take_over :
        Text → ℤ → Config → Manager → Mac Sys → Mac Sys × Manager × Restorer × Option Error
    unfolding persist set_and_conclude
    take_over service port cfg m w = set_and_conclude service port cfg m (persist json d cfg w)

    unfoldable pub apply : ℤ → Manager → Mac Sys → Mac Sys × Manager × Restorer × Option Error
    unfolding primary_service snapshot take_over
    apply port m w =
        if supported
        then (let (w', r) = primary_service run w in
            elim r [
              | failed e ↦ (w', m, noop, some e)
              | ok service ↦
                  let (w'', r') = snapshot run service w' in
                  elim r' [
                    | failed e ↦ (w'', m, noop, some (reading_config service e))
                    | ok cfg ↦ take_over service port cfg m w''
                  ]
            ])
        else (w, m, noop, none)

    unfoldable pub recover : Mac Sys → Mac Sys × Done
    unfolding load_snapshot restore_config clear_unless
    recover w =
        if supported
        then elim (load_snapshot json d w) [
          | failed e ↦ (w, failed e)
          | ok none ↦ (w, ok tt)
          | ok (some cfg) ↦ clear_unless d (recovering cfg.service) (restore_config cfg w)
        ]
        else (w, ok tt)
