-- ===== src/Sysproxy/Restore.antt =====
-- What restoring a snapshot makes of the settings, under what `networksetup` documents.
use proxysim.Prelude.{
  ◌≡◌, refl, ap, ◌∙◌, Bool, true, none, Text, is_nil, if◌then◌else◌, arith, Bool-cases, inl, inr,
}
use proxysim.Strings.Signed.{ℤ, itoa}
use proxysim.Sysproxy.Parse.{Setting}
use proxysim.Sysproxy.{
  Runner, Config, Mac, ok, networksetup, webproxy, securewebproxy, set_args, state_args, command,
}
use proxysim.Sysproxy.Takeover.{restore_state, restore_setting, restore_config, and_then}

pub data Kind : Type 0 where
  web secure : Kind

abbrev pub name : Kind → Text
name web = webproxy
name secure = securewebproxy

abbrev pub other : Kind → Kind
other web = secure
other secure = web

-- A setting as `networksetup` shows it.
pub record Shown : Type 0 where
  pub enabled : Bool
  pub host : Text
  pub port : Text

abbrev pub shown : Setting → Shown
shown s = record { enabled = s.enabled; host = s.host; port = itoa s.port }

-- What `networksetup` documents of its commands: each sets one proxy of one service, setting a server
-- also enables it, and the state alone is set by the command for the state.
pub record Documented {Sys : Type 0} (run : Runner Sys) (view : Sys → Text → Kind → Shown)
    : Type 0 where
  pub set_view :
      (service : Text) (k : Kind) (host : Text) (port : ℤ) (s : Sys)
      → (run networksetup (set_args service (name k) host port) s).2 ≡ none
      → view (run networksetup (set_args service (name k) host port) s).0 service k
        ≡ record { enabled = true; host = host; port = itoa port }
  pub set_other :
      (service : Text) (k : Kind) (host : Text) (port : ℤ) (s : Sys)
      → (run networksetup (set_args service (name k) host port) s).2 ≡ none
      → view (run networksetup (set_args service (name k) host port) s).0 service (other k)
        ≡ view s service (other k)
  pub state_view :
      (service : Text) (k : Kind) (enabled : Bool) (s : Sys)
      → (run networksetup (state_args service (name k) enabled) s).2 ≡ none
      → view (run networksetup (state_args service (name k) enabled) s).0 service k
        ≡ record (view s service k) { enabled = enabled }
  pub state_other :
      (service : Text) (k : Kind) (enabled : Bool) (s : Sys)
      → (run networksetup (state_args service (name k) enabled) s).2 ≡ none
      → view (run networksetup (state_args service (name k) enabled) s).0 service (other k)
        ≡ view s service (other k)

-- The user may change the settings: no setting command fails.
pub record Permits {Sys : Type 0} (run : Runner Sys) : Type 0 where
  pub sets :
      (service kind host : Text) (port : ℤ) (s : Sys)
      → (run networksetup (set_args service kind host port) s).2 ≡ none
  pub states :
      (service kind : Text) (enabled : Bool) (s : Sys)
      → (run networksetup (state_args service kind enabled) s).2 ≡ none

-- What a stored setting makes of the current one: without a stored host, only the state is restored.
abbrev pub restored : Setting → Shown → Shown
restored stored current =
    if is_nil stored.host then record current { enabled = stored.enabled } else shown stored

module _ {Sys : Type 0} (run : Runner Sys) (view : Sys → Text → Kind → Shown)
    (laws : Documented run view) (permits : Permits run) where
  -- The worlds after one command.
  abbrev stated : Text → Kind → Bool → Mac Sys → Mac Sys
  stated service k enabled w = (command run networksetup (state_args service (name k) enabled) w).0

  abbrev hosted : Text → Kind → Setting → Mac Sys → Mac Sys
  hosted service k s w = (command run networksetup (set_args service (name k) s.host s.port) w).0

  restore_state_lem :
      (service : Text) (k : Kind) (s : Setting) (w : Mac Sys)
      → restore_state run service (name k) s w ≡ (stated service k s.enabled w, ok tt)
  unfolding restore_state command
  restore_state_lem service k s w =
      rw (permits.states service (name k) s.enabled w.sys, restore_state) refl

  -- what restoring one proxy leaves behind
  pub after : Text → Kind → Setting → Mac Sys → Mac Sys
  after service k s w =
      if is_nil s.host
      then stated service k s.enabled w
      else stated service k s.enabled (hosted service k s w)

  restore_setting_lem :
      (service : Text) (k : Kind) (s : Setting) (w : Mac Sys)
      → restore_setting run service (name k) s w ≡ (after service k s w, ok tt)
  unfolding restore_setting command after
  restore_setting_lem service k s w = elim (Bool-cases (is_nil s.host)) [
    | inl e ↦ rw (e, restore_setting) (restore_state_lem service k s w)
    | inr e ↦
        rw (e, restore_setting, permits.sets service (name k) s.host s.port w.sys)
          (restore_state_lem service k s (hosted service k s w))
  ]

  pub file-after :
      (service : Text) (k : Kind) (s : Setting) (w : Mac Sys) → (after service k s w).file ≡ w.file
  unfolding after command
  file-after service k s w = ground arith

  view-after :
      (service : Text) (k : Kind) (s : Setting) (w : Mac Sys)
      → view (after service k s w).sys service k ≡ restored s (view w.sys service k)
  unfolding after command
  view-after service k s w = elim (Bool-cases (is_nil s.host)) [
    | inl e ↦ rw e (laws.state_view service k s.enabled w.sys (permits.states _ _ _ _))
    | inr e ↦ rw e (
        laws.state_view service k s.enabled (hosted service k s w).sys (permits.states _ _ _ _)
        ∙ ap (λ (t : Shown). record t { enabled = s.enabled })
            (laws.set_view service k s.host s.port w.sys (permits.sets _ _ _ _ _)))
  ]

  other_untouched :
      (service : Text) (k : Kind) (s : Setting) (w : Mac Sys)
      → view (after service k s w).sys service (other k) ≡ view w.sys service (other k)
  unfolding after command
  other_untouched service k s w = elim (Bool-cases (is_nil s.host)) [
    | inl e ↦ rw e (laws.state_other service k s.enabled w.sys (permits.states _ _ _ _))
    | inr e ↦ rw e (
        laws.state_other service k s.enabled (hosted service k s w).sys (permits.states _ _ _ _)
        ∙ laws.set_other service k s.host s.port w.sys (permits.sets _ _ _ _ _))
  ]

  -- A snapshot is put back from any state of the machine.
  unfoldable pub PutBack : Config → Mac Sys → Mac Sys → Type 0
  PutBack cfg w w' =
      (view w'.sys cfg.service web ≡ restored cfg.web (view w.sys cfg.service web))
      × (view w'.sys cfg.service secure ≡ restored cfg.secure (view w.sys cfg.service secure))

  abbrev pub both : Config → Mac Sys → Mac Sys
  both cfg w = after cfg.service web cfg.web (after cfg.service secure cfg.secure w)

  pub restore_config_lem :
      (cfg : Config) (w : Mac Sys) → restore_config run cfg w ≡ (both cfg w, ok tt)
  unfolding restore_config and_then
  restore_config_lem cfg w =
      ap (λ r. and_then run r (λ w'. restore_setting run cfg.service webproxy cfg.web w'))
        (restore_setting_lem cfg.service secure cfg.secure w)
      ∙ (restore_setting_lem cfg.service web cfg.web (after cfg.service secure cfg.secure w))

  pub both-PutBack : (cfg : Config) (w : Mac Sys) → PutBack cfg w (both cfg w)
  unfolding PutBack
  both-PutBack cfg w =
      let w' = after cfg.service secure cfg.secure w in
      (
        view-after cfg.service web cfg.web w'
            ∙ ap (restored cfg.web) (other_untouched cfg.service secure cfg.secure w),
        other_untouched cfg.service web cfg.web w' ∙ view-after cfg.service secure cfg.secure w,
      )
