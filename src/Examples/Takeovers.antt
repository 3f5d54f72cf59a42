-- ===== src/Examples/Takeovers.antt =====
-- internal/sysproxy/sysproxy.go on a machine with one service.
use proxysim.Prelude.{
  ◌≡◌, refl, Bool, true, false, List, [], ◌∷◌, ◌++◌, Option, none, some, Text, codes, text_eq, All,
  if◌then◌else◌, arith,
}
use proxysim.Strings.Signed.{ℤ, pos, itoa}
use proxysim.Sysproxy.{Runner, Config, Codec, Mac, restore_to, networksetup, set_args, state_args}
use proxysim.Sysproxy.Takeover.{new_manager, take_over, recover}
use proxysim.Sysproxy.Restore.{Kind, web, secure, name, other, Shown, Documented, Permits}
use proxysim.Sysproxy.Recovery.{sound, Restored, pointed, crashed, crash_recovered}

abbrev pub Machine : Type 0
Machine = Shown × Shown

abbrev pub view : Machine → Text → Kind → Shown
view s service web = s.0
view s service secure = s.1

-- the settings commands, by their numbers of arguments
abbrev pub run : Runner Machine
run name (cmd ∷ service ∷ host ∷ port ∷ []) s =
    let new : Shown = record { enabled = true; host = host; port = port } in
    if text_eq cmd (codes "-setwebproxy") then ((new, s.1), [], none) else ((s.0, new), [], none)
run name (cmd ∷ service ∷ state ∷ []) s =
    let on = text_eq state (codes "on") in
    if text_eq cmd (codes "-setwebproxystate")
    then ((record (s.0) { enabled = on }, s.1), [], none)
    else ((s.0, record (s.1) { enabled = on }), [], none)
run name _ s = (s, [], none)

pub set_view :
    (service : Text) (k : Kind) (host : Text) (port : ℤ) (s : Machine)
    → view (run networksetup (set_args service (name k) host port) s).0 service k
      ≡ record { enabled = true; host = host; port = itoa port }
unfolding text_eq
set_view service web host port s = refl
set_view service secure host port s = refl

pub set_other :
    (service : Text) (k : Kind) (host : Text) (port : ℤ) (s : Machine)
    → view (run networksetup (set_args service (name k) host port) s).0 service (other k)
      ≡ view s service (other k)
unfolding text_eq
set_other service web host port s = refl
set_other service secure host port s = refl

pub state_view :
    (service : Text) (k : Kind) (enabled : Bool) (s : Machine)
    → view (run networksetup (state_args service (name k) enabled) s).0 service k
      ≡ record (view s service k) { enabled = enabled }
unfolding text_eq
state_view service web true s = refl
state_view service web false s = refl
state_view service secure true s = refl
state_view service secure false s = refl

pub state_other :
    (service : Text) (k : Kind) (enabled : Bool) (s : Machine)
    → view (run networksetup (state_args service (name k) enabled) s).0 service (other k)
      ≡ view s service (other k)
unfolding text_eq
state_other service web enabled s = refl
state_other service secure enabled s = refl

documented : Documented run view
documented = record {
  set_view = λ service k host port s e. set_view service k host port s;
  set_other = λ service k host port s e. set_other service k host port s;
  state_view = λ service k enabled s e. state_view service k enabled s;
  state_other = λ service k enabled s e. state_other service k enabled s;
}

permits : Permits run
permits = record {
  sets = λ service kind host port s. ground arith;
  states = λ service kind enabled s. ground arith;
}

-- the user's own proxy, which is off for plain requests
abbrev cfg : Config
cfg = record {
  service = codes "Wi-Fi";
  web = record { enabled = false; host = codes "corp"; port = pos 3128 };
  secure = record { enabled = true; host = codes "corp"; port = pos 3129 };
}

abbrev json : Codec
json = record { marshal = λ c. some (codes "{}"); unmarshal = λ t. some cfg }

abbrev before : Machine
before = (
  record { enabled = false; host = codes "corp"; port = codes "3128" },
  record { enabled = true; host = codes "corp"; port = codes "3129" },
)

abbrev world : Mac Machine
world = record { sys = before; file = none; past = [] }

abbrev taken : Mac Machine
taken = record {
  sys = (
    record { enabled = true; host = codes "127.0.0.1"; port = codes "8888" },
    record { enabled = true; host = codes "127.0.0.1"; port = codes "8888" },
  );
  file = some (codes "{}");
  past = [];
}

crash_recovered_example :
    let (w', m', r, e) =
      take_over run true json sound (codes "Wi-Fi") (pos 8888) cfg new_manager world in
    (e ≡ none)
    × (r ≡ restore_to cfg)
    × (view w'.sys (codes "Wi-Fi") web ≡ pointed run view documented permits json (pos 8888))
    × (view w'.sys (codes "Wi-Fi") secure ≡ pointed run view documented permits json (pos 8888))
    × ((passed : List (Machine × Option Text)) × (w'.past ≡ world.past ++ passed)
        × All
            (λ p.
              Restored run view documented permits json cfg
                (crashed run view documented permits json p)
                (recover run true json sound (crashed run view documented permits json p)))
            passed)
crash_recovered_example =
    crash_recovered run view documented permits json (codes "Wi-Fi") (pos 8888) cfg (codes "{}")
      new_manager world refl refl
