-- ===== src/Examples/Lost.antt =====
-- main.go where the service of a crashed run's snapshot is unplugged.
use proxysim.Prelude.{ℕ, ◌≡◌, refl, true, [], ◌∷◌, none, some, Text, codes, text_eq, if◌then◌else◌}
use proxysim.Strings.{trim_space, cut, split_on, strip_prefix, has_prefix, to_lower}
use proxysim.Strings.Signed.{pos, atoi}
use proxysim.Strings.Decimal.{parse_uint}
use proxysim.Sysproxy.{
  Runner, Codec, Mac, Config, Error, recovering, restoring_host, failed, ok, restore_to,
  securewebproxy, primary_service, snapshot, load_snapshot, command,
}
use proxysim.Sysproxy.Parse.{parse_default_interface, service_for_interface, parse_proxy_setting}
use proxysim.Sysproxy.Takeover.{
  recover, restore_config, restore_setting, set_proxy, clear_unless, and_then,
}
use proxysim.Main.{Outside, setup_system_proxy}
use proxysim.Main.Overwritten.{setup-overwrites}
use proxysim.Examples.Takeovers.{Machine}
use proxysim.Examples.Serving.{reporting, outside, corporate}

abbrev unplugged : Text
unplugged = codes "not a recognized network service"

-- no setting of the service USB can be changed
abbrev without_usb : Runner Machine
without_usb name (cmd ∷ service ∷ rest) s =
    if text_eq service (codes "USB")
    then (s, [], some unplugged)
    else reporting name (cmd ∷ service ∷ rest) s
without_usb name args s = reporting name args s

-- the user's settings, of the service USB
abbrev usb : Config
usb = record corporate { service = codes "USB" }

abbrev json : Codec
json = record { marshal = λ c. some (codes "{}"); unmarshal = λ t. some usb }

abbrev without : Outside ℕ ℕ ℕ Machine Unit
without = record outside { sys_run = without_usb; json = json }

-- as the crashed run left it
abbrev crashed : Mac Machine
crashed = record {
  sys = (
    record { enabled = true; host = codes "corp"; port = codes "3128" },
    record { enabled = true; host = codes "corp"; port = codes "3128" },
  );
  file = some (codes "usb");
  past = [];
}

abbrev recovered : Mac Machine
recovered = (recover without_usb true json without.snapshot_disk crashed).0

abbrev unplugged_error : Error
unplugged_error =
    recovering (codes "USB") (restoring_host securewebproxy (codes "USB") unplugged [])

not_recovered :
    recover without_usb true json without.snapshot_disk crashed
    ≡ (recovered, failed unplugged_error)
unfolding recover load_snapshot restore_config restore_setting clear_unless and_then command text_eq
    trim_space
not_recovered = refl

abbrev listed : Mac Machine
listed = (primary_service without_usb recovered).0

abbrev read : Mac Machine
read = (snapshot without_usb (codes "Wi-Fi") listed).0

primary : primary_service without_usb recovered ≡ (listed, ok (codes "Wi-Fi"))
unfolding primary_service command parse_default_interface service_for_interface text_eq trim_space
    cut split_on strip_prefix has_prefix
primary = refl

read_lem : snapshot without_usb (codes "Wi-Fi") listed ≡ (read, ok corporate)
unfolding snapshot command parse_proxy_setting text_eq trim_space cut split_on strip_prefix atoi
    parse_uint to_lower
read_lem = refl

setup-overwrites_example :
    let (mac', _, r, err) = setup_system_proxy without (pos 8888) crashed in
    (recovered.file ≡ some (codes "usb"))
    × (err ≡ none)
    × (r ≡ restore_to corporate)
    × (mac'.file ≡ some (codes "{}"))
unfolding set_proxy command text_eq
setup-overwrites_example =
    setup-overwrites without (pos 8888) crashed recovered listed read unplugged_error
      (codes "Wi-Fi") (codes "{}") corporate refl refl not_recovered primary read_lem refl refl
