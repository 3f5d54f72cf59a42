-- ===== src/Sysproxy/Parse.antt =====
-- What internal/sysproxy/sysproxy.go reads from the reports of `route` and `networksetup`.
use proxysim.Prelude.{
  Bool, true, false, not, ◌&&◌, List, [], ◌∷◌, Option, none, some, Text, codes, text_eq, is_nil,
  if◌then◌else◌,
}
use proxysim.Strings.{cut, has_prefix, split_on, strip_prefix, to_lower, trim_space}
use proxysim.Strings.Signed.{ℤ, pos, atoi}
use mathlib.Core.List.{reverse}

pub record Setting : Type 0 where
  pub enabled : Bool
  pub host : Text
  pub port : ℤ

-- `none` is ErrNoPrimaryService
unfoldable pub first_interface : List Text → Option Text
first_interface [] = none
first_interface (line ∷ rest) =
    let later = first_interface rest in
    elim (cut line (codes ":")) [
      | none ↦ later
      | some (key, val) ↦
          if text_eq (trim_space key) (codes "interface") && not (is_nil (trim_space val))
          then some (trim_space val)
          else later
    ]

unfoldable pub parse_default_interface : Text → Option Text
unfolding first_interface
parse_default_interface out = first_interface (split_on b'\n' out)

unfoldable pub header_name : Text → Text
header_name line = elim (cut line (codes ") ")) [
  | none ↦ []
  | some (before, after) ↦ trim_space after
]

-- `strings.TrimSuffix` of a closing parenthesis
unfoldable pub trim_paren : Text → Text
trim_paren s = elim (strip_prefix (codes ")") (reverse s)) [ none ↦ s | some front ↦ reverse front ]

unfoldable pub device_of : Text → Text
unfolding trim_paren
device_of line = elim (cut line (codes "Device: ")) [
  | none ↦ []
  | some (before, after) ↦ trim_space (trim_paren (trim_space after))
]

-- `strings.TrimRight(raw, "\r")`
unfoldable pub trim_cr : Text → Text
trim_cr [] = []
trim_cr (c ∷ s) = let rest = trim_cr s in if text_eq (c ∷ rest) (codes "\r") then [] else c ∷ rest

-- the loop of `serviceForInterface`, with the name of the last header line
unfoldable pub scan_services : Text → Text → List Text → Option Text
unfolding header_name device_of trim_cr
scan_services iface name [] = none
scan_services iface name (raw ∷ rest) =
    let line = trim_space (trim_cr raw) in
    let blank = scan_services iface [] rest in
    let same = scan_services iface name rest in
    let header = scan_services iface (header_name line) rest in
    if is_nil line
    then blank
    else if has_prefix line (codes "(Hardware Port:")
    then (if text_eq (device_of line) iface && not (is_nil name) then some name else same)
    else if has_prefix line (codes "(")
    then header
    else same

unfoldable pub service_for_interface : Text → Text → Option Text
unfolding scan_services
service_for_interface out iface = scan_services iface [] (split_on b'\n' out)

-- `strings.EqualFold(val, "Yes")`: no other code point folds to an ASCII letter of the word but the
-- long s, U+017F, which UTF-8 writes with the bytes 197 and 191.
unfoldable pub is_yes : Text → Bool
is_yes val =
    if text_eq (to_lower val) (codes "yes")
    then true
    else text_eq (to_lower val) (b'y' ∷ b'e' ∷ 197 ∷ 191 ∷ [])

unfoldable pub read_line : Setting → Text → Setting
unfolding is_yes
read_line s line = elim (cut line (codes ":")) [
  | none ↦ s
  | some (key, raw) ↦
      let val = trim_space raw in
      if text_eq (trim_space key) (codes "Enabled")
      then record s { enabled = is_yes val }
      else if text_eq (trim_space key) (codes "Server")
      then record s { host = val }
      else if text_eq (trim_space key) (codes "Port")
      then elim (atoi val) [ none ↦ s | some n ↦ record s { port = n } ]
      else s
]

unfoldable pub read_lines : Setting → List Text → Setting
unfolding read_line
read_lines s [] = s
read_lines s (line ∷ rest) = read_lines (read_line s line) rest

unfoldable pub parse_proxy_setting : Text → Setting
unfolding read_lines
parse_proxy_setting out =
    read_lines (record { enabled = false; host = []; port = pos 0 }) (split_on b'\n' out)
