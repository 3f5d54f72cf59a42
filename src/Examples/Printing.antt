-- ===== src/Examples/Printing.antt =====
-- internal/flow/console.go on small flows.
use proxysim.Prelude.{
  ◌*◌, ◌/◌, ◌-◌, ◌^◌, ◌≡◌, refl, true, false, ◌&&◌, [], ◌∷◌, ◌++◌, none, some, Text, codes, text_eq,
  arith, lookup,
}
use proxysim.Strings.{has_prefix, has_suffix, split_on, trim_space}
use proxysim.Strings.Decimal.{decimal}
use proxysim.Http.{Header, canonical, get}
use proxysim.Flow.Decode.{DecodeReport, decode, parse_codings}
use proxysim.Flow.Console.{Printers, newline, is_textual, write_body, emit}
use proxysim.Flow.Console.Size.{human_bytes, scale, fits, scale_lem}
use proxysim.Flow.Console.Hidden.{write_body_binary}
use proxysim.Flow.Console.Block.{mark, emit_block}
use proxysim.Examples.Data.{flow_numbered, letter_codecs}

abbrev printers : Printers
printers = record { duration = λ d. codes "5ms"; indent = λ body. none }

human_bytes_kib : human_bytes 1536 ≡ some (codes "1.5KiB")
unfolding human_bytes decimal
human_bytes_kib = refl

-- a tie goes to the even digit, and rounding does not move on to the next unit
human_bytes_tie : human_bytes 1280 ≡ some (codes "1.2KiB")
unfolding human_bytes decimal
human_bytes_tie = refl

human_bytes_below : human_bytes (1024 * 1024 - 1) ≡ some (codes "1024.0KiB")
unfolding human_bytes decimal
human_bytes_below = refl

scale_lem_example : fits (scale 6 (2 ^ 40 / 1024) 1024 0) (2 ^ 40) ≡ true
scale_lem_example = scale_lem (2 ^ 40) (omega arith) (omega arith)

emit_block_example :
    (block : Text) × ((w : Text)
      → emit printers letter_codecs true (flow_numbered 7) w ≡ some (w ++ block))
    × ((has_prefix block (mark (flow_numbered 7)) && has_suffix block newline) ≡ true)
emit_block_example =
    emit_block printers letter_codecs true (flow_numbered 7) (omega arith) (omega arith)

abbrev image : Header
image = (codes "Content-Type", codes "image/png" ∷ []) ∷ []

abbrev one : Text
one = 137 ∷ 80 ∷ []

abbrev two : Text
two = 0 ∷ 27 ∷ []

abbrev plain : DecodeReport
plain = record { encodings = []; decoded = false; partial = false; note = [] }

write_body_binary_example :
    write_body printers letter_codecs [] (codes "Body") image one false
    ≡ write_body printers letter_codecs [] (codes "Body") image two false
unfolding decode get canonical parse_codings split_on trim_space lookup text_eq is_textual
write_body_binary_example =
    write_body_binary printers letter_codecs [] (codes "Body") image one two one two plain false
      refl refl refl refl refl refl
