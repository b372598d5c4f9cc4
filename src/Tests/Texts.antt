-- ===== src/Tests/Texts.antt =====
-- Command texts and string literals at concrete inputs.
use mathlib.Core.Path.{◌≡◌, refl}
use mathlib.Core.Option.{some}
use mathlib.Core.List.{[], ◌∷◌, ◌++◌, map}
use mathlib.Core.Bool.{false}
use mathlib.Core.Logic.{inl}
use mydbg.Utf8.{valid_utf8, append_utf8}
use mydbg.Utf8.RoundTrip.{valid_utf8-append_utf8}
use native.Mathlib.Omega.{arith}
use mydbg.Base.Bytes.{codes}
use mydbg.Memory.Hex.{bytes_as_hex}
use mydbg.Arguments.{split_arguments, parse_hex_bytes}
use mydbg.Arguments.Quoting
use mydbg.Arguments.HexBytes.{parse_hex_bytes-bytes_as_hex}
use mydbg.Condition.Compile.{start}
use mydbg.Condition.Literals.{parse_string}
use mydbg.Condition.Literals.Plain.{parse_string-plain}

split_arguments-command_text_example :
    split_arguments
      (Quoting.command_text (Quoting.escaped (codes "a b") ∷ Quoting.quoted (codes "c\"d") ∷ []))
    ≡ map Quoting.meant (Quoting.escaped (codes "a b") ∷ Quoting.quoted (codes "c\"d") ∷ [])
split_arguments-command_text_example =
    Quoting.split_arguments-command_text
      (Quoting.escaped (codes "a b") ∷ Quoting.quoted (codes "c\"d") ∷ [])
      (refl, ((refl, refl), tt))

split_arguments_run :
    split_arguments (codes "write 'a b' \"c\" d\\ e")
    ≡ codes "write" ∷ codes "a b" ∷ codes "c" ∷ codes "d e" ∷ []
unfolding split_arguments
split_arguments_run = refl

parse_hex_bytes-bytes_as_hex_example :
    parse_hex_bytes (bytes_as_hex (144 ∷ 10 ∷ [])) ≡ some (144 ∷ 10 ∷ [])
parse_hex_bytes-bytes_as_hex_example =
    parse_hex_bytes-bytes_as_hex 144 (10 ∷ []) (omega arith, (omega arith, tt))

parse_string-plain_example :
    ((parse_string (start (codes "\"text\")"))).0 ≡ some (codes "text"))
    × ((parse_string (start (codes "\"text\")"))).1.rest ≡ codes ")")
parse_string-plain_example =
    parse_string-plain (start (codes "\"text\")")) (codes "text") (codes ")") refl refl

valid_utf8-append_utf8_example :
    valid_utf8 (append_utf8 0x20ac ++ codes "!") ≡ valid_utf8 (codes "!")
valid_utf8-append_utf8_example =
    valid_utf8-append_utf8 0x20ac (codes "!") (omega arith, inl (omega arith))

append_utf8_run : append_utf8 0x20ac ≡ 0xe2 ∷ 0x82 ∷ 0xac ∷ []
unfolding append_utf8
append_utf8_run = refl

surrogate_run : valid_utf8 (0xed ∷ 0xa0 ∷ 0x80 ∷ []) ≡ false
unfolding valid_utf8
surrogate_run = refl
