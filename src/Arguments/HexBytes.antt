-- ===== src/Arguments/HexBytes.antt =====
-- `parse_hex_bytes` on the text that `bytes_as_hex` gives.
use mydbg.Base.{
  ℕ, ◌<◌, ◌≡◌, refl, ap, ◌∙◌, Bool, true, not, ◌&&◌, some, List, [], ◌∷◌, ◌++◌, map, append_assoc,
  arith, ◌==◌, and-eq-true,
}
use mydbg.Base.Bytes.{Bytes, is_space}
use mydbg.Base.Words.{all_below, all_below_sound}
use mydbg.Base.Endian.{AreBytes}
use mydbg.Memory.Hex.{lower_digits, bytes_as_hex}
use mydbg.Memory.Hex.Digits.{high, low, lower_digits-GoodDigits, spaced, hex_text, parse_pair}
use mydbg.Memory.Hex.RoundTrip.{bytes_as_hex-hex_text}
use mydbg.Arguments.{
  Splitter, push_current, push_argument, split_character, split_characters, finish, split_arguments,
  parse_hex_tokens, parse_hex_bytes,
}
use mydbg.Arguments.Quoting.{outside}

abbrev plain : ℕ → Bool
plain c = not (is_space c) && not (c == b'\\') && not (c == 39) && not (c == b'"')

plain_table : all_below 256 (λ b. plain (high lower_digits b) && plain (low lower_digits b)) ≡ true
unfolding all_below is_space
plain_table = refl

split-plain :
    (arguments : List Bytes) (current : Bytes) (c : ℕ)
    → plain c ≡ true
    → split_character (outside arguments current) c ≡ outside arguments (current ++ (c ∷ []))
unfolding split_character push_current
split-plain arguments current c h = ground (arith, h)

abbrev pair : ℕ → Bytes
pair b = high lower_digits b ∷ low lower_digits b ∷ []

split-pair :
    (arguments : List Bytes) (b : ℕ) (rest : Bytes)
    → b < 256
    → split_characters (outside arguments []) (pair b ++ rest)
      ≡ split_characters (outside arguments (pair b)) rest
unfolding split_characters
split-pair arguments b rest h =
    let both =
      and-eq-true (plain (high lower_digits b)) (plain (low lower_digits b))
        (all_below_sound 256 _ b plain_table h) in
    ap (λ (s : Splitter). split_characters s (low lower_digits b ∷ rest))
      (split-plain arguments [] (high lower_digits b) both.0)
    ∙ ap (λ (s : Splitter). split_characters s rest)
        (split-plain arguments (high lower_digits b ∷ []) (low lower_digits b) both.1)

split-spaced :
    (arguments : List Bytes) (b : ℕ) (bytes : Bytes)
    → AreBytes bytes
    → finish (split_characters (outside arguments (pair b)) (spaced lower_digits bytes))
      ≡ arguments ++ (pair b ∷ map pair bytes)
unfolding finish split_characters split_character push_argument is_space
split-spaced arguments b [] h = refl
split-spaced arguments b (c ∷ bytes) (h, hs) =
    ap finish (split-pair (arguments ++ (pair b ∷ [])) c (spaced lower_digits bytes) h)
    ∙ split-spaced (arguments ++ (pair b ∷ [])) c bytes hs
    ∙ append_assoc arguments (pair b ∷ []) (pair c ∷ map pair bytes)

parse_hex_tokens-pairs :
    (bytes : Bytes) → AreBytes bytes → parse_hex_tokens (map pair bytes) ≡ some bytes
unfolding parse_hex_tokens
parse_hex_tokens-pairs [] h = refl
parse_hex_tokens-pairs (b ∷ bytes) (h, hs) =
    rw (parse_pair lower_digits lower_digits-GoodDigits b h, parse_hex_tokens-pairs bytes hs) refl

split_arguments-hex_text :
    (byte : ℕ) (bytes : Bytes)
    → AreBytes (byte ∷ bytes)
    → split_arguments (hex_text lower_digits (byte ∷ bytes)) ≡ map pair (byte ∷ bytes)
unfolding split_arguments
split_arguments-hex_text byte bytes (h, hs) =
    ap finish (split-pair [] byte (spaced lower_digits bytes) h) ∙ split-spaced [] byte bytes hs

-- The engine reads the text that the application makes of one byte or more, `bytes_as_hex`, as these
-- bytes.
pub parse_hex_bytes-bytes_as_hex :
    (byte : ℕ) (bytes : Bytes)
    → AreBytes (byte ∷ bytes)
    → parse_hex_bytes (bytes_as_hex (byte ∷ bytes)) ≡ some (byte ∷ bytes)
unfolding parse_hex_bytes
parse_hex_bytes-bytes_as_hex byte bytes h =
    rw
      (
        bytes_as_hex-hex_text (byte ∷ bytes),
        split_arguments-hex_text byte bytes h,
        parse_hex_tokens-pairs (byte ∷ bytes) h,
      )
      refl
