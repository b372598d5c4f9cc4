-- ===== src/Memory/Hex/RoundTrip.antt =====
-- `parse_hex_byte_text` on the text of bytes: `bytes_as_hex` and the hexadecimal memory copy.
use mydbg.Base.{
  ℕ, zero, suc, ◌≤◌, ◌<◌, ◌≡◌, refl, sym, ap, ◌∙◌, false, Option, some, [], ◌∷◌, ◌++◌, append-nil,
  append_assoc, arith, length, take_while, drop_while,
}
use mydbg.Base.Bytes.{Bytes}
use mydbg.Base.Endian.{AreBytes}
use mydbg.Memory.Hex.{
  lower_digits, is_separator, is_not_separator, joined, parse_token, parse_tokens,
  parse_hex_byte_text, hex_byte, append_bytes_as_hex, bytes_as_hex,
}
use mydbg.Memory.Hex.Digits.{
  high, low, GoodDigits, lower_digits-GoodDigits, spaced, hex_text, good_bytes, parse_pair,
}

module _ (digits : Bytes) (good : GoodDigits digits) where
  next_token :
      (byte : ℕ) (bytes : Bytes)
      → byte < 256
      → take_while is_not_separator (high digits byte ∷ low digits byte ∷ spaced digits bytes)
        ≡ high digits byte ∷ low digits byte ∷ []
  unfolding is_separator
  next_token byte [] h = ground (arith, good_bytes digits good byte h)
  next_token byte (b ∷ bytes) h = ground (arith, good_bytes digits good byte h)

  behind_token :
      (byte : ℕ) (bytes : Bytes)
      → byte < 256
      → drop_while is_not_separator (high digits byte ∷ low digits byte ∷ spaced digits bytes)
        ≡ spaced digits bytes
  unfolding is_separator
  behind_token byte [] h = ground (arith, good_bytes digits good byte h)
  behind_token byte (b ∷ bytes) h = ground (arith, good_bytes digits good byte h)

  first_round :
      (fuel c : ℕ) (cs : Bytes)
      → is_separator c ≡ false
      → parse_tokens (suc fuel) (c ∷ cs)
        ≡ joined
            (parse_token (take_while is_not_separator (c ∷ cs)))
            (parse_tokens fuel (drop_while is_not_separator (c ∷ cs)))
  unfolding parse_tokens
  first_round fuel c cs h = ground (arith, h)

  first_token :
      (fuel byte : ℕ) (bytes : Bytes)
      → byte < 256
      → parse_tokens fuel (spaced digits bytes) ≡ some bytes
      → parse_tokens (suc fuel) (hex_text digits (byte ∷ bytes)) ≡ some (byte ∷ bytes)
  first_token fuel byte bytes h e =
      first_round fuel (high digits byte) (low digits byte ∷ spaced digits bytes)
        (good_bytes digits good byte h).1
      ∙ ap
          (λ (t : Bytes).
            joined (parse_token t)
              (parse_tokens fuel (drop_while is_not_separator (hex_text digits (byte ∷ bytes)))))
          (next_token byte bytes h)
      ∙ ap
          (λ (t : Option Bytes).
            joined t
              (parse_tokens fuel (drop_while is_not_separator (hex_text digits (byte ∷ bytes)))))
          (parse_pair digits good byte h)
      ∙ ap (λ (t : Bytes). joined (some (byte ∷ [])) (parse_tokens fuel t))
          (behind_token byte bytes h)
      ∙ ap (joined (some (byte ∷ []))) e

  parse_tokens-spaced :
      (fuel : ℕ) (bytes : Bytes)
      → AreBytes bytes
      → length bytes ≤ fuel
      → parse_tokens fuel (spaced digits bytes) ≡ some bytes
  unfolding parse_tokens is_separator
  parse_tokens-spaced zero [] h l = refl
  parse_tokens-spaced zero (b ∷ bytes) h l = absurd (omega arith)
  parse_tokens-spaced (suc fuel) [] h l = refl
  parse_tokens-spaced (suc fuel) (b ∷ bytes) (h, hs) l =
      first_token fuel b bytes h (parse_tokens-spaced fuel bytes hs (omega arith))

  length-spaced : (bytes : Bytes) → length bytes ≤ length (spaced digits bytes)
  length-spaced [] = omega arith
  length-spaced (b ∷ bytes) = omega (arith, length-spaced bytes)

  pub parse_hex_byte_text-hex_text :
      (byte : ℕ) (bytes : Bytes)
      → AreBytes (byte ∷ bytes)
      → parse_hex_byte_text (hex_text digits (byte ∷ bytes)) ≡ some (byte ∷ bytes)
  unfolding parse_hex_byte_text
  parse_hex_byte_text-hex_text byte bytes (h, hs) =
      rw
        (first_token (suc (length (spaced digits bytes))) byte bytes h (
          parse_tokens-spaced (suc (length (spaced digits bytes))) bytes hs
            (omega (arith, length-spaced bytes))))
        refl

append_bytes_as_hex-spaced :
    (c : ℕ) (cs bytes : Bytes)
    → append_bytes_as_hex (c ∷ cs) bytes ≡ (c ∷ cs) ++ spaced lower_digits bytes
unfolding append_bytes_as_hex hex_byte
append_bytes_as_hex-spaced c cs [] = sym (append-nil (c ∷ cs))
append_bytes_as_hex-spaced c cs (b ∷ bytes) =
    append_bytes_as_hex-spaced c (cs ++ b' ' ∷ high lower_digits b ∷ low lower_digits b ∷ []) bytes
    ∙ append_assoc (c ∷ cs) (b' ' ∷ high lower_digits b ∷ low lower_digits b ∷ [])
        (spaced lower_digits bytes)

pub bytes_as_hex-hex_text : (bytes : Bytes) → bytes_as_hex bytes ≡ hex_text lower_digits bytes
unfolding bytes_as_hex append_bytes_as_hex hex_byte
bytes_as_hex-hex_text [] = refl
bytes_as_hex-hex_text (b ∷ bytes) =
    append_bytes_as_hex-spaced (high lower_digits b) (low lower_digits b ∷ []) bytes

-- The text that `bytes_as_hex` gives for one byte or more reads back as these bytes.
pub parse_hex_byte_text-bytes_as_hex :
    (byte : ℕ) (bytes : Bytes)
    → AreBytes (byte ∷ bytes)
    → parse_hex_byte_text (bytes_as_hex (byte ∷ bytes)) ≡ some (byte ∷ bytes)
parse_hex_byte_text-bytes_as_hex byte bytes h =
    ap parse_hex_byte_text (bytes_as_hex-hex_text (byte ∷ bytes))
    ∙ parse_hex_byte_text-hex_text lower_digits lower_digits-GoodDigits byte bytes h
