-- ===== src/Session/Shorter.antt =====
-- src/backend/session/SessionStore.cpp: what `JsonPreflight` reads of a text leaves a shorter one.
use mydbg.Base.{
  ℕ, zero, suc, ◌+◌, ◌≤◌, ◌<◌, Option, none, some, drop, [], ◌∷◌, arith, length, length-drop,
  length-drop_while-le,
}
use mydbg.Base.Bytes.{Bytes, is_digit}
use mydbg.Session.Data.{Result, ok, err, Utf8Decode}
use mydbg.Session.Preflight.{
  after_character, expect, number, Start, opens, whole, Character, closes, wrong, continues,
  character, string_body, string, escape, unicode_escape, escaped_point, after_quote, Behind, last,
  next, neither,
}

-- What is left is shorter, or there is an error.
abbrev pub ShorterResult : Bytes → Result Bytes → Type 0
ShorterResult before (ok rest) = length rest < length before
ShorterResult before (err key) = Unit

-- There was fuel as well.
abbrev pub ShorterText : Bytes → Option (Result Bytes) → Type 0
ShorterText before none = ⊥
ShorterText before (some r) = ShorterResult before r

abbrev pub ShorterStart : Bytes → Start → Type 0
ShorterStart before (opens is_object rest) = length rest < length before
ShorterStart before (whole o) = ShorterText before o

abbrev pub ShorterBehind : Bytes → Behind → Type 0
ShorterBehind before (last rest) = length rest < length before
ShorterBehind before (next rest) = length rest < length before
ShorterBehind before neither = Unit

pub expect-ShorterResult : (ch : ℕ) (rest : Bytes) → ShorterResult rest (expect ch rest)
unfolding expect
expect-ShorterResult ch [] = tt
expect-ShorterResult ch (c ∷ cs) = ground arith

pub number-ShorterResult : (rest : Bytes) → ShorterResult rest (number rest)
unfolding number
number-ShorterResult [] = tt
number-ShorterResult (c ∷ cs) = ground (arith, length-drop_while-le is_digit cs)

longer :
    (before middle : Bytes) (o : Option (Result Bytes))
    → length middle ≤ length before
    → ShorterText middle o
    → ShorterText before o
longer before middle none h s = s
longer before middle (some (ok rest)) h s = omega (arith, h, s)
longer before middle (some (err key)) h s = tt

-- A character moves the position.
abbrev Moves : Character → Type 0
Moves closes = Unit
Moves (wrong key) = Unit
Moves (continues n) = 1 ≤ n

escaped_point-Moves : (r : Result ℕ) → Moves (escaped_point r)
escaped_point-Moves (ok n) = omega arith
escaped_point-Moves (err key) = tt

escape-Moves : (rest : Bytes) → Moves (escape rest)
unfolding escape
escape-Moves [] = tt
escape-Moves (c ∷ cs) = ground (arith, escaped_point-Moves (unicode_escape cs))

character-Moves :
    (utf8_decode : Utf8Decode) (c : ℕ) (rest : Bytes) → Moves (character utf8_decode c rest)
unfolding character
character-Moves utf8_decode c rest = ground (arith, escape-Moves rest)

after_character-ShorterText :
    (ch : Character) (consumed : ℕ) (cs : Bytes) (c : ℕ) (round : ℕ → Option (Result Bytes))
    → Moves ch
    → ((n : ℕ) → 1 ≤ n → ShorterText (c ∷ cs) (round n))
    → ShorterText (c ∷ cs) (after_character ch consumed cs round)
unfolding after_character
after_character-ShorterText closes consumed cs c round m h = omega arith
after_character-ShorterText (wrong key) consumed cs c round m h = tt
after_character-ShorterText (continues n) consumed cs c round m h =
    let shorter = h n m in ground (arith, shorter)

module _ (utf8_decode : Utf8Decode) where
  -- As much fuel as there are bytes, and one, is enough, since each character moves the position.
  string_body-ShorterText :
      (fuel consumed : ℕ) (rest : Bytes)
      → length rest < fuel
      → ShorterText rest (string_body utf8_decode fuel consumed rest)
  unfolding string_body
  string_body-ShorterText zero consumed rest enough = absurd (omega (arith, enough))
  string_body-ShorterText (suc fuel) consumed [] enough = tt
  string_body-ShorterText (suc fuel) consumed (c ∷ cs) enough =
      after_character-ShorterText (character utf8_decode c cs) consumed cs c _
        (character-Moves utf8_decode c cs)
        (λ n moved.
          let dropped = length-drop n (c ∷ cs) in
          longer (c ∷ cs) (drop n (c ∷ cs))
            (string_body utf8_decode fuel (consumed + n) (drop n (c ∷ cs))) (omega (arith, dropped))
            (string_body-ShorterText fuel (consumed + n) (drop n (c ∷ cs))
              (omega (arith, dropped, moved, enough))))

  pub string-ShorterText : (rest : Bytes) → ShorterText rest (string utf8_decode rest)
  unfolding string after_quote
  string-ShorterText rest = quoted (expect b'"' rest) (expect-ShorterResult b'"' rest)
    where
      quoted :
          (r : Result Bytes)
          → ShorterResult rest r
          → ShorterText rest
              (after_quote r (λ body. string_body utf8_decode (length body + 1) 0 body))
      quoted (ok body) h =
          longer rest body (string_body utf8_decode (length body + 1) 0 body) (omega (arith, h))
            (string_body-ShorterText (length body + 1) 0 body (omega arith))
      quoted (err key) h = tt
