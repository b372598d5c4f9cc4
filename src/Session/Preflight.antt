-- ===== src/Session/Preflight.antt =====
-- src/backend/session/SessionStore.cpp: `JsonPreflight`. The position is the rest of the text, and a
-- function that moves it returns the new rest.
use mydbg.Base.{
  ℕ, zero, suc, ◌+◌, ◌-◌, ◌*◌, ◌^◌, Bool, true, false, not, ◌&&◌, ◌||◌, Option, none, some, [], ◌∷◌,
  leb, ltb, ◌==◌, if◌then◌else◌, length, drop, take_while, drop_while,
}
use mydbg.Base.Bytes.{Bytes, codes, is_digit, hex_value, starts_with}
use mydbg.Session.Data.{
  Key, Result, ok, err, ◌>>=◌, ◌>>◌, require, Utf8Decode, malformed, limit, invalid_text,
  max_string, max_document,
}

abbrev pub is_blank : ℕ → Bool
is_blank c = c == b' ' || c == 9 || c == 13 || c == 10

-- `whitespace`
abbrev pub skip_blanks : Bytes → Bytes
skip_blanks = drop_while is_blank

-- `expect`
unfoldable pub expect : ℕ → Bytes → Result Bytes
expect ch [] = err malformed
expect ch (c ∷ cs) = if c == ch then ok cs else err malformed

abbrev quad_from : Option ℕ → Option ℕ → Option ℕ → Option ℕ → Result ℕ
quad_from (some a) (some b) (some c) (some d) = ok (((a * 16 + b) * 16 + c) * 16 + d)
quad_from _ _ _ _ = err malformed

-- `hex_quad`, of the four bytes before the rest
unfoldable pub hex_quad : Bytes → Result ℕ
unfolding hex_value
hex_quad (a ∷ b ∷ c ∷ d ∷ rest) = quad_from (hex_value a) (hex_value b) (hex_value c) (hex_value d)
hex_quad _ = err malformed

unfoldable pub low_surrogate : Bytes → Result ℕ
unfolding hex_quad expect
low_surrogate after = do
  escaped ← expect b'\\' after
  digits ← expect b'u' escaped
  low ← hex_quad digits
  require (leb 0xdc00 low && leb low 0xdfff) invalid_text
  ok 10

-- The length of what stands behind `\u`, the low surrogate included
unfoldable pub unicode_escape : Bytes → Result ℕ
unfolding hex_quad low_surrogate
unicode_escape rest = do
  point ← hex_quad rest
  require (not (point == 0 || (leb 0xdc00 point && leb point 0xdfff))) invalid_text
  if leb 0xd800 point && leb point 0xdbff then low_surrogate (drop 4 rest) else ok 4

abbrev is_escape : ℕ → Bool
is_escape c =
    c == b'"'
    || c == b'\\'
    || c == b'/'
    || c == b'b'
    || c == b'f'
    || c == b'n'
    || c == b'r'
    || c == b't'

-- What stands next in a string: its end, an error, or a character that moves the position by so many
-- bytes
pub data Character : Type 0 where
  closes : Character
  wrong : Key → Character
  continues : ℕ → Character

-- the backslash and the `u` with what stands behind them
abbrev pub escaped_point : Result ℕ → Character
escaped_point (ok n) = continues (n + 2)
escaped_point (err key) = wrong key

-- behind the backslash
unfoldable pub escape : Bytes → Character
unfolding unicode_escape
escape [] = wrong malformed
escape (c ∷ cs) =
    if c == b'u'
    then escaped_point (unicode_escape cs)
    else if is_escape c
    then continues 2
    else wrong malformed

abbrev decimal : ℕ → Bytes → ℕ
decimal value [] = value
decimal value (c ∷ cs) = decimal (value * 10 + (c - b'0')) cs

-- A number, which has to fit 64 bits
unfoldable pub number : Bytes → Result Bytes
unfolding is_digit
number [] = err malformed
number (c ∷ cs) =
    if c == b'0'
    then ok cs
    else if not (is_digit c)
    then err malformed
    else if ltb (decimal 0 (take_while is_digit (c ∷ cs))) (2 ^ 64)
    then ok (drop_while is_digit (c ∷ cs))
    else err malformed

-- What a value begins with: an object or an array that is not closed at once, or a whole value
pub data Start : Type 0 where
  opens : (is_object : Bool) → Bytes → Start
  whole : Option (Result Bytes) → Start

abbrev pub closing : (is_object : Bool) → ℕ
closing true = b'}'
closing false = b']'

-- behind the bracket
unfoldable pub opened : (is_object : Bool) → Bytes → Start
opened is_object [] = opens is_object []
opened is_object (c ∷ cs) =
    if c == closing is_object then whole (some (ok cs)) else opens is_object (c ∷ cs)

abbrev pub max_nodes : ℕ
max_nodes = 524288

abbrev pub max_depth : ℕ
max_depth = 64

-- The rest, and the number of values so far
abbrev pub State : Type 0
State = Bytes × ℕ

-- `value`, and its loop over the members of an object or an array
pub data Mode : Type 0 where
  at_value : Mode
  at_member : (is_object : Bool) → Mode

-- behind a member: its end, or a comma and the next one
pub data Behind : Type 0 where
  last : Bytes → Behind
  next : Bytes → Behind
  neither : Behind

unfoldable pub behind : (is_object : Bool) → Bytes → Behind
behind is_object [] = neither
behind is_object (c ∷ cs) =
    if c == closing is_object then last cs else if c == b',' then next cs else neither

abbrev pub with_nodes : ℕ → Result Bytes → Result State
with_nodes nodes (ok rest) = ok (rest, nodes)
with_nodes nodes (err key) = err key

abbrev pub finished : Option (Result State) → Option (Result (Unit {0}))
finished none = none
finished (some (err key)) = some (err key)
finished (some (ok (rest, nodes))) = some (require (length (skip_blanks rest) == 0) malformed)

-- What the loops do next, with their next round as a function
abbrev pub Next : Type 0
Next = Option (Result State)

unfoldable pub after_character :
    Character → (consumed : ℕ) → Bytes → (ℕ → Option (Result Bytes)) → Option (Result Bytes)
after_character closes consumed cs round = some (ok cs)
after_character (wrong key) consumed cs round = some (err key)
after_character (continues n) consumed cs round =
    if ltb (max_string * 6) (consumed + n) then some (err limit) else round n

-- behind the quote that a string opens with
unfoldable pub after_quote : Result Bytes → (Bytes → Option (Result Bytes)) → Option (Result Bytes)
after_quote (ok body) read = read body
after_quote (err key) read = some (err key)

-- `whitespace` and the colon behind the key of a member
unfoldable pub then_colon : Option (Result Bytes) → Option (Result Bytes)
unfolding expect
then_colon none = none
then_colon (some (err key)) = some (err key)
then_colon (some (ok after)) = some (expect b':' (skip_blanks after))

unfoldable pub after_start : Start → (nodes : ℕ) → (Bool → Bytes → Next) → Next
after_start (whole none) nodes members = none
after_start (whole (some r)) nodes members = some (with_nodes nodes r)
after_start (opens is_object inner) nodes members = members is_object inner

unfoldable pub after_key : Option (Result Bytes) → (Bytes → Next) → Next
after_key none read_value = none
after_key (some (ok rest)) read_value = read_value rest
after_key (some (err key)) read_value = some (err key)

unfoldable pub after_value : Next → (Bytes → ℕ → Next) → Next
after_value none go_on = none
after_value (some (err key)) go_on = some (err key)
after_value (some (ok (rest, nodes))) go_on = go_on rest nodes

unfoldable pub after_member : Behind → (nodes : ℕ) → (Bytes → Next) → Next
after_member (last rest) nodes members = some (ok (rest, nodes))
after_member (next rest) nodes members = members rest
after_member neither nodes members = some (err malformed)

module _ (utf8_decode : Utf8Decode) where
  unfoldable pub character : ℕ → Bytes → Character
  unfolding escape
  character c rest =
      let (size, point) = utf8_decode (c ∷ rest) in
      if c == b'"'
      then closes
      else if ltb c 0x20
      then wrong malformed
      else if c == b'\\'
      then escape rest
      else if leb 0x80 c
      then if size == 0 || ltb 0x10ffff point || (leb 0xd800 point && leb point 0xdfff)
        then wrong invalid_text
        else continues size
      else continues 1

  -- The loop of `string`, a character a round, `consumed` bytes behind its start. `none` is the lack
  -- of fuel: a character that does not move the position would be read for ever.
  unfoldable pub string_body : (fuel consumed : ℕ) → Bytes → Option (Result Bytes)
  unfolding character after_character
  string_body zero consumed rest = none
  string_body (suc fuel) consumed [] = some (err malformed)
  string_body (suc fuel) consumed (c ∷ cs) =
      after_character (character c cs) consumed cs
        (λ n. string_body fuel (consumed + n) (drop n (c ∷ cs)))

  unfoldable pub string : Bytes → Option (Result Bytes)
  unfolding expect string_body after_quote
  string rest = after_quote (expect b'"' rest) (λ body. string_body (length body + 1) 0 body)

  unfoldable pub start_value : Bytes → Start
  unfolding string number opened starts_with
  start_value [] = whole (some (err malformed))
  start_value (c ∷ cs) =
      if c == b'{' || c == b'['
      then opened (c == b'{') (skip_blanks cs)
      else if c == b'"'
      then whole (string (c ∷ cs))
      else if starts_with (codes "true") (c ∷ cs)
      then whole (some (ok (drop 4 (c ∷ cs))))
      else if starts_with (codes "false") (c ∷ cs)
      then whole (some (ok (drop 5 (c ∷ cs))))
      else whole (some (number (c ∷ cs)))

  -- The key of a member, up to its colon
  unfoldable pub member_key : (is_object : Bool) → Bytes → Option (Result Bytes)
  unfolding string then_colon
  member_key false rest = some (ok rest)
  member_key true rest = then_colon (string rest)

  -- `none` is the lack of fuel.
  unfoldable pub run : (fuel : ℕ) → Mode → (depth : ℕ) → State → Option (Result State)
  unfolding start_value member_key behind after_start after_key after_value after_member
  run zero mode depth s = none
  run (suc fuel) at_value depth (rest, nodes) =
      if ltb max_depth depth || ltb max_nodes (nodes + 1)
      then some (err limit)
      else after_start (start_value (skip_blanks rest)) (nodes + 1)
          (λ is_object inner. run fuel (at_member is_object) depth (inner, nodes + 1))
  run (suc fuel) (at_member is_object) depth (rest, nodes) =
      after_key (member_key is_object (skip_blanks rest)) (λ value_text.
        after_value (run fuel at_value (depth + 1) (value_text, nodes)) (λ after count.
          after_member (behind is_object (skip_blanks after)) count
            (λ others. run fuel (at_member is_object) depth (others, count))))

  -- `check`
  unfoldable pub check : Bytes → Option (Result (Unit {0}))
  unfolding run
  check input =
      if ltb max_document (length input)
      then some (err limit)
      else finished (run (length input * 2 + 1) at_value 0 (input, 0))
