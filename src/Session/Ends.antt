-- ===== src/Session/Ends.antt =====
-- The check of src/backend/session/SessionStore.cpp before a text is parsed comes to an end.
use mydbg.Base.{
  ℕ, zero, suc, ◌+◌, ◌*◌, ◌≤◌, ◌<◌, ◌≡◌, refl, Bool, true, false, ◌||◌, Option, none, some, [], ◌∷◌,
  arith, ltb, ◌==◌, if◌then◌else◌, length, length-drop, length-drop_while-le,
}
use mydbg.Base.Bytes.{Bytes, starts_with}
use mydbg.Session.Data.{Result, ok, err, Utf8Decode, max_document, limit}
use mydbg.Session.Preflight.{
  max_depth, max_nodes, is_blank, after_start, after_key, after_value, after_member, Next,
  skip_blanks, expect, Start, opens, whole, opened, start_value, string, then_colon, member_key,
  Behind, last, next, neither, behind, Mode, at_value, at_member, run, finished, check,
}
use mydbg.Session.Shorter.{
  ShorterResult, ShorterText, ShorterStart, ShorterBehind, expect-ShorterResult,
  number-ShorterResult, string-ShorterText,
}

behind-ShorterBehind :
    (is_object : Bool) (rest : Bytes) → ShorterBehind rest (behind is_object rest)
unfolding behind
behind-ShorterBehind is_object [] = tt
behind-ShorterBehind is_object (c ∷ cs) = ground arith

opened-ShorterStart :
    (is_object : Bool) (rest before : Bytes)
    → length rest < length before
    → ShorterStart before (opened is_object rest)
unfolding opened
opened-ShorterStart is_object [] before h = h
opened-ShorterStart is_object (d ∷ rest) before h = ground (arith, h)

blanks_shorter : (c : ℕ) (cs : Bytes) → length (skip_blanks cs) < length (c ∷ cs)
blanks_shorter c cs = omega (arith, length-drop_while-le is_blank cs)

-- A key leaves at most what was there.
abbrev KeyBound : Bytes → Option (Result Bytes) → Type 0
KeyBound before none = ⊥
KeyBound before (some (ok rest)) = length rest ≤ length before
KeyBound before (some (err key)) = Unit

-- There was fuel, and what is left is shorter, or there is an error.
abbrev Ends : Bytes → Next → Type 0
Ends before none = ⊥
Ends before (some (err key)) = Unit
Ends before (some (ok (rest, nodes))) = length rest < length before

abbrev need : Mode → Bytes → ℕ
need at_value rest = length rest * 2 + 1
need (at_member is_object) rest = length rest * 2 + 2

Ends-longer :
    (before middle : Bytes) (o : Next)
    → length middle ≤ length before
    → Ends middle o
    → Ends before o
Ends-longer before middle none h e = e
Ends-longer before middle (some (err key)) h e = tt
Ends-longer before middle (some (ok (rest, nodes))) h e = omega (arith, h, e)

limited :
    (b : Bool) (before : Bytes) (o : Next)
    → Ends before o
    → Ends before (if b then some (err limit) else o)
limited true before o e = tt
limited false before o e = e

after_start-Ends :
    (before : Bytes) (start : Start) (nodes : ℕ) (members : Bool → Bytes → Next)
    → length (skip_blanks before) ≤ length before
    → ShorterStart (skip_blanks before) start
    → ((is_object : Bool) (inner : Bytes)
        → length inner < length (skip_blanks before)
        → Ends inner (members is_object inner))
    → Ends before (after_start start nodes members)
unfolding after_start
after_start-Ends before (whole none) nodes members blanks s h = elim s [ ]
after_start-Ends before (whole (some (ok rest))) nodes members blanks s h = omega (arith, blanks, s)
after_start-Ends before (whole (some (err key))) nodes members blanks s h = tt
after_start-Ends before (opens is_object inner) nodes members blanks s h =
    Ends-longer before inner (members is_object inner) (omega (arith, blanks, s))
      (h is_object inner s)

after_key-Ends :
    (before : Bytes) (key : Option (Result Bytes)) (read_value : Bytes → Next)
    → KeyBound (skip_blanks before) key
    → ((text : Bytes) → length text ≤ length (skip_blanks before) → Ends before (read_value text))
    → Ends before (after_key key read_value)
unfolding after_key
after_key-Ends before none read_value b h = elim b [ ]
after_key-Ends before (some (ok text)) read_value b h = h text b
after_key-Ends before (some (err key)) read_value b h = tt

after_value-Ends :
    (before text : Bytes) (value : Next) (go_on : Bytes → ℕ → Next)
    → Ends text value
    → ((rest : Bytes) (nodes : ℕ) → length rest < length text → Ends before (go_on rest nodes))
    → Ends before (after_value value go_on)
unfolding after_value
after_value-Ends before text none go_on e h = elim e [ ]
after_value-Ends before text (some (err key)) go_on e h = tt
after_value-Ends before text (some (ok (rest, nodes))) go_on e h = h rest nodes e

after_member-Ends :
    (before after : Bytes) (b : Behind) (nodes : ℕ) (members : Bytes → Next)
    → ShorterBehind after b
    → length after ≤ length before
    → ((rest : Bytes) → length rest < length after → Ends rest (members rest))
    → Ends before (after_member b nodes members)
unfolding after_member
after_member-Ends before after (last rest) nodes members s fits h = omega (arith, s, fits)
after_member-Ends before after (next rest) nodes members s fits h =
    Ends-longer before rest (members rest) (omega (arith, s, fits)) (h rest s)
after_member-Ends before after neither nodes members s fits h = tt

at_most :
    (rest text after : Bytes)
    → length text ≤ length (skip_blanks rest)
    → length (skip_blanks rest) ≤ length rest
    → length after < length text
    → length (skip_blanks after) ≤ length rest
at_most rest text after key blanks shorter =
    omega (arith, key, blanks, shorter, length-drop_while-le is_blank after)

fewer :
    (rest text after others : Bytes) (fuel : ℕ)
    → length text ≤ length (skip_blanks rest)
    → length (skip_blanks rest) ≤ length rest
    → length after < length text
    → length others < length (skip_blanks after)
    → length rest * 2 + 2 ≤ suc fuel
    → length others * 2 + 2 ≤ fuel
fewer rest text after others fuel key blanks shorter less enough =
    omega (arith, key, blanks, shorter, less, enough, length-drop_while-le is_blank after)

then_colon-bound :
    (before : Bytes) (o : Option (Result Bytes))
    → ShorterText before o
    → KeyBound before (then_colon o)
unfolding then_colon
then_colon-bound before none h = h
then_colon-bound before (some (err key)) h = tt
then_colon-bound before (some (ok after)) h =
    weaken (expect b':' (skip_blanks after)) (expect-ShorterResult b':' (skip_blanks after))
  where
    weaken : (r : Result Bytes) → ShorterResult (skip_blanks after) r → KeyBound before (some r)
    weaken (ok t) s = omega (arith, h, s, length-drop_while-le is_blank after)
    weaken (err key) s = tt

module _ (utf8_decode : Utf8Decode) where
  start_value-ShorterStart : (rest : Bytes) → ShorterStart rest (start_value utf8_decode rest)
  unfolding start_value starts_with
  start_value-ShorterStart [] = tt
  start_value-ShorterStart (c ∷ cs) = ground (
    arith,
    opened-ShorterStart (c == b'{') (skip_blanks cs) (c ∷ cs) (blanks_shorter c cs),
    string-ShorterText utf8_decode (c ∷ cs),
    number-ShorterResult (c ∷ cs),
    length-drop 3 cs,
    length-drop 4 cs,
  )

  member_key-bound :
      (is_object : Bool) (rest : Bytes) → KeyBound rest (member_key utf8_decode is_object rest)
  unfolding member_key
  member_key-bound false rest = omega arith
  member_key-bound true rest =
      then_colon-bound rest (string utf8_decode rest) (string-ShorterText utf8_decode rest)

  run-Ends :
      (fuel : ℕ) (mode : Mode) (depth : ℕ) (rest : Bytes) (nodes : ℕ)
      → need mode rest ≤ fuel
      → Ends rest (run utf8_decode fuel mode depth (rest, nodes))
  unfolding run
  run-Ends zero at_value depth rest nodes enough = absurd (omega (arith, enough))
  run-Ends zero (at_member is_object) depth rest nodes enough = absurd (omega (arith, enough))
  run-Ends (suc fuel) at_value depth rest nodes enough =
      let blanks = length-drop_while-le is_blank rest in
      let ends =
        after_start-Ends rest (start_value utf8_decode (skip_blanks rest)) (nodes + 1)
          (λ is_object inner. run utf8_decode fuel (at_member is_object) depth (inner, nodes + 1))
          blanks (start_value-ShorterStart (skip_blanks rest))
          (λ is_object inner shorter.
            run-Ends fuel (at_member is_object) depth inner (nodes + 1)
              (omega (arith, shorter, blanks, enough))) in
      limited (ltb max_depth depth || ltb max_nodes (nodes + 1)) rest _ ends
  run-Ends (suc fuel) (at_member is_object) depth rest nodes enough =
      let blanks = length-drop_while-le is_blank rest in
      after_key-Ends rest (member_key utf8_decode is_object (skip_blanks rest)) _
        (member_key-bound is_object (skip_blanks rest))
        (λ value_text key_bound.
          after_value-Ends rest value_text
            (run utf8_decode fuel at_value (depth + 1) (value_text, nodes)) _
            (run-Ends fuel at_value (depth + 1) value_text nodes
              (omega (arith, key_bound, blanks, enough)))
            (λ after count shorter.
              after_member-Ends rest (skip_blanks after) (behind is_object (skip_blanks after))
                count _ (behind-ShorterBehind is_object (skip_blanks after))
                (at_most rest value_text after key_bound blanks shorter)
                (λ others less.
                  run-Ends fuel (at_member is_object) depth others count (
                    fewer rest value_text after others fuel key_bound blanks shorter less enough))))

  -- The check of a text comes to an end, with an error or without, however deep its values are nested
  -- and whatever lengths the UTF-8 decoder reports: fuel of twice the length of the text and one is
  -- enough for its values, and of the length of the rest and one for the characters of each string.
  pub check-ends : (input : Bytes) → (r : Result (Unit {0})) × (check utf8_decode input ≡ some r)
  unfolding check
  check-ends input =
      fits (ltb max_document (length input)) _
        (run-Ends (length input * 2 + 1) at_value 0 input 0 (omega arith))
    where
      ended : (o : Next) → Ends input o → (r : Result (Unit {0})) × (finished o ≡ some r)
      ended none h = elim h [ ]
      ended (some (err key)) h = (err key, refl)
      ended (some (ok (rest, nodes))) h = (_, refl)

      fits :
          (large : Bool) (o : Next)
          → Ends input o
          → (r : Result (Unit {0})) × ((if large then some (err limit) else finished o) ≡ some r)
      fits true o h = (err limit, refl)
      fits false o h = ended o h
