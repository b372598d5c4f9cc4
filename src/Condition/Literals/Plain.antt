-- ===== src/Condition/Literals/Plain.antt =====
-- String literals without escapes in src/backend/conditions/BreakpointCondition.cpp.
use mydbg.Base.{
  ℕ, ◌≡◌, sym, ap, ◌∙◌, Bool, true, false, not, ◌&&◌, some, [], ◌∷◌, ◌++◌, append-nil, append_assoc,
  arith, ◌==◌, and-eq-true, all,
}
use mydbg.Base.Bytes.{Bytes, is_space}
use mydbg.Condition.Scanner.{Parser, at, skip_space}
use mydbg.Condition.Literals.{string_loop, parse_string}

abbrev pub is_plain : ℕ → Bool
is_plain c = not (c == b'"') && not (c == b'\\')

plain_byte : (c : ℕ) → is_plain c ≡ true → ((c == b'"') ≡ false) × ((c == b'\\') ≡ false)
plain_byte c h = ground (arith, h)

string_loop-byte :
    (s : Parser) (result : Bytes) (c : ℕ) (cs : Bytes)
    → is_plain c ≡ true
    → string_loop s false result (c ∷ cs) ≡ string_loop s false (result ++ (c ∷ [])) cs
unfolding string_loop
string_loop-byte s result c cs h = ground (arith, plain_byte c h)

string_loop-plain :
    (s : Parser) (result text rest : Bytes)
    → all is_plain text ≡ true
    → string_loop s false result (text ++ (b'"' ∷ rest)) ≡ (some (result ++ text), at s rest)
unfolding string_loop
string_loop-plain s result [] rest h =
    ap (λ (t : Bytes). (some t, at s rest)) (sym (append-nil result))
string_loop-plain s result (c ∷ text) rest h =
    let both = and-eq-true (is_plain c) (all is_plain text) h in
    string_loop-byte s result c (text ++ (b'"' ∷ rest)) both.0
    ∙ string_loop-plain s (result ++ (c ∷ [])) text rest both.1
    ∙ ap (λ (t : Bytes). (some t, at s rest)) (append_assoc result (c ∷ []) text)

-- A string literal with neither a quote nor a backslash inside is read whole, whatever its length:
-- 1024 bytes are no limit to it.
pub parse_string-plain :
    (s : Parser) (text rest : Bytes)
    → s.rest ≡ b'"' ∷ (text ++ (b'"' ∷ rest))
    → all is_plain text ≡ true
    → ((parse_string s).0 ≡ some text) × ((parse_string s).1.rest ≡ rest)
unfolding parse_string skip_space is_space
parse_string-plain s text rest e h = rw e (
  ap (λ r. r.0) (string_loop-plain (at s (b'"' ∷ (text ++ (b'"' ∷ rest)))) [] text rest h),
  ap (λ r. r.1.rest) (string_loop-plain (at s (b'"' ∷ (text ++ (b'"' ∷ rest)))) [] text rest h),
)
