-- ===== src/Session/Writing.antt =====
-- Inversion of what `JsonWriter` does: each call that did not fail, and what is written behind it.
use mydbg.Base.{ℕ, suc, ◌≤◌, ◌≡◌, refl, ap, Bool, List, [], ◌∷◌, arith, length}
use mydbg.Base.Bytes.{Bytes}
use mathlib.Core.Path.{Path, subst}
use mydbg.Session.Data.{Result, ok, err, Utf8Decode, check_text}
use mydbg.Session.Json.{Json, string, integer, boolean, Items, item_count, each}
use mydbg.Session.Encode.{
  Writer, then_write, lift, charge, key, open_list, text_node, text_field, number_field,
  boolean_field, write_each,
}

module _ {A B : Type 0} where
  pub then-ok :
      (o : Result (A × ℕ)) (f : A → Writer B) {r : B × ℕ}
      → then_write o f ≡ ok r
      → (a : A) × (b : ℕ) × (o ≡ ok (a, b)) × (f a b ≡ ok r)
  then-ok (ok (a, b)) f e = (a, b, refl, e)
  then-ok (err k) f e = cc

  pub lift-ok :
      (m : Result A) (budget : ℕ) (f : A → Writer B) {r : B × ℕ}
      → then_write (lift m budget) f ≡ ok r
      → (a : A) × (m ≡ ok a) × (f a budget ≡ ok r)
  lift-ok (ok a) budget f e = (a, refl, e)
  lift-ok (err k) budget f e = cc

pub pure-ok :
    {A : Type 0} {a c : A} {b d : ℕ} → Path (Result (A × ℕ)) (ok (a, b)) (ok (c, d)) → c ≡ a
pure-ok e = cc

number_field-value :
    (name : Bytes) (value budget b : ℕ) (j : Json)
    → number_field name value budget ≡ ok (j, b)
    → j ≡ integer value
unfolding number_field key charge
number_field-value name value budget b j e = ground (arith, e)

boolean_field-value :
    (name : Bytes) (value : Bool) (budget b : ℕ) (j : Json)
    → boolean_field name value budget ≡ ok (j, b)
    → j ≡ boolean value
unfolding boolean_field key charge
boolean_field-value name value budget b j e = ground (arith, e)

pub text_node-value :
    (utf8_decode : Utf8Decode) (value : Bytes) (budget b : ℕ) (j : Json)
    → text_node utf8_decode value budget ≡ ok (j, b)
    → (j ≡ string value) × (check_text utf8_decode value ≡ ok tt)
unfolding text_node charge
text_node-value utf8_decode value budget b j e = ground (arith, e)

text_field-value :
    (utf8_decode : Utf8Decode) (name value : Bytes) (budget b : ℕ) (j : Json)
    → text_field utf8_decode name value budget ≡ ok (j, b)
    → (j ≡ string value) × (check_text utf8_decode value ≡ ok tt)
unfolding text_field text_node key charge
text_field-value utf8_decode name value budget b j e = ground (arith, e)

open_list-fits :
    (name : Bytes) (count most budget b : ℕ) (u : Unit {0})
    → open_list name count most budget ≡ ok (u, b)
    → count ≤ most
unfolding open_list key charge
open_list-fits name count most budget b u e = ground (arith, e)

module _ {B : Type 0} where
  pub charge-ok :
      (n budget : ℕ) (f : Unit {0} → Writer B) {r : B × ℕ}
      → then_write (charge n budget) f ≡ ok r
      → (b : ℕ) × (f tt b ≡ ok r)
  charge-ok n budget f e = let (u, b, h, e') = then-ok (charge n budget) f e in (b, e')

  pub key-ok :
      (name : Bytes) (budget : ℕ) (f : Unit {0} → Writer B) {r : B × ℕ}
      → then_write (key name budget) f ≡ ok r
      → (b : ℕ) × (f tt b ≡ ok r)
  key-ok name budget f e = let (u, b, h, e') = then-ok (key name budget) f e in (b, e')

  pub number-ok :
      (name : Bytes) (value budget : ℕ) (f : Json → Writer B) {r : B × ℕ}
      → then_write (number_field name value budget) f ≡ ok r
      → (b : ℕ) × (f (integer value) b ≡ ok r)
  number-ok name value budget f {r} e =
      let (j, b, h, e') = then-ok (number_field name value budget) f e in
      (b, subst (λ (k : Json). f k b ≡ ok r) (number_field-value name value budget b j h) e')

  pub boolean-ok :
      (name : Bytes) (value : Bool) (budget : ℕ) (f : Json → Writer B) {r : B × ℕ}
      → then_write (boolean_field name value budget) f ≡ ok r
      → (b : ℕ) × (f (boolean value) b ≡ ok r)
  boolean-ok name value budget f {r} e =
      let (j, b, h, e') = then-ok (boolean_field name value budget) f e in
      (b, subst (λ (k : Json). f k b ≡ ok r) (boolean_field-value name value budget b j h) e')

  pub text-ok :
      (utf8_decode : Utf8Decode) (name value : Bytes) (budget : ℕ) (f : Json → Writer B) {r : B × ℕ}
      → then_write (text_field utf8_decode name value budget) f ≡ ok r
      → (b : ℕ) × (check_text utf8_decode value ≡ ok tt) × (f (string value) b ≡ ok r)
  text-ok utf8_decode name value budget f {r} e =
      let (j, b, h, e') = then-ok (text_field utf8_decode name value budget) f e in
      let (is_string, valid) = text_field-value utf8_decode name value budget b j h in
      (b, valid, subst (λ (k : Json). f k b ≡ ok r) is_string e')

  pub list-ok :
      (name : Bytes) (count most budget : ℕ) (f : Unit {0} → Writer B) {r : B × ℕ}
      → then_write (open_list name count most budget) f ≡ ok r
      → (b : ℕ) × (count ≤ most) × (f tt b ≡ ok r)
  list-ok name count most budget f {r} e =
      let (u, b, h, e') = then-ok (open_list name count most budget) f e in
      (b, open_list-fits name count most budget b u h, e')

-- What is written entry by entry is read entry by entry.
pub write_each-read :
    {A : Type 0} (write : A → Writer Json) (read : Json → Result A)
    → ((a : A) (budget b : ℕ) (j : Json) → write a budget ≡ ok (j, b) → read j ≡ ok a)
    → (entries : List A) (budget b : ℕ) (items : Items)
    → write_each write entries budget ≡ ok (items, b)
    → (each read items ≡ ok entries) × (item_count items ≡ length entries)
unfolding write_each each
write_each-read write read h [] budget b items e = let same = pure-ok e in rw same (refl, refl)
write_each-read write read h (a ∷ entries) budget b items e =
    let (node, b₁, e₁, rest) = then-ok (write a budget) _ e in
    let (others, b₂, e₂, last) = then-ok (write_each write entries b₁) _ rest in
    let same = pure-ok last in
    let (read_others, count) = write_each-read write read h entries b₁ b₂ others e₂ in
    rw (same, h a budget b₁ node e₁, read_others) (refl, ap suc count)
