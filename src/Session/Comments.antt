-- ===== src/Session/Comments.antt =====
-- What `encode` writes for the comments, `decode` reads as these comments.
use mydbg.Base.{
  ℕ, suc, ◌≤◌, ◌≡◌, refl, ap, Bool, true, false, not, ◌&&◌, List, [], ◌∷◌, arith, leb, length, all,
  All,
}
use mydbg.Base.Bytes.{Bytes, codes, equal}
use mydbg.Session.Data.{
  ok, require, Utf8Decode, check_text, max_comment, is_empty, invalid_record, limit, SessionAddress,
  SessionComment,
}
use mydbg.Session.Json.{
  Json, object, string, no_field, field, Items, open_object, count_key, get, text_value, text_of,
  item_count,
}
use mydbg.Session.Writing.{then-ok, lift-ok, pure-ok, charge-ok, key-ok, text-ok}
use mydbg.Session.Encode.{write_each, encode_address, encode_comment}
use mydbg.Session.Decode.{same_address, decode_address, decode_comment, decode_comments}
use mydbg.Session.Parts.{encode_address-decode}

-- No address has two comments.
abbrev pub FreshComment : SessionAddress → List SessionComment → Type 0
FreshComment address = All (λ c. same_address address c.address ≡ false)

abbrev pub UniqueComments : List SessionComment → Type 0
UniqueComments [] = Unit
UniqueComments (c ∷ cs) = FreshComment c.address cs × UniqueComments cs

-- No address is among those that were read before.
abbrev pub UnseenComments : List SessionAddress → List SessionComment → Type 0
UnseenComments seen = All (λ c. all (λ a. not (same_address a c.address)) seen ≡ true)

pub nothing_seen : (cs : List SessionComment) → UnseenComments [] cs
nothing_seen [] = tt
nothing_seen (c ∷ cs) = (refl, nothing_seen cs)

now_seen :
    (address : SessionAddress) (seen : List SessionAddress) (cs : List SessionComment)
    → FreshComment address cs
    → UnseenComments seen cs
    → UnseenComments (address ∷ seen) cs
now_seen address seen [] fresh unseen = tt
now_seen address seen (c ∷ cs) (f, fresh) (u, unseen) =
    (unseen_here (same_address address c.address) _ f u, now_seen address seen cs fresh unseen)
  where
    unseen_here : (same others : Bool) → same ≡ false → others ≡ true → (not same && others) ≡ true
    unseen_here same others f u = ground (arith, f, u)

module _ (utf8_decode : Utf8Decode) where
  decode_comment-tree :
      (comment : SessionComment) (seen : List SessionAddress) (address : Json)
      → is_empty comment.text ≡ false
      → length comment.text ≤ max_comment
      → check_text utf8_decode comment.text ≡ ok tt
      → decode_address utf8_decode address ≡ ok comment.address
      → all (λ a. not (same_address a comment.address)) seen ≡ true
      → decode_comment utf8_decode seen (
          object
            (field (codes "address") address (field (codes "text") (string comment.text) no_field)))
        ≡ ok comment
  unfolding decode_comment open_object count_key get text_of text_value equal
  decode_comment-tree comment seen address full small t a u = ground (arith, full, small, t, a, u)

  not_empty :
      (t : Bytes) (u : Unit {0})
      → require (not (is_empty t)) invalid_record ≡ ok u
      → is_empty t ≡ false
  not_empty t u h = ground (arith, h)

  not_long : (n : ℕ) (u : Unit {0}) → require (leb n max_comment) limit ≡ ok u → n ≤ max_comment
  not_long n u h = ground (arith, h)

  encode_comment-decode :
      (comment : SessionComment) (seen : List SessionAddress) (budget b : ℕ) (j : Json)
      → all (λ a. not (same_address a comment.address)) seen ≡ true
      → encode_comment utf8_decode comment budget ≡ ok (j, b)
      → decode_comment utf8_decode seen j ≡ ok comment
  unfolding encode_comment
  encode_comment-decode comment seen budget b j unseen e =
      let (u₁, full, e₁) =
        lift-ok (require (not (is_empty comment.text)) invalid_record) budget _ e in
      let (u₂, small, e₂) =
        lift-ok (require (leb (length comment.text) max_comment) limit) budget _ e₁ in
      let (b₃, e₃) = charge-ok 2 budget _ e₂ in
      let (b₄, e₄) = key-ok (codes "address") b₃ _ e₃ in
      let (address, b₅, h, e₅) = then-ok (encode_address utf8_decode comment.address b₄) _ e₄ in
      let (b₆, t, e₆) = text-ok utf8_decode (codes "text") comment.text b₅ _ e₅ in
      rw (pure-ok e₆) (
        decode_comment-tree comment seen address (not_empty comment.text u₁ full)
          (not_long (length comment.text) u₂ small) t
          (encode_address-decode utf8_decode comment.address b₄ b₅ address h) unseen)

  pub encode_comments-decode :
      (comments : List SessionComment) (seen : List SessionAddress) (budget b : ℕ) (items : Items)
      → UniqueComments comments
      → UnseenComments seen comments
      → write_each (encode_comment utf8_decode) comments budget ≡ ok (items, b)
      → (decode_comments utf8_decode seen items ≡ ok comments)
        × (item_count items ≡ length comments)
  unfolding write_each decode_comments
  encode_comments-decode [] seen budget b items unique unseen e =
      let same = pure-ok e in rw same (refl, refl)
  encode_comments-decode (c ∷ cs) seen budget b items (fresh, unique) (here, unseen) e =
      let (node, b₁, e₁, rest) = then-ok (encode_comment utf8_decode c budget) _ e in
      let (others, b₂, e₂, last) = then-ok (write_each (encode_comment utf8_decode) cs b₁) _ rest in
      let same = pure-ok last in
      let (read, counted) =
        encode_comments-decode cs (c.address ∷ seen) b₁ b₂ others unique
          (now_seen c.address seen cs fresh unseen) e₂ in
      rw (same, encode_comment-decode c seen budget b₁ node here e₁, read) (refl, ap suc counted)
