-- ===== src/Tests/Documents.antt =====
-- A printer and a parser of the documents of src/backend/session/SessionStore.cpp for the tests: each
-- of a few trees is printed as its number in a list.
use mydbg.Base.{
  ℕ, suc, ◌+◌, ◌-◌, ◌≡◌, refl, ap, inl, inr, Bool, true, false, not, ◌&&◌, Option, none, some, List,
  [], ◌∷◌, arith, ◌==◌, if◌then◌else◌, Bool-cases, and-eq-true, get_elem?,
}
use mydbg.Base.Bytes.{Bytes, equal, equal_iff}
use mydbg.Session.Data.{ok, Utf8Decode}
use mydbg.Session.Store.{Codec}
use mydbg.Session.Preflight.{check}
use mydbg.Session.Json.{
  Json, object, array, string, integer, boolean, Fields, no_field, field, Items, no_item, item,
}

unfoldable mutual
  unfolding equal

  same_json : Json → Json → Bool
  same_json (object fs) (object gs) = same_fields fs gs
  same_json (array xs) (array ys) = same_items xs ys
  same_json (string s) (string t) = equal s t
  same_json (integer m) (integer n) = m == n
  same_json (boolean a) (boolean b) = if a then b else not b
  same_json _ _ = false

  same_fields : Fields → Fields → Bool
  same_fields no_field no_field = true
  same_fields (field k v fs) (field l w gs) = equal k l && (same_json v w && same_fields fs gs)
  same_fields _ _ = false

  same_items : Items → Items → Bool
  same_items no_item no_item = true
  same_items (item v xs) (item w ys) = same_json v w && same_items xs ys
  same_items _ _ = false

mutual
  unfolding same_json same_fields same_items equal

  same_json-eq : (v w : Json) → same_json v w ≡ true → v ≡ w
  same_json-eq (object fs) (object gs) e = ap object (same_fields-eq fs gs e)
  same_json-eq (array xs) (array ys) e = ap array (same_items-eq xs ys e)
  same_json-eq (string s) (string t) e = ap string ((equal_iff s t).0 e)
  same_json-eq (integer m) (integer n) e = ap integer (ground (arith, e))
  same_json-eq (boolean a) (boolean b) e = ap boolean (ground (arith, e))
  same_json-eq _ _ e = cc

  same_fields-eq : (fs gs : Fields) → same_fields fs gs ≡ true → fs ≡ gs
  same_fields-eq no_field no_field e = refl
  same_fields-eq (field k v fs) (field l w gs) e =
      let (key, rest) = and-eq-true (equal k l) _ e in
      let (value, fields) = and-eq-true (same_json v w) _ rest in
      let k_is = (equal_iff k l).0 key in
      let v_is = same_json-eq v w value in let fs_is = same_fields-eq fs gs fields in cc
  same_fields-eq _ _ e = cc

  same_items-eq : (xs ys : Items) → same_items xs ys ≡ true → xs ≡ ys
  same_items-eq no_item no_item e = refl
  same_items-eq (item v xs) (item w ys) e =
      let (value, items) = and-eq-true (same_json v w) _ e in
      let v_is = same_json-eq v w value in let xs_is = same_items-eq xs ys items in cc
  same_items-eq _ _ e = cc

abbrev one_more : Option ℕ → Option ℕ
one_more none = none
one_more (some i) = some (suc i)

-- The place of a tree in a list
unfoldable pub index_of : Json → List Json → Option ℕ
unfolding same_json same_fields same_items
index_of node [] = none
index_of node (known ∷ others) =
    let behind = one_more (index_of node others) in if same_json known node then some 0 else behind

at_behind :
    (o : Option ℕ) (known node : Json) (others : List Json) (i : ℕ)
    → ((k : ℕ) → o ≡ some k → get_elem? others k ≡ some node)
    → one_more o ≡ some i
    → get_elem? (known ∷ others) i ≡ some node
at_behind none known node others i h e = cc
at_behind (some k) known node others i h e =
    let suc_is : suc k ≡ i = ground arith in rw (← suc_is) (h k refl)

index_of-get :
    (node : Json) (nodes : List Json) (i : ℕ)
    → index_of node nodes ≡ some i
    → get_elem? nodes i ≡ some node
unfolding index_of
index_of-get node [] i e = cc
index_of-get node (known ∷ others) i e = elim (Bool-cases (same_json known node)) [
  | inl same ↦
      let zero_is : 0 ≡ i = ground (arith, same, e) in
      rw (← zero_is) (ap some (same_json-eq known node same))
  | inr differs ↦
      at_behind (index_of node others) known node others i (λ k h. index_of-get node others k h)
        (ground (arith, differs, e))
]

-- The first tree is printed as the text "1".
abbrev numeral : Option ℕ → Bytes
numeral none = []
numeral (some i) = (b'1' + i) ∷ []

abbrev numbered : List Json → Bytes → Option Json
numbered nodes (c ∷ []) = get_elem? nodes (c - b'1')
numbered nodes _ = none

-- A decoder for texts of ASCII: each byte is its code point.
abbrev pub ascii : Utf8Decode
ascii [] = (0, 0)
ascii (c ∷ cs) = (1, c)

unfoldable pub codec_of : List Json → Codec
unfolding index_of
codec_of nodes = record {
  utf8_decode = ascii;
  print = λ node. numeral (index_of node nodes);
  parse = numbered nodes;
}

-- What is printed and passes the check is read back: the empty text does not pass it.
pub codec_of-faithful :
    (nodes : List Json) (node : Json)
    → check ascii ((codec_of nodes).print node) ≡ some (ok tt)
    → (codec_of nodes).parse ((codec_of nodes).print node) ≡ some node
unfolding codec_of check
codec_of-faithful nodes node e = read (index_of node nodes) (λ i h. index_of-get node nodes i h) e
  where
    read :
        (o : Option ℕ)
        → ((i : ℕ) → o ≡ some i → get_elem? nodes i ≡ some node)
        → check ascii (numeral o) ≡ some (ok tt)
        → numbered nodes (numeral o) ≡ some node
    read none h e = cc
    read (some i) h e = let back : b'1' + i - b'1' ≡ i = omega arith in rw back (h i refl)
