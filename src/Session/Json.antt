-- ===== src/Session/Json.antt =====
-- src/backend/session/SessionStore.cpp: the JSON values of Rizin's parser, and the class `Object`.
use mydbg.Base.{ℕ, suc, Bool, List, [], ◌∷◌, leb, ◌==◌, if◌then◌else◌, length, all}
use mydbg.Base.Bytes.{Bytes, equal}
use mydbg.Session.Data.{
  malformed, limit, Result, ok, err, ◌>>=◌, ◌>>◌, require, Utf8Decode, check_text,
}

-- An `RzJson` with its list of children: those of an object have keys.
mutual
  pub data Json : Type 0 where
    object : Fields → Json
    array : Items → Json
    string : Bytes → Json
    integer : ℕ → Json
    boolean : Bool → Json
    -- a null or a double
    other : Json

  pub data Fields : Type 0 where
    no_field : Fields
    field : Bytes → Json → Fields → Fields

  pub data Items : Type 0 where
    no_item : Items
    item : Json → Items → Items

-- `children.count`
abbrev pub field_count : Fields → ℕ
field_count no_field = 0
field_count (field k v fields) = suc (field_count fields)

abbrev pub item_count : Items → ℕ
item_count no_item = 0
item_count (item v items) = suc (item_count items)

-- the children with this key
unfoldable pub count_key : Bytes → Fields → ℕ
unfolding equal
count_key key no_field = 0
count_key key (field k v fields) =
    let others = count_key key fields in if equal key k then suc others else others

-- The constructor of `Object`: as many children as names, and each name once.
unfoldable pub open_object : Json → List Bytes → Result Fields
unfolding count_key
open_object (object fields) names = do
  require (field_count fields == length names) malformed
  require (all (λ name. count_key name fields == 1) names) malformed
  ok fields
open_object _ names = err malformed

unfoldable pub get : Bytes → Fields → Result Json
unfolding equal
get key no_field = err malformed
get key (field k v fields) = if equal key k then ok v else get key fields

unfoldable pub text_value : Utf8Decode → Json → Result Bytes
unfolding check_text
text_value utf8_decode (string value) = do check_text utf8_decode value; ok value
text_value utf8_decode _ = err malformed

unfoldable pub number_value : Json → Result ℕ
number_value (integer n) = ok n
number_value _ = err malformed

unfoldable pub boolean_value : Json → Result Bool
boolean_value (boolean b) = ok b
boolean_value _ = err malformed

-- `array(node, limit)`: the children
unfoldable pub array_items : Json → ℕ → Result Items
array_items (array items) most = do require (leb (item_count items) most) limit; ok items
array_items _ most = err malformed

-- `Object::text`, `Object::number` and `Object::boolean`
unfoldable pub text_of : Utf8Decode → Fields → Bytes → Result Bytes
unfolding get text_value
text_of utf8_decode fields key = do node ← get key fields; text_value utf8_decode node

unfoldable pub number_of : Fields → Bytes → Result ℕ
unfolding get number_value
number_of fields key = do node ← get key fields; number_value node

unfoldable pub boolean_of : Fields → Bytes → Result Bool
unfolding get boolean_value
boolean_of fields key = do node ← get key fields; boolean_value node

-- A list that is read item by item
unfoldable pub each {ℓ} : {A : Type ℓ} → (Json → Result A) → Items → Result (List A)
each read no_item = ok []
each read (item v items) = do a ← read v; others ← each read items; ok (a ∷ others)
