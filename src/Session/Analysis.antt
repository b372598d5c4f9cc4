-- ===== src/Session/Analysis.antt =====
-- What `encode` writes for the analysis of the modules, `decode` reads as this analysis.
use mydbg.Base.{
  ℕ, suc, ◌+◌, ◌-◌, ◌≤◌, ◌≡◌, refl, ap, true, false, not, List, [], ◌∷◌, arith, leb, length, all,
  All,
}
use mydbg.Base.Bytes.{Bytes, codes, equal}
use mydbg.Session.Data.{
  ok, require, Utf8Decode, check_text, max_records, check_hash, invalid_hash, limit,
  SessionAnalysisEdit, SessionModuleAnalysis,
}
use mydbg.Session.Json.{
  Json, object, array, string, no_field, field, Items, open_object, count_key, get, text_value,
  text_of, item_count, array_items,
}
use mydbg.Session.Writing.{then-ok, lift-ok, pure-ok, charge-ok, text-ok, list-ok}
use mydbg.Session.Encode.{write_each, encode_edit, encode_module, encode_modules}
use mydbg.Session.Decode.{decode_edits, decode_module, decode_modules}
use mydbg.Session.Parts.{encode_edit-decode}

-- No module occurs twice.
abbrev pub FreshModule : Bytes → List SessionModuleAnalysis → Type 0
FreshModule sha256 = All (λ m. equal sha256 m.sha256 ≡ false)

abbrev pub UniqueModules : List SessionModuleAnalysis → Type 0
UniqueModules [] = Unit
UniqueModules (m ∷ ms) = FreshModule m.sha256 ms × UniqueModules ms

-- No module is among those that were read before.
abbrev pub UnseenModules : List Bytes → List SessionModuleAnalysis → Type 0
UnseenModules seen = All (λ m. all (λ s. not (equal s m.sha256)) seen ≡ true)

pub nothing_seen : (ms : List SessionModuleAnalysis) → UnseenModules [] ms
nothing_seen [] = tt
nothing_seen (m ∷ ms) = (refl, nothing_seen ms)

now_seen :
    (sha256 : Bytes) (seen : List Bytes) (ms : List SessionModuleAnalysis)
    → FreshModule sha256 ms
    → UnseenModules seen ms
    → UnseenModules (sha256 ∷ seen) ms
now_seen sha256 seen [] fresh unseen = tt
now_seen sha256 seen (m ∷ ms) (f, fresh) (u, unseen) =
    (ground (arith, f, u), now_seen sha256 seen ms fresh unseen)

fits-room : (n room : ℕ) (u : Unit {0}) → require (leb n room) limit ≡ ok u → n ≤ room
fits-room n room u h = ground (arith, h)

module _ (utf8_decode : Utf8Decode) where
  encode_edits-decode :
      (edits : List SessionAnalysisEdit) (count budget b : ℕ) (items : Items)
      → length edits ≤ max_records - count
      → write_each (encode_edit utf8_decode) edits budget ≡ ok (items, b)
      → (decode_edits utf8_decode count items ≡ ok edits) × (item_count items ≡ length edits)
  unfolding write_each decode_edits
  encode_edits-decode [] count budget b items fits e = let same = pure-ok e in rw same (refl, refl)
  encode_edits-decode (edit ∷ edits) count budget b items fits e =
      let (node, b₁, e₁, rest) = then-ok (encode_edit utf8_decode edit budget) _ e in
      let (others, b₂, e₂, last) = then-ok (write_each (encode_edit utf8_decode) edits b₁) _ rest in
      let same = pure-ok last in
      let (read, counted) =
        encode_edits-decode edits (suc count) b₁ b₂ others (omega (arith, fits)) e₂ in
      let here = encode_edit-decode utf8_decode edit budget b₁ node e₁ in
      rw same (ground (arith, fits, here, read), ap suc counted)

  module_tree : SessionModuleAnalysis → Items → Json
  module_tree analysis items = object (
      field (codes "sha256") (string analysis.sha256) (
        field (codes "path") (string analysis.path) (field (codes "edits") (array items) no_field)))

  decode_module-tree :
      (analysis : SessionModuleAnalysis) (seen : List Bytes) (count : ℕ) (items : Items)
      → check_text utf8_decode analysis.sha256 ≡ ok tt
      → check_text utf8_decode analysis.path ≡ ok tt
      → check_hash analysis.sha256 invalid_hash ≡ ok tt
      → all (λ s. not (equal s analysis.sha256)) seen ≡ true
      → item_count items ≤ max_records
      → decode_edits utf8_decode count items ≡ ok analysis.edits
      → decode_module utf8_decode seen count (module_tree analysis items) ≡ ok analysis
  unfolding decode_module module_tree open_object count_key get text_of text_value equal array_items
  decode_module-tree analysis seen count items s p h u fits e = ground (arith, s, p, h, u, fits, e)

  encode_module-decode :
      (analysis : SessionModuleAnalysis) (seen : List Bytes) (count budget b : ℕ) (j : Json)
      → all (λ s. not (equal s analysis.sha256)) seen ≡ true
      → encode_module utf8_decode count analysis budget ≡ ok (j, b)
      → decode_module utf8_decode seen count j ≡ ok analysis
  unfolding encode_module module_tree
  encode_module-decode analysis seen count budget b j unseen e =
      let (u₁, hash, e₁) = lift-ok (check_hash analysis.sha256 invalid_hash) budget _ e in
      let (u₂, room, e₂) =
        lift-ok (require (leb (length analysis.edits) (max_records - count)) limit) budget _ e₁ in
      let (b₃, e₃) = charge-ok 2 budget _ e₂ in
      let (b₄, t₄, e₄) = text-ok utf8_decode (codes "sha256") analysis.sha256 b₃ _ e₃ in
      let (b₅, t₅, e₅) = text-ok utf8_decode (codes "path") analysis.path b₄ _ e₄ in
      let (b₆, fits, e₆) = list-ok (codes "edits") (length analysis.edits) max_records b₅ _ e₅ in
      let (items, b₇, h₇, e₇) =
        then-ok (write_each (encode_edit utf8_decode) analysis.edits b₆) _ e₆ in
      let (read, counted) =
        encode_edits-decode analysis.edits count b₆ b₇ items
          (fits-room (length analysis.edits) (max_records - count) u₂ room) h₇ in
      rw (pure-ok e₇) (
        decode_module-tree analysis seen count items t₄ t₅ hash unseen
          (omega (arith, counted, fits)) read)

  pub encode_modules-decode :
      (modules : List SessionModuleAnalysis) (seen : List Bytes) (count budget b : ℕ)
      (items : Items)
      → UniqueModules modules
      → UnseenModules seen modules
      → encode_modules utf8_decode count modules budget ≡ ok (items, b)
      → (decode_modules utf8_decode seen count items ≡ ok modules)
        × (item_count items ≡ length modules)
  unfolding encode_modules decode_modules
  encode_modules-decode [] seen count budget b items unique unseen e =
      let same = pure-ok e in rw same (refl, refl)
  encode_modules-decode (m ∷ ms) seen count budget b items (fresh, unique) (here, unseen) e =
      let (node, b₁, e₁, rest) = then-ok (encode_module utf8_decode count m budget) _ e in
      let (others, b₂, e₂, last) =
        then-ok (encode_modules utf8_decode (count + length m.edits) ms b₁) _ rest in
      let same = pure-ok last in
      let (read, counted) =
        encode_modules-decode ms (m.sha256 ∷ seen) (count + length m.edits) b₁ b₂ others unique
          (now_seen m.sha256 seen ms fresh unseen) e₂ in
      rw (same, encode_module-decode m seen count budget b₁ node here e₁, read)
        (refl, ap suc counted)
