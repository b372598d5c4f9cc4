-- ===== src/Session/RoundTrip.antt =====
-- What `encode` writes, `decode` reads as the session that it was.
use mydbg.Base.{ℕ, ◌≤◌, ◌≡◌, refl, true, some, List, [], arith, length}
use mydbg.Base.Bytes.{Bytes, codes, equal, equal_iff}
use mydbg.Session.Data.{
  Key, Result, ok, err, Utf8Decode, check_text, max_records, is_hash, check_hash, invalid_hash,
  invalid_epoch, SessionDebuggerState, SessionData,
}
use mydbg.Session.Json.{
  Json, object, array, string, no_field, field, Items, open_object, count_key, get, text_value,
  text_of, number_of, number_value, each, item_count, array_items,
}
use mydbg.Session.Writing.{
  then-ok, lift-ok, pure-ok, charge-ok, key-ok, number-ok, text-ok, list-ok, write_each-read,
}
use mydbg.Session.Encode.{
  Lists, encode_lists, root_object, write_each, text_node, encode_strings, encode_breakpoint,
  encode_symbol, encode_debugger, encode_modules, encode_comment, encode_root, encode, written,
}
use mydbg.Session.Decode.{
  decode_strings, decode_breakpoint, decode_symbol, decode_debugger, decode_modules,
  decode_comments, decode_tail, decode_lists, decode_root,
}
use mydbg.Session.Parts.{encode_breakpoint-decode, encode_symbol-decode, text_node-read}
use mydbg.Session.Analysis.{UniqueModules, nothing_seen, encode_modules-decode}
use mydbg.Session.Comments
use mydbg.Session.Store.{Codec}
use mydbg.Session.Preflight.{check}
use mydbg.Session.Reading.{decode, read_document-accepted}
use mydbg.Session.Comments.{UniqueComments, encode_comments-decode}

as_many : {m n k : ℕ} → m ≡ n → n ≤ k → m ≤ k
as_many same fits = omega (arith, same, fits)

module _ (utf8_decode : Utf8Decode) where
  encode_strings-decode :
      (name : Bytes) (values : List Bytes) (budget b : ℕ) (j : Json)
      → encode_strings utf8_decode name values budget ≡ ok (j, b)
      → decode_strings utf8_decode j ≡ ok values
  unfolding encode_strings decode_strings array_items
  encode_strings-decode name values budget b j e =
      let (b₁, fits, e₁) = list-ok name (length values) 4096 budget _ e in
      let (items, b₂, h, e₂) = then-ok (write_each (text_node utf8_decode) values b₁) _ e₁ in
      let (read, count) =
        write_each-read (text_node utf8_decode) (text_value utf8_decode)
          (λ v d d' k. text_node-read utf8_decode v d d' k) values b₁ b₂ items h in
      rw (pure-ok e₂) (ground (arith, read, count, fits))

  decode_debugger-tree :
      (state : SessionDebuggerState) (breakpoints symbols : Items) (watches arguments : Json)
      → each (decode_breakpoint utf8_decode) breakpoints ≡ ok state.breakpoints
      → item_count breakpoints ≤ 4096
      → decode_strings utf8_decode watches ≡ ok state.watches
      → decode_strings utf8_decode arguments ≡ ok state.arguments
      → check_text utf8_decode state.working_directory ≡ ok tt
      → each (decode_symbol utf8_decode) symbols ≡ ok state.symbols
      → item_count symbols ≤ 16384
      → decode_debugger utf8_decode (
          object (
            field (codes "breakpoints") (array breakpoints) (
              field (codes "watches") watches (
                field (codes "arguments") arguments (
                  field (codes "symbols") (array symbols) (
                    field
                      (codes "working_directory")
                      (string state.working_directory)
                      no_field))))))
        ≡ ok state
  unfolding decode_debugger open_object count_key get text_of text_value equal array_items
  decode_debugger-tree state breakpoints symbols watches arguments b bl w a d s sl =
      ground (arith, b, bl, w, a, d, s, sl)

  encode_debugger-decode :
      (state : SessionDebuggerState) (budget b : ℕ) (j : Json)
      → encode_debugger utf8_decode state budget ≡ ok (j, b)
      → decode_debugger utf8_decode j ≡ ok state
  unfolding encode_debugger
  encode_debugger-decode state budget b j e =
      let (b₁, e₁) = charge-ok 2 budget _ e in
      let (b₂, fits₂, e₂) = list-ok (codes "breakpoints") (length state.breakpoints) 4096 b₁ _ e₁ in
      let (breakpoints, b₃, h₃, e₃) =
        then-ok (write_each (encode_breakpoint utf8_decode) state.breakpoints b₂) _ e₂ in
      let (watches, b₄, h₄, e₄) =
        then-ok (encode_strings utf8_decode (codes "watches") state.watches b₃) _ e₃ in
      let (arguments, b₅, h₅, e₅) =
        then-ok (encode_strings utf8_decode (codes "arguments") state.arguments b₄) _ e₄ in
      let (b₆, fits₆, e₆) = list-ok (codes "symbols") (length state.symbols) 16384 b₅ _ e₅ in
      let (symbols, b₇, h₇, e₇) =
        then-ok (write_each (encode_symbol utf8_decode) state.symbols b₆) _ e₆ in
      let (b₈, t, e₈) =
        text-ok utf8_decode (codes "working_directory") state.working_directory b₇ _ e₇ in
      let (read₃, count₃) =
        write_each-read (encode_breakpoint utf8_decode) (decode_breakpoint utf8_decode)
          (λ v d d' k. encode_breakpoint-decode utf8_decode v d d' k) state.breakpoints b₂ b₃
          breakpoints h₃ in
      let (read₇, count₇) =
        write_each-read (encode_symbol utf8_decode) (decode_symbol utf8_decode)
          (λ v d d' k. encode_symbol-decode utf8_decode v d d' k) state.symbols b₆ b₇ symbols h₇ in
      rw (pure-ok e₈) (
        decode_debugger-tree state breakpoints symbols watches arguments read₃
          (as_many count₃ fits₂)
          (encode_strings-decode (codes "watches") state.watches b₃ b₄ watches h₄)
          (encode_strings-decode (codes "arguments") state.arguments b₄ b₅ arguments h₅) t read₇
          (as_many count₇ fits₆))

  abbrev ReadLists : SessionData → Lists → Type 0
  ReadLists session lists =
      (decode_debugger utf8_decode lists.debugger ≡ ok session.debugger)
      × (item_count lists.modules ≤ 1024)
      × (decode_modules utf8_decode [] 0 lists.modules ≡ ok session.analysis)
      × (item_count lists.comments ≤ max_records)
      × (decode_comments utf8_decode [] lists.comments ≡ ok session.comments)

  encode_lists-read :
      (session : SessionData) (budget b : ℕ) (lists : Lists)
      → UniqueModules session.analysis
      → UniqueComments session.comments
      → encode_lists utf8_decode session budget ≡ ok (lists, b)
      → ReadLists session lists
  unfolding encode_lists
  encode_lists-read session budget b lists modules comments e =
      let (b₉, e₉) = key-ok (codes "debugger") budget _ e in
      let (debugger, c₀, g₀, f₀) = then-ok (encode_debugger utf8_decode session.debugger b₉) _ e₉ in
      let (c₁, few, f₁) = list-ok (codes "analysis") (length session.analysis) 1024 c₀ _ f₀ in
      let (module_items, c₂, g₂, f₂) =
        then-ok (encode_modules utf8_decode 0 session.analysis c₁) _ f₁ in
      let (c₃, small, f₃) =
        list-ok (codes "comments") (length session.comments) max_records c₂ _ f₂ in
      let (comment_items, c₄, g₄, f₄) =
        then-ok (write_each (encode_comment utf8_decode) session.comments c₃) _ f₃ in
      let (read₂, count₂) =
        encode_modules-decode utf8_decode session.analysis [] 0 c₁ c₂ module_items modules
          (nothing_seen session.analysis) g₂ in
      let (read₄, count₄) =
        encode_comments-decode utf8_decode session.comments [] c₃ c₄ comment_items comments
          (Comments.nothing_seen session.comments) g₄ in
      rw (pure-ok f₄) (
        encode_debugger-decode session.debugger b₉ c₀ debugger g₀,
        as_many count₂ few,
        read₂,
        as_many count₄ small,
        read₄,
      )

  decode_root-tree :
      (session : SessionData) (lists : Lists)
      → is_hash session.identity.epoch ≡ true
      → check_text utf8_decode session.identity.sha256 ≡ ok tt
      → check_text utf8_decode session.identity.epoch ≡ ok tt
      → check_text utf8_decode session.binary_path ≡ ok tt
      → equal session.identity.sha256 session.identity.sha256 ≡ true
      → session.analysis_revision ≤ session.revision
      → ReadLists session lists
      → decode_root utf8_decode (root_object session lists) session.identity.sha256 ≡ ok session
  unfolding decode_root decode_tail decode_lists root_object open_object count_key get text_of
      text_value number_of number_value equal array_items check_hash
  decode_root-tree session lists h s e p same ordered read =
      ground (arith, h, s, e, p, same, ordered, read)

  is_hash-checked : (t : Bytes) (k : Key) (u : Unit {0}) → check_hash t k ≡ ok u → is_hash t ≡ true
  unfolding check_hash
  is_hash-checked t k u h = ground (arith, h)

  written-ok : (o : Result (Json × ℕ)) (j : Json) → written o ≡ ok j → (b : ℕ) × (o ≡ ok (j, b))
  written-ok (ok (node, b)) j e = (b, ground (arith, e))
  written-ok (err k) j e = ground (arith, e)

  encode_root-decode :
      (session : SessionData) (budget b : ℕ) (j : Json)
      → UniqueModules session.analysis
      → UniqueComments session.comments
      → session.analysis_revision ≤ session.revision
      → encode_root utf8_decode session budget ≡ ok (j, b)
      → decode_root utf8_decode j session.identity.sha256 ≡ ok session
  unfolding encode_root
  encode_root-decode session budget b j modules comments ordered e =
      let (u₀, h₀, e₀) = lift-ok (check_hash session.identity.sha256 invalid_hash) budget _ e in
      let (u₁, h₁, e₁) = lift-ok (check_hash session.identity.epoch invalid_epoch) budget _ e₀ in
      let (b₂, e₂) = charge-ok 2 budget _ e₁ in
      let (b₃, e₃) = number-ok (codes "version") 1 b₂ _ e₂ in
      let (b₄, t₄, e₄) = text-ok utf8_decode (codes "sha256") session.identity.sha256 b₃ _ e₃ in
      let (b₅, t₅, e₅) = text-ok utf8_decode (codes "epoch") session.identity.epoch b₄ _ e₄ in
      let (b₆, t₆, e₆) = text-ok utf8_decode (codes "binary_path") session.binary_path b₅ _ e₅ in
      let (b₇, e₇) = number-ok (codes "revision") session.revision b₆ _ e₆ in
      let (b₈, e₈) = number-ok (codes "analysis_revision") session.analysis_revision b₇ _ e₇ in
      let (lists, b₉, h₉, e₉) = then-ok (encode_lists utf8_decode session b₈) _ e₈ in
      rw (pure-ok e₉) (
        decode_root-tree session lists (is_hash-checked session.identity.epoch invalid_epoch u₁ h₁)
          t₄ t₅ t₆ ((equal_iff session.identity.sha256 session.identity.sha256).1 refl) ordered
          (encode_lists-read session b₈ b₉ lists modules comments h₉))

  -- The tree that `encode` makes of a session is read as the session.
  pub decode_root-encode :
      (session : SessionData) (j : Json)
      → UniqueModules session.analysis
      → UniqueComments session.comments
      → session.analysis_revision ≤ session.revision
      → encode utf8_decode session ≡ ok j
      → decode_root utf8_decode j session.identity.sha256 ≡ ok session
  unfolding encode
  decode_root-encode session j modules comments ordered e =
      let (b, h) = written-ok (encode_root utf8_decode session 0) j e in
      encode_root-decode session 0 b j modules comments ordered h

-- A session that `encode` writes, with no module twice, no two comments at one address and an analysis
-- revision that is not past its revision, is what `decode` reads of the printed document for its
-- hash, where the check before the parser accepts the document and the parser reads what was printed.
pub encode-decode :
    (codec : Codec) (session : SessionData) (j : Json)
    → UniqueModules session.analysis
    → UniqueComments session.comments
    → session.analysis_revision ≤ session.revision
    → encode codec.utf8_decode session ≡ ok j
    → check codec.utf8_decode (codec.print j) ≡ some (ok tt)
    → codec.parse (codec.print j) ≡ some j
    → decode codec (codec.print j) session.identity.sha256 ≡ ok session
encode-decode codec session j modules comments ordered e checked is_parsed =
    (read_document-accepted codec session.identity.sha256 (codec.print j) j session checked
      is_parsed (decode_root-encode codec.utf8_decode session j modules comments ordered e)).0
