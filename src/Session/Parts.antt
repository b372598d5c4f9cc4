-- ===== src/Session/Parts.antt =====
-- What `encode` writes for the parts of a session, `decode` reads as these parts.
use mydbg.Base.{ℕ, ◌≡◌, refl, true, false, not, ◌||◌, arith, if◌then◌else◌}
use mydbg.Base.Bytes.{Bytes, codes, equal}
use mydbg.Session.Data.{
  SessionBreakpoint, SessionSymbol, SessionAnalysisEdit, SavedAnalysisKind, rename, set_type,
  mark_string, SavedSymbolKind, nothing, function, global, constant, local, parameter,
  invalid_record, ok, require, Utf8Decode, check_text, is_empty, is_hash, check_hash, invalid_hash,
  SessionAddress,
}
use mydbg.Session.Json.{
  Json, object, string, integer, boolean, no_field, field, open_object, count_key, get, text_value,
  text_of, number_of, number_value, boolean_of, boolean_value,
}
use mydbg.Session.Writing.{
  then-ok, lift-ok, pure-ok, charge-ok, key-ok, number-ok, boolean-ok, text-ok, text_node-value,
}
use mydbg.Session.Encode.{
  charge, key, text_node, text_field, number_field, encode_address, encode_breakpoint,
  encode_symbol, encode_edit, analysis_kind_name, symbol_kind_name,
}
use mydbg.Session.Decode.{
  decode_address, decode_breakpoint, decode_symbol, decode_edit, decode_analysis_kind,
  decode_symbol_kind,
}

module _ (utf8_decode : Utf8Decode) where
  abbrev pub TextOk : Bytes → Type 0
  TextOk t = check_text utf8_decode t ≡ ok tt

  text_field-ok :
      (name value : Bytes) (budget b : ℕ) (j : Json)
      → text_field utf8_decode name value budget ≡ ok (j, b)
      → (j ≡ string value) × TextOk value
  unfolding text_field text_node key charge
  text_field-ok name value budget b j e = ground (arith, e)

  abbrev address_tree : SessionAddress → Json
  address_tree address = object (
      field (codes "module_sha256") (string address.module_sha256) (
        field (codes "module_path") (string address.module_path)
          (field (codes "file_address") (integer address.file_address) no_field)))

  abbrev ValidAddress : SessionAddress → Type 0
  ValidAddress address =
      (is_hash address.module_sha256 ≡ true)
      × TextOk address.module_sha256
      × TextOk address.module_path

  encode_address-tree :
      (address : SessionAddress) (budget b : ℕ) (j : Json)
      → encode_address utf8_decode address budget ≡ ok (j, b)
      → (j ≡ address_tree address) × ValidAddress address
  unfolding encode_address text_field text_node key charge check_hash number_field
  encode_address-tree address budget b j e = ground (arith, e)

  decode_address-tree :
      (address : SessionAddress)
      → ValidAddress address
      → decode_address utf8_decode (address_tree address) ≡ ok address
  unfolding decode_address open_object count_key get text_of text_value number_of number_value equal
      check_hash
  decode_address-tree address h = ground (arith, h)

  pub encode_address-decode :
      (address : SessionAddress) (budget b : ℕ) (j : Json)
      → encode_address utf8_decode address budget ≡ ok (j, b)
      → decode_address utf8_decode j ≡ ok address
  encode_address-decode address budget b j e =
      let (tree, valid) = encode_address-tree address budget b j e in
      rw tree (decode_address-tree address valid)

  abbrev breakpoint_tree : SessionBreakpoint → Json
  breakpoint_tree breakpoint = object (
      field (codes "serialized") (string breakpoint.serialized) (
        field (codes "script_condition") (string breakpoint.script_condition) (
          field (codes "module_sha256") (string breakpoint.module_sha256)
            (field (codes "module_path") (string breakpoint.module_path) no_field))))

  abbrev ValidBreakpoint : SessionBreakpoint → Type 0
  ValidBreakpoint breakpoint =
      (is_empty breakpoint.serialized ≡ false)
      × ((is_empty breakpoint.module_sha256 || is_hash breakpoint.module_sha256) ≡ true)
      × TextOk breakpoint.serialized
      × TextOk breakpoint.script_condition
      × TextOk breakpoint.module_sha256
      × TextOk breakpoint.module_path

  not_empty :
      (t : Bytes) (u : Unit {0})
      → require (not (is_empty t)) invalid_record ≡ ok u
      → is_empty t ≡ false
  not_empty t u h = ground (arith, h)

  no_bad_hash :
      (t : Bytes) (u : Unit {0})
      → (if is_empty t then ok tt else check_hash t invalid_hash) ≡ ok u
      → (is_empty t || is_hash t) ≡ true
  unfolding check_hash
  no_bad_hash t u h = ground (arith, h)

  encode_breakpoint-tree :
      (breakpoint : SessionBreakpoint) (budget b : ℕ) (j : Json)
      → encode_breakpoint utf8_decode breakpoint budget ≡ ok (j, b)
      → (j ≡ breakpoint_tree breakpoint) × ValidBreakpoint breakpoint
  unfolding encode_breakpoint
  encode_breakpoint-tree breakpoint budget b j e =
      let (u₁, serialized, e₁) =
        lift-ok (require (not (is_empty breakpoint.serialized)) invalid_record) budget _ e in
      let (u₂, hash, e₂) =
        lift-ok
          (if is_empty breakpoint.module_sha256
            then ok tt
            else check_hash breakpoint.module_sha256 invalid_hash)
          budget _ e₁ in
      let (b₃, e₃) = charge-ok 2 budget _ e₂ in
      let (b₄, t₄, e₄) = text-ok utf8_decode (codes "serialized") breakpoint.serialized b₃ _ e₃ in
      let (b₅, t₅, e₅) =
        text-ok utf8_decode (codes "script_condition") breakpoint.script_condition b₄ _ e₄ in
      let (b₆, t₆, e₆) =
        text-ok utf8_decode (codes "module_sha256") breakpoint.module_sha256 b₅ _ e₅ in
      let (b₇, t₇, e₇) = text-ok utf8_decode (codes "module_path") breakpoint.module_path b₆ _ e₆ in
      (
        pure-ok e₇,
        (
          not_empty breakpoint.serialized u₁ serialized,
          no_bad_hash breakpoint.module_sha256 u₂ hash,
          t₄,
          t₅,
          t₆,
          t₇,
        ),
      )

  decode_breakpoint-tree :
      (breakpoint : SessionBreakpoint)
      → ValidBreakpoint breakpoint
      → decode_breakpoint utf8_decode (breakpoint_tree breakpoint) ≡ ok breakpoint
  unfolding decode_breakpoint open_object count_key get text_of text_value equal check_hash
  decode_breakpoint-tree breakpoint h = ground (arith, h)

  pub encode_breakpoint-decode :
      (breakpoint : SessionBreakpoint) (budget b : ℕ) (j : Json)
      → encode_breakpoint utf8_decode breakpoint budget ≡ ok (j, b)
      → decode_breakpoint utf8_decode j ≡ ok breakpoint
  encode_breakpoint-decode breakpoint budget b j e =
      let (tree, valid) = encode_breakpoint-tree breakpoint budget b j e in
      rw tree (decode_breakpoint-tree breakpoint valid)

  decode_symbol-tree :
      (symbol : SessionSymbol) (address : Json)
      → TextOk symbol.name
      → decode_address utf8_decode address ≡ ok symbol.address
      → decode_symbol utf8_decode (
          object
            (field (codes "name") (string symbol.name) (field (codes "address") address no_field)))
        ≡ ok symbol
  unfolding decode_symbol open_object count_key get text_of text_value equal
  decode_symbol-tree symbol address h e = ground (arith, h, e)

  pub encode_symbol-decode :
      (symbol : SessionSymbol) (budget b : ℕ) (j : Json)
      → encode_symbol utf8_decode symbol budget ≡ ok (j, b)
      → decode_symbol utf8_decode j ≡ ok symbol
  unfolding encode_symbol
  encode_symbol-decode symbol budget b j e =
      let (b₁, e₁) = charge-ok 2 budget _ e in
      let (b₂, t, e₂) = text-ok utf8_decode (codes "name") symbol.name b₁ _ e₁ in
      let (b₃, e₃) = key-ok (codes "address") b₂ _ e₂ in
      let (address, b₄, h, e₄) = then-ok (encode_address utf8_decode symbol.address b₃) _ e₃ in
      rw (pure-ok e₄)
        (decode_symbol-tree symbol address t (encode_address-decode symbol.address b₃ b₄ address h))

  edit_tree : SessionAnalysisEdit → Json
  edit_tree edit = object (
      field (codes "kind") (string (analysis_kind_name edit.kind)) (
        field (codes "target_kind") (string (symbol_kind_name edit.target_kind)) (
          field (codes "function_file_address") (integer edit.function_file_address) (
            field (codes "target_name") (string edit.target_name) (
              field (codes "target_file_address") (integer edit.target_file_address) (
                field (codes "has_target_file_address") (boolean edit.has_target_file_address)
                  (field (codes "value") (string edit.value) no_field)))))))

  abbrev ValidEdit : SessionAnalysisEdit → Type 0
  ValidEdit edit =
      TextOk (analysis_kind_name edit.kind)
      × TextOk (symbol_kind_name edit.target_kind)
      × TextOk edit.target_name
      × TextOk edit.value

  encode_edit-tree :
      (edit : SessionAnalysisEdit) (budget b : ℕ) (j : Json)
      → encode_edit utf8_decode edit budget ≡ ok (j, b)
      → (j ≡ edit_tree edit) × ValidEdit edit
  unfolding encode_edit edit_tree
  encode_edit-tree edit budget b j e =
      let (b₁, e₁) = charge-ok 2 budget _ e in
      let (b₂, t₂, e₂) =
        text-ok utf8_decode (codes "kind") (analysis_kind_name edit.kind) b₁ _ e₁ in
      let (b₃, t₃, e₃) =
        text-ok utf8_decode (codes "target_kind") (symbol_kind_name edit.target_kind) b₂ _ e₂ in
      let (b₄, e₄) = number-ok (codes "function_file_address") edit.function_file_address b₃ _ e₃ in
      let (b₅, t₅, e₅) = text-ok utf8_decode (codes "target_name") edit.target_name b₄ _ e₄ in
      let (b₆, e₆) = number-ok (codes "target_file_address") edit.target_file_address b₅ _ e₅ in
      let (b₇, e₇) =
        boolean-ok (codes "has_target_file_address") edit.has_target_file_address b₆ _ e₆ in
      let (b₈, t₈, e₈) = text-ok utf8_decode (codes "value") edit.value b₇ _ e₇ in
      (pure-ok e₈, (t₂, t₃, t₅, t₈))

  kind-decoded :
      (kind : SavedAnalysisKind) → decode_analysis_kind (analysis_kind_name kind) ≡ ok kind
  unfolding decode_analysis_kind analysis_kind_name equal
  kind-decoded rename = refl
  kind-decoded set_type = refl
  kind-decoded mark_string = refl

  symbol_kind-decoded :
      (kind : SavedSymbolKind) → decode_symbol_kind (symbol_kind_name kind) ≡ ok kind
  unfolding decode_symbol_kind symbol_kind_name equal
  symbol_kind-decoded nothing = refl
  symbol_kind-decoded function = refl
  symbol_kind-decoded global = refl
  symbol_kind-decoded constant = refl
  symbol_kind-decoded local = refl
  symbol_kind-decoded parameter = refl

  decode_edit-tree :
      (edit : SessionAnalysisEdit)
      → ValidEdit edit
      → decode_edit utf8_decode (edit_tree edit) ≡ ok edit
  unfolding decode_edit open_object count_key get text_of text_value number_of number_value
      boolean_of boolean_value equal edit_tree
  decode_edit-tree edit h =
      ground (arith, h, kind-decoded edit.kind, symbol_kind-decoded edit.target_kind)

  pub encode_edit-decode :
      (edit : SessionAnalysisEdit) (budget b : ℕ) (j : Json)
      → encode_edit utf8_decode edit budget ≡ ok (j, b)
      → decode_edit utf8_decode j ≡ ok edit
  encode_edit-decode edit budget b j e =
      let (tree, valid) = encode_edit-tree edit budget b j e in
      rw tree (decode_edit-tree edit valid)

  pub text_node-read :
      (value : Bytes) (budget b : ℕ) (j : Json)
      → text_node utf8_decode value budget ≡ ok (j, b)
      → text_value utf8_decode j ≡ ok value
  unfolding text_value
  text_node-read value budget b j e =
      let (is_string, valid) = text_node-value utf8_decode value budget b j e in
      rw (is_string, valid) refl
