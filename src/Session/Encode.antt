-- ===== src/Session/Encode.antt =====
-- src/backend/session/SessionStore.cpp: `JsonWriter` and `encode`. The writer's budget is the state;
-- the objects and lists that PJ is told to open and to end are the values that are returned.
use mydbg.Base.{ℕ, ◌+◌, ◌-◌, ◌*◌, Bool, not, List, [], ◌∷◌, leb, ltb, if◌then◌else◌, length}
use mydbg.Base.Bytes.{Bytes, codes}
use mydbg.Session.Data.{
  limit, invalid_hash, invalid_epoch, invalid_record, Result, ok, err, require, Utf8Decode,
  check_text, max_records, max_comment, max_document, SessionAddress, SessionBreakpoint,
  SessionSymbol, SessionDebuggerState, SavedAnalysisKind, rename, set_type, mark_string,
  SavedSymbolKind, nothing, function, global, constant, local, parameter, SessionAnalysisEdit,
  SessionModuleAnalysis, SessionComment, SessionData, is_empty, check_hash,
}
use mydbg.Session.Json.{
  Json, object, array, string, integer, boolean, no_field, field, Items, no_item, item,
}

abbrev pub Writer : Type 0 → Type 0
Writer A = ℕ → Result (A × ℕ)

abbrev pub then_write : {A B : Type 0} → Result (A × ℕ) → (A → Writer B) → Result (B × ℕ)
then_write (ok (a, budget)) f = f a budget
then_write (err e) f = err e

infixl 5 ◌>>=◌ ◌>>◌
abbrev pub ◌>>=◌ : {A B : Type 0} → Writer A → (A → Writer B) → Writer B
(m >>= f) budget = then_write (m budget) f

abbrev pub ◌>>◌ : {A B : Type 0} → Writer A → Writer B → Writer B
m >> k = m >>= λ _. k

abbrev pub pure : {A : Type 0} → A → Writer A
pure a budget = ok (a, budget)

abbrev pub with_budget : {A : Type 0} → Result A → ℕ → Result (A × ℕ)
with_budget (ok a) budget = ok (a, budget)
with_budget (err e) budget = err e

-- a check that writes nothing
abbrev pub lift : {A : Type 0} → Result A → Writer A
lift r budget = with_budget r budget

unfoldable pub charge : ℕ → Writer (Unit {0})
charge bytes budget =
    if ltb (max_document - budget) bytes then err limit else ok (tt, budget + bytes)

unfoldable pub key : Bytes → Writer (Unit {0})
unfolding charge
key name = charge (length name + 4)

unfoldable pub number_field : Bytes → ℕ → Writer Json
unfolding key charge
number_field name value = do key name; charge 21; pure (integer value)

unfoldable pub boolean_field : Bytes → Bool → Writer Json
unfolding key charge
boolean_field name value = do key name; charge 6; pure (boolean value)

-- `list(key, count, limit)`
unfoldable pub open_list : Bytes → ℕ → ℕ → Writer (Unit {0})
unfolding key charge
open_list name count most = do lift (require (leb count most) limit); key name; charge 2

-- A loop that writes each entry of a list
unfoldable pub write_each : {A : Type 0} → (A → Writer Json) → List A → Writer Items
write_each write [] = pure no_item
write_each write (a ∷ others) = do
  node ← write a
  items ← write_each write others
  pure (item node items)

-- `encode_enum` with `analysis_kinds` and with `symbol_kinds`
unfoldable pub analysis_kind_name : SavedAnalysisKind → Bytes
analysis_kind_name rename = codes "rename"
analysis_kind_name set_type = codes "set_type"
analysis_kind_name mark_string = codes "mark_string"

unfoldable pub symbol_kind_name : SavedSymbolKind → Bytes
symbol_kind_name nothing = codes "none"
symbol_kind_name function = codes "function"
symbol_kind_name global = codes "global"
symbol_kind_name constant = codes "constant"
symbol_kind_name local = codes "local"
symbol_kind_name parameter = codes "parameter"

pub record Lists : Type 0 where
  pub debugger : Json
  pub modules : Items
  pub comments : Items

-- The document with these last three fields
unfoldable pub root_object : SessionData → Lists → Json
root_object session lists = object (
    field (codes "version") (integer 1) (
      field (codes "sha256") (string session.identity.sha256) (
        field (codes "epoch") (string session.identity.epoch) (
          field (codes "binary_path") (string session.binary_path) (
            field (codes "revision") (integer session.revision) (
              field (codes "analysis_revision") (integer session.analysis_revision) (
                field (codes "debugger") lists.debugger (
                  field (codes "analysis") (array lists.modules)
                    (field (codes "comments") (array lists.comments) no_field)))))))))

module _ (utf8_decode : Utf8Decode) where
  -- `text_bytes`
  unfoldable pub text_node : Bytes → Writer Json
  unfolding check_text charge
  text_node value = do
    lift (check_text utf8_decode value)
    charge (length value * 6 + 3)
    pure (string value)

  unfoldable pub text_field : Bytes → Bytes → Writer Json
  unfolding key text_node
  text_field name value = do key name; text_node value

  unfoldable pub encode_address : SessionAddress → Writer Json
  unfolding check_hash charge text_field number_field
  encode_address address = do
    lift (check_hash address.module_sha256 invalid_hash)
    charge 2
    sha256 ← text_field (codes "module_sha256") address.module_sha256
    path ← text_field (codes "module_path") address.module_path
    file_address ← number_field (codes "file_address") address.file_address
    pure (
        object (
          field (codes "module_sha256") sha256 (
            field (codes "module_path") path (field (codes "file_address") file_address no_field))))

  unfoldable pub encode_breakpoint : SessionBreakpoint → Writer Json
  unfolding check_hash charge text_field
  encode_breakpoint breakpoint = do
    lift (require (not (is_empty breakpoint.serialized)) invalid_record)
    lift (
        if is_empty breakpoint.module_sha256
        then ok tt
        else check_hash breakpoint.module_sha256 invalid_hash)
    charge 2
    serialized ← text_field (codes "serialized") breakpoint.serialized
    condition ← text_field (codes "script_condition") breakpoint.script_condition
    sha256 ← text_field (codes "module_sha256") breakpoint.module_sha256
    path ← text_field (codes "module_path") breakpoint.module_path
    pure (
        object (
          field (codes "serialized") serialized (
            field (codes "script_condition") condition
              (field (codes "module_sha256") sha256 (field (codes "module_path") path no_field)))))

  unfoldable pub encode_strings : Bytes → List Bytes → Writer Json
  unfolding open_list write_each text_node
  encode_strings name values = do
    open_list name (length values) 4096
    items ← write_each text_node values
    pure (array items)

  unfoldable pub encode_symbol : SessionSymbol → Writer Json
  unfolding charge text_field key encode_address
  encode_symbol symbol = do
    charge 2
    name ← text_field (codes "name") symbol.name
    key (codes "address")
    address ← encode_address symbol.address
    pure (object (field (codes "name") name (field (codes "address") address no_field)))

  unfoldable pub encode_debugger : SessionDebuggerState → Writer Json
  unfolding charge open_list write_each encode_breakpoint encode_strings encode_symbol text_field
  encode_debugger state = do
    charge 2
    open_list (codes "breakpoints") (length state.breakpoints) 4096
    breakpoints ← write_each encode_breakpoint state.breakpoints
    watches ← encode_strings (codes "watches") state.watches
    arguments ← encode_strings (codes "arguments") state.arguments
    open_list (codes "symbols") (length state.symbols) 16384
    symbols ← write_each encode_symbol state.symbols
    directory ← text_field (codes "working_directory") state.working_directory
    pure (
        object (
          field (codes "breakpoints") (array breakpoints) (
            field (codes "watches") watches (
              field (codes "arguments") arguments (
                field (codes "symbols") (array symbols)
                  (field (codes "working_directory") directory no_field))))))

  unfoldable pub encode_edit : SessionAnalysisEdit → Writer Json
  unfolding charge text_field number_field boolean_field analysis_kind_name symbol_kind_name
  encode_edit edit = do
    charge 2
    kind ← text_field (codes "kind") (analysis_kind_name edit.kind)
    target_kind ← text_field (codes "target_kind") (symbol_kind_name edit.target_kind)
    function_file_address ← number_field (codes "function_file_address") edit.function_file_address
    target_name ← text_field (codes "target_name") edit.target_name
    target ← number_field (codes "target_file_address") edit.target_file_address
    has_target ← boolean_field (codes "has_target_file_address") edit.has_target_file_address
    value ← text_field (codes "value") edit.value
    pure (
        object (
          field (codes "kind") kind (
            field (codes "target_kind") target_kind (
              field (codes "function_file_address") function_file_address (
                field (codes "target_name") target_name (
                  field (codes "target_file_address") target (
                    field (codes "has_target_file_address") has_target
                      (field (codes "value") value no_field))))))))

  -- `edits` counts those of the modules before.
  unfoldable pub encode_module : ℕ → SessionModuleAnalysis → Writer Json
  unfolding check_hash charge text_field open_list write_each encode_edit
  encode_module edits analysis = do
    lift (check_hash analysis.sha256 invalid_hash)
    lift (require (leb (length analysis.edits) (max_records - edits)) limit)
    charge 2
    sha256 ← text_field (codes "sha256") analysis.sha256
    path ← text_field (codes "path") analysis.path
    open_list (codes "edits") (length analysis.edits) max_records
    edit_items ← write_each encode_edit analysis.edits
    pure (
        object (
          field (codes "sha256") sha256
            (field (codes "path") path (field (codes "edits") (array edit_items) no_field))))

  unfoldable pub encode_modules : ℕ → List SessionModuleAnalysis → Writer Items
  unfolding encode_module
  encode_modules edits [] = pure no_item
  encode_modules edits (analysis ∷ others) = do
    node ← encode_module edits analysis
    items ← encode_modules (edits + length analysis.edits) others
    pure (item node items)

  unfoldable pub encode_comment : SessionComment → Writer Json
  unfolding charge key encode_address text_field
  encode_comment comment = do
    lift (require (not (is_empty comment.text)) invalid_record)
    lift (require (leb (length comment.text) max_comment) limit)
    charge 2
    key (codes "address")
    address ← encode_address comment.address
    text ← text_field (codes "text") comment.text
    pure (object (field (codes "address") address (field (codes "text") text no_field)))

  -- The last three fields of the document
  unfoldable pub encode_lists : SessionData → Writer Lists
  unfolding key encode_debugger open_list encode_modules write_each encode_comment
  encode_lists session = do
    key (codes "debugger")
    debugger ← encode_debugger session.debugger
    open_list (codes "analysis") (length session.analysis) 1024
    modules ← encode_modules 0 session.analysis
    open_list (codes "comments") (length session.comments) max_records
    comments ← write_each encode_comment session.comments
    pure (record { debugger = debugger; modules = modules; comments = comments })

  unfoldable pub encode_root : SessionData → Writer Json
  unfolding check_hash charge number_field text_field encode_lists root_object
  encode_root session = do
    lift (check_hash session.identity.sha256 invalid_hash)
    lift (check_hash session.identity.epoch invalid_epoch)
    charge 2
    number_field (codes "version") 1
    text_field (codes "sha256") session.identity.sha256
    text_field (codes "epoch") session.identity.epoch
    text_field (codes "binary_path") session.binary_path
    number_field (codes "revision") session.revision
    number_field (codes "analysis_revision") session.analysis_revision
    lists ← encode_lists session
    pure (root_object session lists)

abbrev pub written : Result (Json × ℕ) → Result Json
written (ok (node, budget)) = ok node
written (err e) = err e

-- `encode`, up to the text that PJ makes of the value
unfoldable pub encode : Utf8Decode → SessionData → Result Json
unfolding encode_root
encode utf8_decode session = written (encode_root utf8_decode session 0)
