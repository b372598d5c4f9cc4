-- ===== src/Session/Decode.antt =====
-- src/backend/session/SessionStore.cpp: `decode`, behind the parser of JSON.
use mydbg.Base.{ℕ, suc, ◌+◌, Bool, not, ◌&&◌, List, [], ◌∷◌, leb, ◌==◌, if◌then◌else◌, length, all}
use mydbg.Base.Bytes.{Bytes, codes, equal}
use mydbg.Session.Data.{
  limit, invalid_hash, invalid_epoch, invalid_record, version, hash_mismatch, Result, ok, err,
  ◌>>=◌, ◌>>◌, require, Utf8Decode, max_records, max_comment, SessionAddress, SessionBreakpoint,
  SessionSymbol, SessionDebuggerState, SavedAnalysisKind, rename, set_type, mark_string,
  SavedSymbolKind, nothing, function, global, constant, local, parameter, SessionAnalysisEdit,
  SessionModuleAnalysis, SessionComment, SessionData, is_empty, check_hash,
}
use mydbg.Session.Json.{
  Json, Fields, Items, no_item, item, open_object, get, text_value, text_of, number_of, boolean_of,
  array_items, each,
}

-- `decode_enum` with `analysis_kinds` and with `symbol_kinds`
unfoldable pub decode_analysis_kind : Bytes → Result SavedAnalysisKind
unfolding equal
decode_analysis_kind name =
    if equal name (codes "rename")
    then ok rename
    else if equal name (codes "set_type")
    then ok set_type
    else if equal name (codes "mark_string")
    then ok mark_string
    else err invalid_record

unfoldable pub decode_symbol_kind : Bytes → Result SavedSymbolKind
unfolding equal
decode_symbol_kind name =
    if equal name (codes "none")
    then ok nothing
    else if equal name (codes "function")
    then ok function
    else if equal name (codes "global")
    then ok global
    else if equal name (codes "constant")
    then ok constant
    else if equal name (codes "local")
    then ok local
    else if equal name (codes "parameter")
    then ok parameter
    else err invalid_record

-- whether a module or a comment was inserted before
unfoldable pub same_address : SessionAddress → SessionAddress → Bool
unfolding equal
same_address a b = equal a.module_sha256 b.module_sha256 && a.file_address == b.file_address

module _ (utf8_decode : Utf8Decode) where
  unfoldable pub decode_address : Json → Result SessionAddress
  unfolding open_object text_of number_of check_hash
  decode_address node = do
    object ←
        open_object node (codes "module_sha256" ∷ codes "module_path" ∷ codes "file_address" ∷ [])
    sha256 ← text_of utf8_decode object (codes "module_sha256")
    path ← text_of utf8_decode object (codes "module_path")
    file_address ← number_of object (codes "file_address")
    check_hash sha256 invalid_hash
    ok (record { module_sha256 = sha256; module_path = path; file_address = file_address })

  unfoldable pub decode_breakpoint : Json → Result SessionBreakpoint
  unfolding open_object text_of check_hash
  decode_breakpoint node = do
    breakpoint ← open_object node (
        codes "serialized"
        ∷ codes "script_condition"
        ∷ codes "module_sha256"
        ∷ codes "module_path"
        ∷ [])
    serialized ← text_of utf8_decode breakpoint (codes "serialized")
    script_condition ← text_of utf8_decode breakpoint (codes "script_condition")
    sha256 ← text_of utf8_decode breakpoint (codes "module_sha256")
    path ← text_of utf8_decode breakpoint (codes "module_path")
    if is_empty sha256 then ok tt else check_hash sha256 invalid_hash
    require (not (is_empty serialized)) invalid_record
    ok (record {
      serialized = serialized;
      script_condition = script_condition;
      module_sha256 = sha256;
      module_path = path;
    })

  -- `strings`
  unfoldable pub decode_strings : Json → Result (List Bytes)
  unfolding array_items each text_value
  decode_strings node = do items ← array_items node 4096; each (text_value utf8_decode) items

  unfoldable pub decode_symbol : Json → Result SessionSymbol
  unfolding open_object text_of get decode_address
  decode_symbol node = do
    symbol ← open_object node (codes "name" ∷ codes "address" ∷ [])
    name ← text_of utf8_decode symbol (codes "name")
    address_node ← get (codes "address") symbol
    address ← decode_address address_node
    ok (record { name = name; address = address })

  unfoldable pub decode_debugger : Json → Result SessionDebuggerState
  unfolding open_object get array_items each decode_breakpoint decode_strings decode_symbol text_of
  decode_debugger node = do
    debugger ← open_object node (
        codes "breakpoints"
        ∷ codes "watches"
        ∷ codes "symbols"
        ∷ codes "arguments"
        ∷ codes "working_directory"
        ∷ [])
    breakpoints_node ← get (codes "breakpoints") debugger
    breakpoint_items ← array_items breakpoints_node 4096
    breakpoints ← each decode_breakpoint breakpoint_items
    watches_node ← get (codes "watches") debugger
    watches ← decode_strings watches_node
    arguments_node ← get (codes "arguments") debugger
    arguments ← decode_strings arguments_node
    working_directory ← text_of utf8_decode debugger (codes "working_directory")
    symbols_node ← get (codes "symbols") debugger
    symbol_items ← array_items symbols_node 16384
    symbols ← each decode_symbol symbol_items
    ok (record {
      breakpoints = breakpoints;
      watches = watches;
      symbols = symbols;
      arguments = arguments;
      working_directory = working_directory;
    })

  unfoldable pub decode_edit : Json → Result SessionAnalysisEdit
  unfolding open_object text_of number_of boolean_of decode_analysis_kind decode_symbol_kind
  decode_edit node = do
    edit ← open_object node (
        codes "kind"
        ∷ codes "target_kind"
        ∷ codes "function_file_address"
        ∷ codes "target_name"
        ∷ codes "target_file_address"
        ∷ codes "has_target_file_address"
        ∷ codes "value"
        ∷ [])
    kind_name ← text_of utf8_decode edit (codes "kind")
    kind ← decode_analysis_kind kind_name
    target_kind_name ← text_of utf8_decode edit (codes "target_kind")
    target_kind ← decode_symbol_kind target_kind_name
    function_file_address ← number_of edit (codes "function_file_address")
    target_name ← text_of utf8_decode edit (codes "target_name")
    target_file_address ← number_of edit (codes "target_file_address")
    has_target_file_address ← boolean_of edit (codes "has_target_file_address")
    value ← text_of utf8_decode edit (codes "value")
    ok (record {
      kind = kind;
      target_kind = target_kind;
      function_file_address = function_file_address;
      target_name = target_name;
      target_file_address = target_file_address;
      has_target_file_address = has_target_file_address;
      value = value;
    })

  -- The count of edits runs over all modules: `++edit_count > max_records`.
  unfoldable pub decode_edits : ℕ → Items → Result (List SessionAnalysisEdit)
  unfolding decode_edit
  decode_edits count no_item = ok []
  decode_edits count (item node items) = do
    require (leb (suc count) max_records) limit
    edit ← decode_edit node
    others ← decode_edits (suc count) items
    ok (edit ∷ others)

  -- `seen` are the hashes in `module_keys`.
  unfoldable pub decode_module : List Bytes → ℕ → Json → Result SessionModuleAnalysis
  unfolding open_object text_of check_hash get array_items decode_edits equal
  decode_module seen count node = do
    module_object ← open_object node (codes "sha256" ∷ codes "path" ∷ codes "edits" ∷ [])
    sha256 ← text_of utf8_decode module_object (codes "sha256")
    path ← text_of utf8_decode module_object (codes "path")
    check_hash sha256 invalid_hash
    require (all (λ s. not (equal s sha256)) seen) invalid_record
    edits_node ← get (codes "edits") module_object
    edit_items ← array_items edits_node max_records
    edits ← decode_edits count edit_items
    ok (record { sha256 = sha256; path = path; edits = edits })

  unfoldable pub decode_modules : List Bytes → ℕ → Items → Result (List SessionModuleAnalysis)
  unfolding decode_module
  decode_modules seen count no_item = ok []
  decode_modules seen count (item node items) = do
    here ← decode_module seen count node
    others ← decode_modules (here.sha256 ∷ seen) (count + length here.edits) items
    ok (here ∷ others)

  unfoldable pub decode_comment : List SessionAddress → Json → Result SessionComment
  unfolding open_object get decode_address text_of same_address
  decode_comment seen node = do
    comment ← open_object node (codes "address" ∷ codes "text" ∷ [])
    address_node ← get (codes "address") comment
    address ← decode_address address_node
    text ← text_of utf8_decode comment (codes "text")
    require (leb (length text) max_comment) limit
    require (not (is_empty text)) invalid_record
    require (all (λ a. not (same_address a address)) seen) invalid_record
    ok (record { address = address; text = text })

  unfoldable pub decode_comments : List SessionAddress → Items → Result (List SessionComment)
  unfolding decode_comment
  decode_comments seen no_item = ok []
  decode_comments seen (item node items) = do
    here ← decode_comment seen node
    others ← decode_comments (here.address ∷ seen) items
    ok (here ∷ others)

  -- The lists at the end of the document
  unfoldable pub decode_lists :
      Fields → Bytes → Bytes → Bytes → ℕ → ℕ → SessionDebuggerState → Result SessionData
  unfolding get array_items decode_modules decode_comments
  decode_lists root stored_sha256 epoch binary_path revision analysis_revision debugger = do
    analysis_node ← get (codes "analysis") root
    module_items ← array_items analysis_node 1024
    analysis ← decode_modules [] 0 module_items
    comments_node ← get (codes "comments") root
    comment_items ← array_items comments_node max_records
    comments ← decode_comments [] comment_items
    ok (record {
      identity = record { sha256 = stored_sha256; epoch = epoch };
      binary_path = binary_path;
      revision = revision;
      analysis_revision = analysis_revision;
      debugger = debugger;
      analysis = analysis;
      comments = comments;
    })

  -- The fields of the document, behind the check of the epoch
  unfoldable pub decode_tail : Fields → Bytes → Bytes → Result SessionData
  unfolding text_of number_of get decode_debugger decode_lists
  decode_tail root stored_sha256 epoch = do
    binary_path ← text_of utf8_decode root (codes "binary_path")
    revision ← number_of root (codes "revision")
    analysis_revision ← number_of root (codes "analysis_revision")
    require (leb analysis_revision revision) invalid_record
    debugger_node ← get (codes "debugger") root
    debugger ← decode_debugger debugger_node
    decode_lists root stored_sha256 epoch binary_path revision analysis_revision debugger

  -- `decode` behind the parser. The order of the checks is the source's.
  unfoldable pub decode_root : Json → Bytes → Result SessionData
  unfolding open_object number_of text_of check_hash equal decode_tail
  decode_root node sha256 = do
    root ← open_object node (
        codes "version"
        ∷ codes "sha256"
        ∷ codes "epoch"
        ∷ codes "binary_path"
        ∷ codes "revision"
        ∷ codes "analysis_revision"
        ∷ codes "debugger"
        ∷ codes "analysis"
        ∷ codes "comments"
        ∷ [])
    format ← number_of root (codes "version")
    require (format == 1) version
    stored_sha256 ← text_of utf8_decode root (codes "sha256")
    epoch ← text_of utf8_decode root (codes "epoch")
    require (equal stored_sha256 sha256) hash_mismatch
    check_hash epoch invalid_epoch
    decode_tail root stored_sha256 epoch
