-- ===== src/Session/Mutations.antt =====
-- src/backend/session/SessionStore.cpp: what the mutations do to the data of a session.
use mydbg.Base.{
  ℕ, ◌+◌, ◌-◌, ◌^◌, Bool, not, ◌&&◌, ◌||◌, Option, none, some, List, [], ◌∷◌, ◌++◌, leb, ◌==◌,
  if◌then◌else◌, length,
}
use mydbg.Base.Bytes.{Bytes, equal}
use mydbg.Session.Data.{
  Result, ok, ◌>>◌, require, Utf8Decode, check_text, check_hash, invalid_hash, limit,
  revision_overflow, max_comment, is_empty, SessionAddress, SessionDebuggerState,
  SessionAnalysisEdit, SessionModuleAnalysis, SessionComment, SessionData,
}
use mydbg.Session.Decode.{same_address}

abbrev pub max_revision : ℕ
max_revision = 2 ^ 64 - 1

unfoldable pub advance_revision : Bool → SessionData → Result SessionData
advance_revision analysis session = do
  require
      (not (
        session.revision == max_revision
        || (analysis && session.analysis_revision == max_revision)))
      revision_overflow
  ok (record {
    identity = session.identity;
    binary_path = session.binary_path;
    revision = session.revision + 1;
    analysis_revision =
        if analysis then session.analysis_revision + 1 else session.analysis_revision;
    debugger = session.debugger;
    analysis = session.analysis;
    comments = session.comments;
  })

abbrev pub value_or : Bytes → Option Bytes → Bytes
value_or default none = default
value_or default (some value) = value

-- The mutation of `save_debugger`: the path is that of the last `load`.
unfoldable pub set_debugger : SessionDebuggerState → Option Bytes → SessionData → SessionData
set_debugger state loaded_binary_path session = record {
  identity = session.identity;
  binary_path = value_or session.binary_path loaded_binary_path;
  revision = session.revision;
  analysis_revision = session.analysis_revision;
  debugger = state;
  analysis = session.analysis;
  comments = session.comments;
}

-- The mutation of `append_analysis`: the first module with the hash gets the edit and the path.
unfoldable pub append_edit :
    Bytes → Bytes → SessionAnalysisEdit → List SessionModuleAnalysis → List SessionModuleAnalysis
append_edit sha256 path edit [] = record { sha256 = sha256; path = path; edits = edit ∷ [] } ∷ []
append_edit sha256 path edit (m ∷ ms) =
    let others = append_edit sha256 path edit ms in
    if equal m.sha256 sha256
    then record { sha256 = m.sha256; path = path; edits = m.edits ++ (edit ∷ []) } ∷ ms
    else m ∷ others

abbrev with_analysis : List SessionModuleAnalysis → SessionData → SessionData
with_analysis analysis session = record {
  identity = session.identity;
  binary_path = session.binary_path;
  revision = session.revision;
  analysis_revision = session.analysis_revision;
  debugger = session.debugger;
  analysis = analysis;
  comments = session.comments;
}

unfoldable pub add_analysis : Bytes → Bytes → SessionAnalysisEdit → SessionData → Result SessionData
unfolding check_hash append_edit
add_analysis sha256 path edit session = do
  check_hash sha256 invalid_hash
  ok (with_analysis (append_edit sha256 path edit session.analysis) session)

-- The first comment at the address is replaced, or the comment is added at the end.
unfoldable pub put_comment : SessionAddress → Bytes → List SessionComment → List SessionComment
put_comment address text [] = record { address = address; text = text } ∷ []
put_comment address text (c ∷ cs) =
    let others = put_comment address text cs in
    if same_address c.address address
    then record { address = address; text = text } ∷ cs
    else c ∷ others

unfoldable pub erase_comment : SessionAddress → List SessionComment → List SessionComment
erase_comment address [] = []
erase_comment address (c ∷ cs) =
    let others = erase_comment address cs in
    if same_address c.address address then cs else c ∷ others

abbrev with_comments : List SessionComment → SessionData → SessionData
with_comments comments session = record {
  identity = session.identity;
  binary_path = session.binary_path;
  revision = session.revision;
  analysis_revision = session.analysis_revision;
  debugger = session.debugger;
  analysis = session.analysis;
  comments = comments;
}

-- The mutation of `set_comment`: the empty text erases.
unfoldable pub change_comment :
    Utf8Decode → SessionAddress → Bytes → SessionData → Result SessionData
unfolding check_hash check_text put_comment erase_comment
change_comment utf8_decode address text session = do
  check_hash address.module_sha256 invalid_hash
  check_text utf8_decode address.module_path
  require (leb (length text) max_comment) limit
  check_text utf8_decode text
  ok (
      with_comments
        (if is_empty text
          then erase_comment address session.comments
          else put_comment address text session.comments)
        session)
