-- ===== src/Tests/Saved.antt =====
-- Runs of the saved sessions at concrete inputs.
use mydbg.Base.{
  ℕ, ◌+◌, ◌≡◌, refl, ◌≢◌, Bool, true, false, none, some, List, [], ◌∷◌, ◌++◌, arith, if◌then◌else◌,
  replicate,
}
use mydbg.Base.Bytes.{Bytes, codes, equal}
use mydbg.Session.Data.{
  Result, ok, err, malformed, system_error, rollback_error, SessionIdentity, SessionAddress,
  SessionDebuggerState, SessionAnalysisEdit, rename, function, SessionComment, SessionData,
}
use mydbg.Session.Json.{Json}
use mydbg.Session.Encode.{encode}
use mydbg.Session.Decode.{decode_root, same_address}
use mydbg.Session.Reading.{decode, read_document}
use mydbg.Session.Mutations.{value_or}
use mydbg.Tests.Documents.{ascii, codec_of, codec_of-faithful}
use mydbg.Session.RoundTrip.{encode-decode}
use mydbg.Session.WellFormed.{WellFormed, decode-WellFormed}
use mydbg.Session.Disk.{
  Directory, Faults, write_disk, outcome, final, interrupted, wrote, Throughout,
}
use mydbg.Session.Atomic.{write_disk-Atomic, write_disk-completes, Ended, OldOrNew}
use mydbg.Session.Mutations.{add_analysis, change_comment}
use mydbg.Session.AsMap.{comment_at, edits_of, change_comment-at, add_analysis-at}
use mydbg.Session.Store.{Store, entry_of, Attempt, Codec, SessionStatus, empty_status, data_status}
use mydbg.Session.Operations.{mutate, load, set_comment, append_analysis, save_debugger}
use mydbg.Session.Clear.{clear}
use mydbg.Session.Preflight.{check, string_body}
use mydbg.Session.Ends.{check-ends}
use mydbg.Session.Thrown.{mutate-thrown, load-thrown, clear-thrown}
use mydbg.Session.ReadBack.{Between, set_comment-saved, append_analysis-saved, save_debugger-saved}

abbrev a_hash : Bytes
a_hash = replicate 64 b'a'

abbrev an_identity : SessionIdentity
an_identity = record { sha256 = a_hash; epoch = replicate 64 b'e' }

abbrev main_address : SessionAddress
main_address = record { module_sha256 = a_hash; module_path = codes "/a"; file_address = 4096 }

abbrev no_debugger : SessionDebuggerState
no_debugger = record {
  breakpoints = [];
  watches = [];
  symbols = [];
  arguments = [];
  working_directory = [];
}

abbrev a_session : ℕ → List SessionComment → SessionData
a_session revision comments = record {
  identity = an_identity;
  binary_path = codes "/a";
  revision = revision;
  analysis_revision = revision;
  debugger = no_debugger;
  analysis = [];
  comments = comments;
}

abbrev one_comment : SessionData
one_comment = a_session 1 (record { address = main_address; text = codes "entry" } ∷ [])

abbrev tree_of : SessionData → Json
tree_of session = value (encode ascii session)
  where
    value : Result Json → Json
    value (ok j) = j
    value (err key) = Json.other

abbrev commented : SessionData
commented = a_session 2 (record { address = main_address; text = codes "start" } ∷ [])

-- The documents of the tests
abbrev a_codec : Codec
a_codec = codec_of (tree_of one_comment ∷ tree_of commented ∷ [])

encoded : encode ascii one_comment ≡ ok (tree_of one_comment)
unfolding encode
encoded = refl

encode-decode_example : decode a_codec (a_codec.print (tree_of one_comment)) a_hash ≡ ok one_comment
unfolding codec_of check encode
encode-decode_example =
    encode-decode a_codec one_comment (tree_of one_comment) tt (tt, tt) (omega arith) encoded refl
      refl

decoded : decode_root ascii (tree_of one_comment) a_hash ≡ ok one_comment
unfolding decode_root encode
decoded = refl

decode-WellFormed_example : WellFormed one_comment × (one_comment.identity.sha256 ≡ a_hash)
decode-WellFormed_example = decode-WellFormed ascii (tree_of one_comment) a_hash one_comment decoded

-- A system that refuses nothing, or only what is given
abbrev no_faults : Bool → Bool → Faults
no_faults syncs_rename restores = record {
  removes_temporary = true;
  removes_previous = true;
  creates = true;
  writes = interrupted ∷ wrote 2 ∷ [];
  syncs_file = true;
  links = true;
  syncs_backup = true;
  renames = true;
  syncs_rename = syncs_rename;
  restores = restores;
}

abbrev old_document : Directory
old_document = record { session = some (codes "old"); temporary = none; previous = none }

write_disk-Atomic_example :
    Throughout
      (OldOrNew (some (codes "old")) (codes "newer"))
      (write_disk (no_faults false true) (codes "newer") old_document)
    × Ended
        (no_faults false true)
        (some (codes "old"))
        (codes "newer")
        (outcome (write_disk (no_faults false true) (codes "newer") old_document))
        (final (write_disk (no_faults false true) (codes "newer") old_document))
write_disk-Atomic_example =
    write_disk-Atomic (no_faults false true) (codes "newer") old_document refl refl

restored : final (write_disk (no_faults false true) (codes "newer") old_document) ≡ old_document
unfolding write_disk
restored = refl

write_disk-completes_example :
    outcome (write_disk (no_faults true true) (codes "newer") old_document) ≡ ok tt
write_disk-completes_example =
    write_disk-completes (no_faults true true) (codes "newer") old_document refl
      (tt, (omega arith, tt)) refl refl refl refl refl

change_comment-at_example :
    (comment_at [] main_address ≡ (
      if same_address main_address main_address
      then none
      else comment_at one_comment.comments main_address))
    × ((a_session 1 []).analysis ≡ one_comment.analysis)
    × ((a_session 1 []).debugger ≡ one_comment.debugger)
    × ((a_session 1 []).revision ≡ one_comment.revision)
    × ((a_session 1 []).identity ≡ one_comment.identity)
    × ((a_session 1 []).binary_path ≡ one_comment.binary_path)
    × ((a_session 1 []).analysis_revision ≡ one_comment.analysis_revision)
unfolding change_comment same_address
change_comment-at_example =
    change_comment-at ascii main_address main_address [] one_comment (a_session 1 []) (tt, tt)
      erased
  where
    erased : change_comment ascii main_address [] one_comment ≡ ok (a_session 1 [])
    erased = refl

abbrev an_edit : SessionAnalysisEdit
an_edit = record {
  kind = rename;
  target_kind = function;
  function_file_address = 4096;
  target_name = codes "main";
  target_file_address = 0;
  has_target_file_address = false;
  value = codes "start";
}

abbrev one_edit : SessionData
one_edit = record {
  identity = an_identity;
  binary_path = codes "/a";
  revision = 1;
  analysis_revision = 1;
  debugger = no_debugger;
  analysis = record { sha256 = a_hash; path = codes "/a"; edits = an_edit ∷ [] } ∷ [];
  comments = [];
}

add_analysis-at_example :
    edits_of one_edit.analysis a_hash
    ≡ (if equal a_hash a_hash then edits_of [] a_hash ++ (an_edit ∷ []) else edits_of [] a_hash)
unfolding add_analysis
add_analysis-at_example =
    add_analysis-at a_hash (codes "/a") a_hash an_edit (a_session 1 []) one_edit added
  where
    added : add_analysis a_hash (codes "/a") an_edit (a_session 1 []) ≡ ok one_edit
    added = refl

abbrev an_attempt : Bool → Attempt
an_attempt fine = record {
  opened = ok tt;
  readable = ok tt;
  faults = no_faults fine true;
  new_epoch = ok (replicate 64 b'f');
  new_temporary = ok (codes "t");
}

abbrev a_store : Store
a_store = record {
  documents = λ sha256. if equal sha256 a_hash then some (codes "1") else none;
  cache = λ sha256. none;
}

abbrev comment_run : Bool → Result SessionStatus × Store
comment_run fine =
    set_comment a_codec (an_attempt fine) an_identity main_address (codes "start") a_store

abbrev result_status : Result SessionStatus → SessionStatus
result_status (ok status) = status
result_status (err key) = empty_status []

comment_run-status : (comment_run true).0 ≡ ok (data_status commented)
unfolding set_comment data_status codec_of
comment_run-status = refl

-- The document that the call wrote is read as the session that it made.
comment_run-read :
    read_document a_codec a_hash ((comment_run true).1.documents a_hash) ≡ ok (some commented)
unfolding set_comment read_document codec_of
comment_run-read = refl

faithful :
    (session : SessionData) (node : Json)
    → encode ascii session ≡ ok node
    → check ascii (a_codec.print node) ≡ some (ok tt)
    → a_codec.parse (a_codec.print node) ≡ some node
unfolding codec_of
faithful session node e checked =
    codec_of-faithful (tree_of one_comment ∷ tree_of commented ∷ []) node checked

set_comment-saved_example :
    (before after : SessionData) × (node : Json) × Between a_codec
      (an_attempt true)
      an_identity
      a_store
      (comment_run true).1
      (result_status (comment_run true).0)
      before
      after
      node
    × (after.revision ≡ before.revision + 1)
    × (after.analysis_revision ≡ before.analysis_revision + 1)
    × ((b : SessionAddress)
        → comment_at after.comments b ≡ (
            if same_address main_address b
            then some (codes "start")
            else comment_at before.comments b))
    × (after.binary_path ≡ before.binary_path)
    × (after.analysis ≡ before.analysis)
    × (after.debugger ≡ before.debugger)
unfolding set_comment codec_of
set_comment-saved_example =
    set_comment-saved a_codec (an_attempt true) an_identity a_store (comment_run true).1
      (result_status (comment_run true).0) faithful main_address (codes "start") refl

abbrev edit_run : Result SessionStatus × Store
edit_run = append_analysis a_codec (an_attempt true) an_identity a_hash (codes "/a") an_edit a_store

append_analysis-saved_example :
    (before after : SessionData) × (node : Json) × Between a_codec
      (an_attempt true)
      an_identity
      a_store
      edit_run.1
      (result_status edit_run.0)
      before
      after
      node
    × (after.revision ≡ before.revision + 1)
    × (after.analysis_revision ≡ before.analysis_revision + 1)
    × ((other : Bytes)
        → edits_of after.analysis other ≡ (
            if equal a_hash other
            then edits_of before.analysis other ++ (an_edit ∷ [])
            else edits_of before.analysis other))
    × (after.binary_path ≡ before.binary_path)
    × (after.debugger ≡ before.debugger)
    × (after.comments ≡ before.comments)
unfolding append_analysis codec_of
append_analysis-saved_example =
    append_analysis-saved a_codec (an_attempt true) an_identity a_store edit_run.1
      (result_status edit_run.0) faithful a_hash (codes "/a") an_edit refl

abbrev some_debugger : SessionDebuggerState
some_debugger = record {
  breakpoints = [];
  watches = codes "x" ∷ [];
  symbols = [];
  arguments = codes "-v" ∷ [];
  working_directory = codes "/";
}

abbrev save_run : Result SessionStatus × Store
save_run = save_debugger a_codec (an_attempt true) an_identity some_debugger a_store

save_debugger-saved_example :
    (before after : SessionData) × (node : Json) × Between a_codec
      (an_attempt true)
      an_identity
      a_store
      save_run.1
      (result_status save_run.0)
      before
      after
      node
    × (after.debugger ≡ some_debugger)
    × (after.binary_path ≡ value_or before.binary_path (entry_of a_store a_hash).loaded_binary_path)
    × (after.revision ≡ before.revision + 1)
    × (after.analysis_revision ≡ before.analysis_revision)
    × (after.analysis ≡ before.analysis)
    × (after.comments ≡ before.comments)
unfolding save_debugger codec_of
save_debugger-saved_example =
    save_debugger-saved a_codec (an_attempt true) an_identity a_store save_run.1
      (result_status save_run.0) faithful some_debugger refl

different : system_error ≢ rollback_error
different = λ e. cc

mutate-thrown_example :
    (mutate a_codec
        (an_attempt false)
        an_identity
        true
        (λ s session. change_comment ascii main_address (codes "start") session)
        a_store).1.documents
      a_hash
    ≡ some (codes "1")
unfolding mutate change_comment codec_of
mutate-thrown_example =
    mutate-thrown a_codec (an_attempt false) an_identity true
      (λ s session. change_comment ascii main_address (codes "start") session) a_store system_error
      a_hash refl different

abbrev empty_store : Store
empty_store = record { documents = λ sha256. none; cache = λ sha256. none }

load-thrown_example :
    (load a_codec (an_attempt false) a_hash (codes "/a") empty_store).1.documents a_hash ≡ none
unfolding load codec_of
load-thrown_example =
    load-thrown a_codec (an_attempt false) a_hash (codes "/a") empty_store system_error a_hash refl
      different

clear-thrown_example :
    (clear a_codec (an_attempt false) a_hash a_store).1.documents a_hash ≡ some (codes "1")
unfolding clear codec_of
clear-thrown_example =
    clear-thrown a_codec (an_attempt false) a_hash a_store system_error a_hash refl different

check-ends_example :
    (r : Result (Unit {0})) × (check ascii (codes "{\"a\": [1, true, \"\\u00e9\"]}") ≡ some r)
check-ends_example = check-ends ascii (codes "{\"a\": [1, true, \"\\u00e9\"]}")

checked : check ascii (codes "{\"a\": [1, true, \"\\u00e9\"]}") ≡ some (ok tt)
unfolding check string_body
checked = refl

checked-trailing : check ascii (codes "[1,]") ≡ some (err malformed)
unfolding check string_body
checked-trailing = refl
