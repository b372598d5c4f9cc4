-- ===== src/Session/Operations.antt =====
-- src/backend/session/SessionStore.cpp: the operations of `SessionStore`.
use mydbg.Base.{ℕ, Bool, true, false, Option, none, some, [], if◌then◌else◌}
use mydbg.Base.Bytes.{Bytes}
use mydbg.Session.Data.{
  Result, ok, err, check_text, check_hash, invalid_hash, invalid_epoch, stale_epoch,
  SessionIdentity, SessionAddress, SessionDebuggerState, SessionAnalysisEdit, SessionData,
}
use mydbg.Session.Encode.{encode}
use mydbg.Session.Reading.{read_document}
use mydbg.Session.Disk.{outcome, final, write_disk}
use mydbg.Session.Mutations.{advance_revision, set_debugger, add_analysis, change_comment}
use mydbg.Session.Store.{
  SessionStatus, Store, Attempt, Codec, updated, Action, ◌>>=◌, ◌>>◌, lift, entry_of, remember,
  forget, record_error, guarded, same_identity,
}

abbrev empty_debugger : SessionDebuggerState
empty_debugger = record {
  breakpoints = [];
  watches = [];
  symbols = [];
  arguments = [];
  working_directory = [];
}

unfoldable pub empty_session :
    SessionIdentity → (path : Bytes) → (revision analysis : ℕ) → SessionData
empty_session identity path revision analysis = record {
  identity = identity;
  binary_path = path;
  revision = revision;
  analysis_revision = analysis;
  debugger = empty_debugger;
  analysis = [];
  comments = [];
}

module _ (codec : Codec) (attempt : Attempt) where
  unfoldable pub read_session : Bytes → Action (Option SessionData)
  unfolding read_document
  read_session sha256 = do
    lift attempt.readable
    λ store. (read_document codec sha256 (store.documents sha256), store)

  -- The directory's entry after `write_disk`
  unfoldable pub replace_document : Bytes → Bytes → Action (Unit {0})
  unfolding write_disk
  replace_document sha256 contents store =
      let run =
        write_disk attempt.faults contents
          (record { session = store.documents sha256; temporary = none; previous = none }) in
      (
        outcome run,
        record {
          documents = updated sha256 (final run).session store.documents;
          cache = store.cache;
        },
      )

  unfoldable pub write_session : SessionData → Action (Unit {0})
  unfolding encode replace_document
  write_session session = do
    node ← lift (encode codec.utf8_decode session)
    lift attempt.new_temporary
    replace_document session.identity.sha256 (codec.print node)

  -- `mutate` where the session's epoch is not the caller's: what is there is remembered.
  unfoldable pub refuse : Bytes → Option SessionData → Action SessionStatus
  unfolding remember forget
  refuse sha256 none = do forget sha256; lift (err stale_epoch)
  refuse sha256 (some current) = do remember current; lift (err stale_epoch)

  -- `mutate` where it is
  unfoldable pub apply :
      (analysis : Bool)
      → (Store → SessionData → Result SessionData)
      → SessionData
      → Action SessionStatus
  unfolding advance_revision write_session remember
  apply analysis mutation current = do
    changed ← λ store. (mutation store current, store)
    next ← lift (advance_revision analysis changed)
    write_session next
    remember next
    λ store. (ok (entry_of store next.identity.sha256).status, store)

  unfoldable pub dispatch :
      SessionIdentity
      → Bool
      → (Store → SessionData → Result SessionData)
      → Option SessionData
      → Action SessionStatus
  unfolding refuse apply
  dispatch identity analysis mutation none = refuse identity.sha256 none
  dispatch identity analysis mutation (some current) =
      if same_identity current.identity identity
      then apply analysis mutation current
      else refuse identity.sha256 (some current)

  unfoldable pub mutate :
      SessionIdentity
      → (analysis : Bool) → (Store → SessionData → Result SessionData)
      → Action SessionStatus
  unfolding check_hash read_session dispatch record_error
  mutate identity analysis mutation = guarded identity.sha256 false (do
    lift (check_hash identity.sha256 invalid_hash)
    lift (check_hash identity.epoch invalid_epoch)
    lift attempt.opened
    current ← read_session identity.sha256
    dispatch identity analysis mutation current)

  unfoldable pub save_debugger : SessionIdentity → SessionDebuggerState → Action SessionStatus
  unfolding mutate set_debugger
  save_debugger identity state = mutate identity false (λ store session.
      ok (set_debugger state (entry_of store identity.sha256).loaded_binary_path session))

  unfoldable pub append_analysis :
      SessionIdentity → Bytes → Bytes → SessionAnalysisEdit → Action SessionStatus
  unfolding mutate add_analysis
  append_analysis identity sha256 path edit =
      mutate identity true (λ store session. add_analysis sha256 path edit session)

  unfoldable pub set_comment : SessionIdentity → SessionAddress → Bytes → Action SessionStatus
  unfolding mutate change_comment
  set_comment identity address text =
      mutate identity true (λ store session. change_comment codec.utf8_decode address text session)

  -- `load` makes a first record where there is none.
  unfoldable pub create : Bytes → Bytes → Option SessionData → Action SessionData
  unfolding write_session empty_session
  create sha256 binary_path (some current) = lift (ok current)
  create sha256 binary_path none = do
    epoch ← lift attempt.new_epoch
    write_session (empty_session (record { sha256 = sha256; epoch = epoch }) binary_path 0 0)
    lift (ok (empty_session (record { sha256 = sha256; epoch = epoch }) binary_path 0 0))

  unfoldable pub open_session : Bytes → Bytes → Option SessionData → Action SessionData
  unfolding create remember
  open_session sha256 binary_path current = do
    session ← create sha256 binary_path current
    remember session
    lift (ok session)

  -- `cache[sha256].loaded_binary_path = binary_path`
  unfoldable pub set_loaded_path : Bytes → Bytes → Action (Unit {0})
  set_loaded_path sha256 binary_path store = (
    ok tt,
    record {
      documents = store.documents;
      cache =
          updated sha256
            (some (record {
              session = (entry_of store sha256).session;
              status = (entry_of store sha256).status;
              loaded_binary_path = some binary_path;
            }))
            store.cache;
    },
  )

  unfoldable pub load_checked : Bytes → Bytes → Action SessionData
  unfolding set_loaded_path read_session open_session
  load_checked sha256 binary_path = do
    set_loaded_path sha256 binary_path
    lift attempt.opened
    current ← read_session sha256
    open_session sha256 binary_path current

  unfoldable pub load : Bytes → Bytes → Action SessionData
  unfolding check_hash check_text load_checked record_error
  load sha256 binary_path = guarded sha256 true (do
    lift (check_hash sha256 invalid_hash)
    lift (check_text codec.utf8_decode binary_path)
    load_checked sha256 binary_path)
