-- ===== src/Session/Clear.antt =====
-- src/backend/session/SessionStore.cpp: `clear`, and the reading of the cache.
use mydbg.Base.{ℕ, true, false, Option, none, some, [], ltb, if◌then◌else◌}
use mydbg.Base.Bytes.{Bytes}
use mydbg.Session.Data.{
  Result, ok, err, check_hash, invalid_hash, stale_epoch, not_loaded, SessionIdentity, SessionData,
}
use mydbg.Session.Mutations.{max_revision, advance_revision, value_or}
use mydbg.Session.Store.{
  SessionStatus, empty_status, Cached, Store, Attempt, Codec, Action, ◌>>=◌, ◌>>◌, lift, remember,
  record_error, guarded, same_identity,
}
use mydbg.Session.Operations.{read_session, write_session, empty_session}

-- What `clear` keeps of the record before: its path and its revisions
pub record Kept : Type 0 where
  pub path : Bytes
  pub revision : ℕ
  pub analysis_revision : ℕ

-- `revision < max`, or else the 0 of the new record
abbrev unless_exhausted : ℕ → ℕ
unless_exhausted revision = if ltb revision max_revision then revision else 0

unfoldable pub cached_path : Option Cached → Bytes
cached_path none = []
cached_path (some entry) = value_or (session_path entry.session) entry.loaded_binary_path
  where
    session_path : Option SessionData → Bytes
    session_path none = []
    session_path (some session) = session.binary_path

-- A record that cannot be read does not stop the clearing.
unfoldable pub kept : Result (Option SessionData) → Option Cached → Kept
unfolding cached_path
kept (ok none) entry = record { path = []; revision = 0; analysis_revision = 0 }
kept (ok (some before)) entry = record {
  path = before.binary_path;
  revision = unless_exhausted before.revision;
  analysis_revision = unless_exhausted before.analysis_revision;
}
kept (err key) entry = record { path = cached_path entry; revision = 0; analysis_revision = 0 }

unfoldable pub cleared_session : SessionIdentity → Kept → SessionData
unfolding empty_session
cleared_session identity before =
    empty_session identity before.path before.revision
      (if ltb before.revision before.analysis_revision then 0 else before.analysis_revision)

module _ (codec : Codec) (attempt : Attempt) where
  unfoldable pub clear_as : Bytes → Kept → Action SessionData
  unfolding cleared_session advance_revision write_session remember
  clear_as sha256 before = do
    epoch ← lift attempt.new_epoch
    cleared ←
        lift (
          advance_revision true
            (cleared_session (record { sha256 = sha256; epoch = epoch }) before))
    write_session codec attempt cleared
    remember cleared
    lift (ok cleared)

  unfoldable pub clear : Bytes → Action SessionData
  unfolding check_hash read_session kept clear_as record_error
  clear sha256 = guarded sha256 false (do
    lift (check_hash sha256 invalid_hash)
    lift attempt.opened
    λ store.
        clear_as sha256 (kept (read_session codec attempt sha256 store).0 (store.cache sha256))
          store)

-- `read`: only the cache
unfoldable pub read : Store → SessionIdentity → Result SessionData
read store identity = found (store.cache identity.sha256)
  where
    matching : Option SessionData → Result SessionData
    matching none = err not_loaded
    matching (some session) =
        if same_identity session.identity identity then ok session else err stale_epoch

    found : Option Cached → Result SessionData
    found none = err not_loaded
    found (some entry) = matching entry.session

-- `status`
unfoldable pub status : Store → Bytes → SessionStatus
status store sha256 = found (store.cache sha256)
  where
    found : Option Cached → SessionStatus
    found none = empty_status sha256
    found (some entry) = entry.status
