-- ===== src/Session/Store.antt =====
-- src/backend/session/SessionStore.cpp: the class `SessionStore`. The parser and the printer of JSON
-- are Rizin's and parameters; an `Attempt` is what the system answers during a call.
use mydbg.Base.{
  ℕ, ◌+◌, Bool, true, false, ◌&&◌, Option, none, some, List, [], ◌∷◌, if◌then◌else◌, length,
}
use mydbg.Base.Bytes.{Bytes, equal}
use mydbg.Session.Data.{
  Key, Result, ok, err, Utf8Decode, SessionIdentity, SessionModuleAnalysis, SessionData,
}
use mydbg.Session.Json.{Json}
use mydbg.Session.Disk.{Faults}

pub record SessionStatus : Type 0 where
  pub identity : SessionIdentity
  pub revision : ℕ
  pub analysis_revision : ℕ
  pub breakpoint_count : ℕ
  pub watch_count : ℕ
  pub edit_count : ℕ
  pub comment_count : ℕ
  pub writable : Bool
  -- the key of the message
  pub error : Option Key

abbrev count_edits : List SessionModuleAnalysis → ℕ
count_edits [] = 0
count_edits (m ∷ ms) = length m.edits + count_edits ms

unfoldable pub data_status : SessionData → SessionStatus
data_status session = record {
  identity = session.identity;
  revision = session.revision;
  analysis_revision = session.analysis_revision;
  breakpoint_count = length session.debugger.breakpoints;
  watch_count = length session.debugger.watches;
  edit_count = count_edits session.analysis;
  comment_count = length session.comments;
  writable = true;
  error = none;
}

-- `SessionStatus{}` with a hash
abbrev pub empty_status : Bytes → SessionStatus
empty_status sha256 = record {
  identity = record { sha256 = sha256; epoch = [] };
  revision = 0;
  analysis_revision = 0;
  breakpoint_count = 0;
  watch_count = 0;
  edit_count = 0;
  comment_count = 0;
  writable = false;
  error = none;
}

pub record Cached : Type 0 where
  pub session : Option SessionData
  pub status : SessionStatus
  pub loaded_binary_path : Option Bytes

-- The documents by hash, and `cache`
pub record Store : Type 0 where
  pub documents : Bytes → Option Bytes
  pub cache : Bytes → Option Cached

-- What the system does in one call: `open_directory` with `lock_session`, the reading of the
-- document, the calls of `write_disk`, and `new_epoch`
pub record Attempt : Type 0 where
  pub opened : Result (Unit {0})
  pub readable : Result (Unit {0})
  pub faults : Faults
  pub new_epoch : Result Bytes
  -- the name of the temporary file
  pub new_temporary : Result Bytes

pub record Codec : Type 0 where
  pub utf8_decode : Utf8Decode
  -- PJ
  pub print : Json → Bytes
  -- `rz_json_parse`, `none` where it is the null pointer
  pub parse : Bytes → Option Json

abbrev pub updated {ℓ} : {A : Type ℓ} → Bytes → A → (Bytes → A) → Bytes → A
updated sha256 value f other = if equal sha256 other then value else f other

abbrev pub Action : Type 0 → Type 0
Action A = Store → Result A × Store

infixl 5 ◌>>=◌ ◌>>◌
abbrev pub then_act : {A B : Type 0} → Result A × Store → (A → Action B) → Result B × Store
then_act (ok a, store) f = f a store
then_act (err key, store) f = (err key, store)

abbrev pub ◌>>=◌ : {A B : Type 0} → Action A → (A → Action B) → Action B
(m >>= f) store = then_act (m store) f

abbrev pub ◌>>◌ : {A B : Type 0} → Action A → Action B → Action B
m >> k = m >>= λ _. k

abbrev pub lift : {A : Type 0} → Result A → Action A
lift r store = (r, store)

abbrev pub value_of : {A : Type 0} → A → Option A → A
value_of default none = default
value_of default (some a) = a

-- `cache[sha256]`
abbrev pub entry_of : Store → Bytes → Cached
entry_of store sha256 =
    value_of (record { session = none; status = empty_status []; loaded_binary_path = none })
      (store.cache sha256)

abbrev pub put_entry : Bytes → Cached → Action (Unit {0})
put_entry sha256 entry store =
    (ok tt, record { documents = store.documents; cache = updated sha256 (some entry) store.cache })

unfoldable pub remember : SessionData → Action (Unit {0})
unfolding data_status
remember session store =
    put_entry session.identity.sha256
      (record {
        session = some session;
        status = data_status session;
        loaded_binary_path = (entry_of store session.identity.sha256).loaded_binary_path;
      })
      store

-- In `mutate`, the entry of a session that is gone
unfoldable pub forget : Bytes → Action (Unit {0})
forget sha256 store =
    put_entry sha256
      (record {
        session = none;
        status = empty_status [];
        loaded_binary_path = (entry_of store sha256).loaded_binary_path;
      })
      store

abbrev failed_status : Bytes → Key → SessionStatus → SessionStatus
failed_status sha256 key status = record {
  identity = record { sha256 = sha256; epoch = status.identity.epoch };
  revision = status.revision;
  analysis_revision = status.analysis_revision;
  breakpoint_count = status.breakpoint_count;
  watch_count = status.watch_count;
  edit_count = status.edit_count;
  comment_count = status.comment_count;
  writable = false;
  error = some key;
}

-- `error`, which the handlers call before they throw on
unfoldable pub record_error : Bytes → Key → (invalidate : Bool) → Store → Store
record_error sha256 key invalidate store =
    let entry = entry_of store sha256 in
    record {
      documents = store.documents;
      cache =
          updated sha256
            (some (record {
              session = if invalidate then none else entry.session;
              status =
                  failed_status sha256 key (if invalidate then empty_status [] else entry.status);
              loaded_binary_path = entry.loaded_binary_path;
            }))
            store.cache;
    }

abbrev pub caught : {A : Type 0} → Bytes → Bool → Result A × Store → Result A × Store
caught sha256 invalidate (ok a, store) = (ok a, store)
caught sha256 invalidate (err key, store) = (err key, record_error sha256 key invalidate store)

-- `try` with the handler
abbrev pub guarded : {A : Type 0} → Bytes → (invalidate : Bool) → Action A → Action A
guarded sha256 invalidate action store = caught sha256 invalidate (action store)

abbrev pub same_identity : SessionIdentity → SessionIdentity → Bool
same_identity a b = equal a.sha256 b.sha256 && equal a.epoch b.epoch
