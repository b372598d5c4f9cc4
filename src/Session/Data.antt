-- ===== src/Session/Data.antt =====
-- src/backend/session/SessionStore.h: the data of a session. A throwing function gives a result, with
-- the key of its message.
use mydbg.Base.{
  ℕ, zero, suc, ◌*◌, Bool, true, false, not, ◌&&◌, ◌||◌, List, [], ◌∷◌, leb, ◌==◌, length, drop,
  all,
}
use mydbg.Base.Bytes.{Bytes}

pub data Key : Type 0 where
  invalid_hash invalid_epoch invalid_text limit malformed invalid_record version : Key
  hash_mismatch stale_epoch revision_overflow not_loaded : Key
  -- `SessionStoreSystemError` for the failed operation
  system_error rollback_error : Key

pub data Result {ℓ} (A : Type ℓ) : Type ℓ where
  ok : A → Result A
  err : Key → Result A

-- `if (!b) fail(key);`
abbrev pub require : Bool → Key → Result (Unit {0})
require true key = ok tt
require false key = err key

-- What stands behind a call that threw is not reached.
infixl 5 ◌>>=◌ ◌>>◌
abbrev pub ◌>>=◌ {ℓ κ} : {A : Type ℓ} {B : Type κ} → Result A → (A → Result B) → Result B
err key >>= continue = err key
ok value >>= continue = continue value

abbrev pub ◌>>◌ {κ} : {B : Type κ} → Result (Unit {0}) → Result B → Result B
check >> rest = check >>= λ _. rest

abbrev pub max_string : ℕ
max_string = 1024 * 1024

abbrev pub max_comment : ℕ
max_comment = 64 * 1024

abbrev pub max_records : ℕ
max_records = 65536

abbrev pub max_document : ℕ
max_document = 16 * 1024 * 1024

pub record SessionIdentity : Type 0 where
  pub sha256 : Bytes
  pub epoch : Bytes

pub record SessionAddress : Type 0 where
  pub module_sha256 : Bytes
  pub module_path : Bytes
  pub file_address : ℕ

pub record SessionBreakpoint : Type 0 where
  pub serialized : Bytes
  pub script_condition : Bytes
  pub module_sha256 : Bytes
  pub module_path : Bytes

pub record SessionSymbol : Type 0 where
  pub name : Bytes
  pub address : SessionAddress

pub record SessionDebuggerState : Type 0 where
  pub breakpoints : List SessionBreakpoint
  pub watches : List Bytes
  pub symbols : List SessionSymbol
  pub arguments : List Bytes
  pub working_directory : Bytes

pub data SavedAnalysisKind : Type 0 where
  rename set_type mark_string : SavedAnalysisKind

pub data SavedSymbolKind : Type 0 where
  nothing function global constant local parameter : SavedSymbolKind

pub record SessionAnalysisEdit : Type 0 where
  pub kind : SavedAnalysisKind
  pub target_kind : SavedSymbolKind
  pub function_file_address : ℕ
  pub target_name : Bytes
  pub target_file_address : ℕ
  pub has_target_file_address : Bool
  pub value : Bytes

pub record SessionModuleAnalysis : Type 0 where
  pub sha256 : Bytes
  pub path : Bytes
  pub edits : List SessionAnalysisEdit

pub record SessionComment : Type 0 where
  pub address : SessionAddress
  pub text : Bytes

pub record SessionData : Type 0 where
  pub identity : SessionIdentity
  pub binary_path : Bytes
  pub revision : ℕ
  pub analysis_revision : ℕ
  pub debugger : SessionDebuggerState
  pub analysis : List SessionModuleAnalysis
  pub comments : List SessionComment

abbrev pub is_empty : Bytes → Bool
is_empty [] = true
is_empty (c ∷ cs) = false

abbrev pub is_hash_digit : ℕ → Bool
is_hash_digit c = (leb b'0' c && leb c b'9') || (leb b'a' c && leb c b'f')

unfoldable pub is_hash : Bytes → Bool
is_hash hash = length hash == 64 && all is_hash_digit hash

unfoldable pub check_hash : Bytes → Key → Result (Unit {0})
unfolding is_hash
check_hash hash error = require (is_hash hash) error

-- `check_text`, with `rz_utf8_decode` as a function from the rest of the text to the length that it
-- reads, 0 where it reads nothing, and the code point. Each round reads at least one byte.
abbrev pub Utf8Decode : Type 0
Utf8Decode = Bytes → ℕ × ℕ

unfoldable pub code_points_valid : Utf8Decode → ℕ → Bytes → Bool
code_points_valid utf8_decode fuel [] = true
code_points_valid utf8_decode zero (c ∷ cs) = false
code_points_valid utf8_decode (suc fuel) (c ∷ cs) =
    let (size, point) = utf8_decode (c ∷ cs) in
    not (size == 0)
    && not (point == 0)
    && leb point 0x10ffff
    && not (leb 0xd800 point && leb point 0xdfff)
    && code_points_valid utf8_decode fuel (drop size (c ∷ cs))

unfoldable pub check_text : Utf8Decode → Bytes → Result (Unit {0})
unfolding code_points_valid
check_text utf8_decode value = do
  require (leb (length value) max_string) limit
  require (code_points_valid utf8_decode (length value) value) invalid_text
