-- ===== src/Session/Distinct.antt =====
-- The mutations of src/backend/session/SessionStore.cpp keep modules and commented addresses distinct.
use mydbg.Base.{◌≡◌, refl, sym, ◌∙◌, ◌↔◌, inl, inr, true, false, List, [], ◌∷◌, arith, Bool-cases}
use mydbg.Base.Bytes.{Bytes, equal, equal_iff}
use mydbg.Session.Data.{SessionAddress, SessionAnalysisEdit, SessionModuleAnalysis, SessionComment}
use mydbg.Session.Decode.{same_address}
use mydbg.Session.Analysis.{FreshModule, UniqueModules}
use mydbg.Session.Comments.{FreshComment, UniqueComments}
use mydbg.Session.Mutations.{append_edit, put_comment, erase_comment}

-- Two addresses are the same when their hashes and their file addresses are.
abbrev pub SameAddress : SessionAddress → SessionAddress → Type 0
SameAddress a b = (a.module_sha256 ≡ b.module_sha256) × (a.file_address ≡ b.file_address)

pub same_address_iff : (a b : SessionAddress) → (same_address a b ≡ true) ↔ SameAddress a b
unfolding same_address
same_address_iff a b = ground (arith, equal_iff a.module_sha256 b.module_sha256)

-- The same address has the same tests.
pub same_tests :
    (a b x : SessionAddress) → same_address a b ≡ true → same_address a x ≡ same_address b x
unfolding same_address
same_tests a b x h = let (hash, file) = (same_address_iff a b).0 h in rw (hash, file) refl

module _ (address : SessionAddress) (text : Bytes) where
  put-Fresh :
      (a : SessionAddress) (cs : List SessionComment)
      → same_address a address ≡ false
      → FreshComment a cs
      → FreshComment a (put_comment address text cs)
  unfolding put_comment
  put-Fresh a [] f fresh = (f, tt)
  put-Fresh a (c ∷ cs) f (g, fresh) = elim (Bool-cases (same_address c.address address)) [
    | inl h ↦ rw h (f, fresh)
    | inr h ↦ rw h (g, put-Fresh a cs f fresh)
  ]

  move-Fresh :
      (a : SessionAddress) (cs : List SessionComment)
      → same_address a address ≡ true
      → FreshComment a cs
      → FreshComment address cs
  move-Fresh a [] same fresh = tt
  move-Fresh a (c ∷ cs) same (f, fresh) =
      (sym (same_tests a address c.address same) ∙ f, move-Fresh a cs same fresh)

  erase-Fresh :
      (a : SessionAddress) (cs : List SessionComment)
      → FreshComment a cs
      → FreshComment a (erase_comment address cs)
  unfolding erase_comment
  erase-Fresh a [] fresh = tt
  erase-Fresh a (c ∷ cs) (g, fresh) = elim (Bool-cases (same_address c.address address)) [
    | inl h ↦ rw h fresh
    | inr h ↦ rw h (g, erase-Fresh a cs fresh)
  ]

  pub put-Unique :
      (cs : List SessionComment) → UniqueComments cs → UniqueComments (put_comment address text cs)
  unfolding put_comment
  put-Unique [] unique = (tt, tt)
  put-Unique (c ∷ cs) (fresh, unique) = elim (Bool-cases (same_address c.address address)) [
    | inl h ↦ rw h (move-Fresh c.address cs h fresh, unique)
    | inr h ↦ rw h (put-Fresh c.address cs h fresh, put-Unique cs unique)
  ]

  pub erase-Unique :
      (cs : List SessionComment) → UniqueComments cs → UniqueComments (erase_comment address cs)
  unfolding erase_comment
  erase-Unique [] unique = tt
  erase-Unique (c ∷ cs) (fresh, unique) = elim (Bool-cases (same_address c.address address)) [
    | inl h ↦ rw h unique
    | inr h ↦ rw h (erase-Fresh c.address cs fresh, erase-Unique cs unique)
  ]

module _ (sha256 path : Bytes) (edit : SessionAnalysisEdit) where
  append-Fresh :
      (hash : Bytes) (ms : List SessionModuleAnalysis)
      → equal hash sha256 ≡ false
      → FreshModule hash ms
      → FreshModule hash (append_edit sha256 path edit ms)
  unfolding append_edit
  append-Fresh hash [] f fresh = (f, tt)
  append-Fresh hash (m ∷ ms) f (g, fresh) = elim (Bool-cases (equal m.sha256 sha256)) [
    | inl h ↦ rw h (g, fresh)
    | inr h ↦ rw h (g, append-Fresh hash ms f fresh)
  ]

  pub append-Unique :
      (ms : List SessionModuleAnalysis)
      → UniqueModules ms
      → UniqueModules (append_edit sha256 path edit ms)
  unfolding append_edit
  append-Unique [] unique = (tt, tt)
  append-Unique (m ∷ ms) (fresh, unique) = elim (Bool-cases (equal m.sha256 sha256)) [
    | inl h ↦ rw h (fresh, unique)
    | inr h ↦ rw h (append-Fresh m.sha256 ms h fresh, append-Unique ms unique)
  ]
