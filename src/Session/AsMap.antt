-- ===== src/Session/AsMap.antt =====
-- The mutations of src/backend/session/SessionStore.cpp as updates of maps: from an address to the
-- text of its comment, and from a module's hash to its edits.
use mydbg.Base.{
  ◌≡◌, refl, sym, ap, ◌∙◌, inl, inr, true, false, Option, none, some, List, [], ◌∷◌, ◌++◌, arith,
  if◌then◌else◌, Bool-cases,
}
use mydbg.Base.Bytes.{Bytes, equal, equal_iff}
use mydbg.Session.Data.{
  ok, Utf8Decode, is_empty, SessionAddress, SessionAnalysisEdit, SessionModuleAnalysis,
  SessionComment, SessionData,
}
use mydbg.Session.Decode.{same_address}
use mydbg.Session.Comments.{FreshComment, UniqueComments}
use mydbg.Session.Mutations.{append_edit, put_comment, erase_comment, add_analysis, change_comment}
use mydbg.Session.Distinct.{same_tests, same_address_iff}

-- The text at an address
unfoldable pub comment_at : List SessionComment → SessionAddress → Option Bytes
comment_at [] address = none
comment_at (c ∷ cs) address =
    let others = comment_at cs address in
    if same_address c.address address then some c.text else others

-- The edits of a module, in their order
unfoldable pub edits_of : List SessionModuleAnalysis → Bytes → List SessionAnalysisEdit
edits_of [] sha256 = []
edits_of (m ∷ ms) sha256 =
    let others = edits_of ms sha256 in if equal m.sha256 sha256 then m.edits else others

not_same :
    (c a b : SessionAddress)
    → same_address c a ≡ false
    → same_address c b ≡ true
    → same_address a b ≡ false
not_same c a b other here = elim (Bool-cases (same_address a b)) [
  | inl h ↦
      let (hash, file) = (same_address_iff c b).0 here in
      let (hash', file') = (same_address_iff a b).0 h in
      let same = (same_address_iff c a).1 (hash ∙ sym hash', file ∙ sym file') in cc
  | inr h ↦ h
]

module _ (address b : SessionAddress) where
  put_comment-at :
      (text : Bytes) (cs : List SessionComment)
      → comment_at (put_comment address text cs) b
        ≡ (if same_address address b then some text else comment_at cs b)
  unfolding put_comment comment_at
  put_comment-at text [] = refl
  put_comment-at text (c ∷ cs) = elim (Bool-cases (same_address c.address address)) [
    | inl h ↦ ground (arith, h, same_tests c.address address b h)
    | inr h ↦ ground (arith, h, put_comment-at text cs, not_same c.address address b h)
  ]

  fresh-at :
      (a : SessionAddress) (cs : List SessionComment)
      → FreshComment a cs
      → same_address a b ≡ true
      → comment_at cs b ≡ none
  unfolding comment_at
  fresh-at a [] fresh h = refl
  fresh-at a (c ∷ cs) (f, fresh) h = ground (
    arith,
    f,
    h,
    fresh-at a cs fresh h,
    (same_address_iff a b).0 h,
    (same_address_iff c.address b).0,
    (same_address_iff a c.address).1,
  )

  erase_comment-at :
      (cs : List SessionComment)
      → UniqueComments cs
      → comment_at (erase_comment address cs) b
        ≡ (if same_address address b then none else comment_at cs b)
  unfolding erase_comment comment_at
  erase_comment-at [] unique = ground arith
  erase_comment-at (c ∷ cs) (fresh, unique) = elim (Bool-cases (same_address c.address address)) [
    | inl h ↦ ground (arith, h, same_tests c.address address b h, fresh-at c.address cs fresh)
    | inr h ↦ ground (arith, h, erase_comment-at cs unique, not_same c.address address b h)
  ]

-- What `set_comment` does to the comments of a session in which no address has two: the address that
-- it names has the new text, or none for the empty text, and every other address keeps its text.
-- The identity, the binary's path, the two revisions, the debugger's state and the analysis stay.
pub change_comment-at :
    (utf8_decode : Utf8Decode) (address b : SessionAddress) (text : Bytes)
    (session changed : SessionData)
    → UniqueComments session.comments
    → change_comment utf8_decode address text session ≡ ok changed
    → (comment_at changed.comments b ≡ (
        if same_address address b
        then (if is_empty text then none else some text)
        else comment_at session.comments b))
      × (changed.analysis ≡ session.analysis)
      × (changed.debugger ≡ session.debugger)
      × (changed.revision ≡ session.revision)
      × (changed.identity ≡ session.identity)
      × (changed.binary_path ≡ session.binary_path)
      × (changed.analysis_revision ≡ session.analysis_revision)
unfolding change_comment
change_comment-at utf8_decode address b text session changed unique e = ground (
  arith,
  e,
  put_comment-at address b text session.comments,
  erase_comment-at address b session.comments unique,
)

append_edit-at :
    (sha256 path other : Bytes) (edit : SessionAnalysisEdit) (ms : List SessionModuleAnalysis)
    → edits_of (append_edit sha256 path edit ms) other
      ≡ (if equal sha256 other then edits_of ms other ++ (edit ∷ []) else edits_of ms other)
unfolding append_edit edits_of
append_edit-at sha256 path other edit [] = refl
append_edit-at sha256 path other edit (m ∷ ms) = elim (Bool-cases (equal m.sha256 sha256)) [
  | inl h ↦
      let same = (equal_iff m.sha256 sha256).0 h in ground (arith, h, ap (λ x. equal x other) same)
  | inr h ↦ ground (
    arith,
    h,
    append_edit-at sha256 path other edit ms,
    equal_iff m.sha256 other,
    equal_iff sha256 other,
    equal_iff m.sha256 sha256,
  )
]

-- What `append_analysis` does to the analysis of a session: the edits of the module that it names
-- have the new one at their end, and those of every other module stay.
pub add_analysis-at :
    (sha256 path other : Bytes) (edit : SessionAnalysisEdit) (session changed : SessionData)
    → add_analysis sha256 path edit session ≡ ok changed
    → edits_of changed.analysis other ≡ (
        if equal sha256 other
        then edits_of session.analysis other ++ (edit ∷ [])
        else edits_of session.analysis other)
unfolding add_analysis
add_analysis-at sha256 path other edit session changed e =
    ground (arith, e, append_edit-at sha256 path other edit session.analysis)
