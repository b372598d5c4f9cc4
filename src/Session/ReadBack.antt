-- ===== src/Session/ReadBack.antt =====
-- What a call of `SessionStore` has put on the disk is read as the session that it made.
use mydbg.Base.{
  ◌+◌, ◌≡◌, ap, ◌∙◌, ◌⊎◌, inl, inr, sym, Bool, true, false, Option, none, some, [], ◌∷◌, ◌++◌,
  arith, if◌then◌else◌,
}
use mydbg.Base.Bytes.{Bytes, equal, equal_iff}
use mathlib.Core.Path.{subst}
use mydbg.Session.Data.{
  Key, Result, ok, err, SessionIdentity, SessionAddress, SessionDebuggerState, SessionAnalysisEdit,
  SessionData, is_empty,
}
use mydbg.Session.Json.{Json}
use mydbg.Session.Decode.{decode_root, same_address}
use mydbg.Session.RoundTrip.{decode_root-encode}
use mydbg.Session.Encode.{encode}
use mydbg.Session.Preflight.{check}
use mydbg.Session.Ends.{check-ends}
use mydbg.Session.WellFormed.{WellFormed}
use mydbg.Session.Mutations.{advance_revision, value_or, set_debugger, add_analysis, change_comment}
use mydbg.Session.AsMap.{comment_at, edits_of, change_comment-at, add_analysis-at}
use mydbg.Session.Store.{SessionStatus, data_status, Store, Attempt, Codec, entry_of, same_identity}
use mydbg.Session.Reading.{read_document, read_document-accepted, read_document-WellFormed}
use mydbg.Session.Operations.{mutate, save_debugger, append_analysis, set_comment}
use mydbg.Session.Saved.{mutate-ok}
use mydbg.Session.Kept.{
  Keeps, advance_revision-after, advance_revision-WellFormed, change_comment-Keeps,
  add_analysis-Keeps, add_analysis-kept, set_debugger-fields, set_debugger-Keeps,
}

-- A document that was printed reads as the session of its tree, unless the check refuses it.
reads_or_refused :
    (codec : Codec) (sha256 : Bytes) (node : Json) (after : SessionData)
    → (check codec.utf8_decode (codec.print node) ≡ some (ok tt)
        → codec.parse (codec.print node) ≡ some node)
    → decode_root codec.utf8_decode node sha256 ≡ ok after
    → (read_document codec sha256 (some (codec.print node)) ≡ ok (some after))
      ⊎ ((key : Key) × (check codec.utf8_decode (codec.print node) ≡ some (err key)))
reads_or_refused codec sha256 node after faithful reads =
    let (r, ends) = check-ends codec.utf8_decode (codec.print node) in of r ends
  where
    of :
        (r : Result (Unit {0}))
        → check codec.utf8_decode (codec.print node) ≡ some r
        → (read_document codec sha256 (some (codec.print node)) ≡ ok (some after))
          ⊎ ((key : Key) × (check codec.utf8_decode (codec.print node) ≡ some (err key)))
    of (ok tt) h =
        inl
          (read_document-accepted codec sha256 (codec.print node) node after h (faithful h) reads).1
    of (err key) h = inr (key, h)

module _ (codec : Codec) (attempt : Attempt) (identity : SessionIdentity) (store store' : Store)
    (status : SessionStatus) where
  -- Between the disk before and after a call that returned: the session that was read, the one that
  -- was encoded, and the document that was written, which reads as the latter unless the check before
  -- the parser refuses it
  abbrev pub Between : SessionData → SessionData → Json → Type 0
  Between before after node =
      (read_document codec identity.sha256 (store.documents identity.sha256) ≡ ok (some before))
      × (before.identity.epoch ≡ identity.epoch)
      × (after.identity ≡ before.identity)
      × (encode codec.utf8_decode after ≡ ok node)
      × (store'.documents identity.sha256 ≡ some (codec.print node))
      × ((read_document codec identity.sha256 (store'.documents identity.sha256) ≡ ok (some after))
          ⊎ ((key : Key) × (check codec.utf8_decode (codec.print node) ≡ some (err key))))
      × (status ≡ data_status after)

-- Where the parser reads back the documents that are printed of encoded sessions and that the check
-- before it accepts
module _ (codec : Codec) (attempt : Attempt) (identity : SessionIdentity) (store store' : Store)
    (status : SessionStatus)
    (faithful : (session : SessionData) (node : Json)
      → encode codec.utf8_decode session ≡ ok node
      → check codec.utf8_decode (codec.print node) ≡ some (ok tt)
      → codec.parse (codec.print node) ≡ some node) where
  mutate-saved :
      (analysis : Bool) (mutation : Store → SessionData → Result SessionData)
      → Keeps (mutation store)
      → mutate codec attempt identity analysis mutation store ≡ (ok status, store')
      → (before changed after : SessionData) × (node : Json) × Between codec attempt identity store
          store' status before after node
        × (mutation store before ≡ ok changed)
        × WellFormed before
        × (advance_revision analysis changed ≡ ok after)
  mutate-saved analysis mutation keeps e =
      let m = mutate-ok codec attempt identity analysis mutation store store' status e in
      let a = m.applied in
      let (formed, named) = read_document-WellFormed codec identity.sha256 _ m.before m.was in
      let (formed', kept) = keeps m.before a.changed formed a.is_changed in
      let identity_after = (advance_revision-after analysis a.changed a.after a.is_after).0 in
      let (modules, comments, ordered) =
        advance_revision-WellFormed analysis a.changed a.after formed' a.is_after in
      let hash = ap (λ i. i.sha256) (identity_after ∙ kept) ∙ named in
      let document =
        subst (λ (x : Bytes). store'.documents x ≡ some (codec.print a.node)) hash a.document in
      let reads =
        reads_or_refused codec identity.sha256 a.node a.after (faithful a.after a.node a.encoded) (
          subst (λ (x : Bytes). decode_root codec.utf8_decode a.node x ≡ ok a.after) hash
            (decode_root-encode codec.utf8_decode a.after a.node modules comments ordered
              a.encoded)) in
      (
        m.before,
        a.changed,
        a.after,
        a.node,
        (
          m.was,
          same_epoch m.before.identity m.is_current,
          identity_after ∙ kept,
          a.encoded,
          document,
          subst
              (λ (x : Option Bytes).
                (read_document codec identity.sha256 x ≡ ok (some a.after))
                ⊎ ((key : Key) × (check codec.utf8_decode (codec.print a.node) ≡ some (err key))))
              (sym document) reads,
          a.is_status,
        ),
        a.is_changed,
        formed,
        a.is_after,
      )
    where
      same_epoch :
          (i : SessionIdentity) → same_identity i identity ≡ true → i.epoch ≡ identity.epoch
      same_epoch i h = ground (arith, h, equal_iff i.epoch identity.epoch)

  -- Where the parser reads back what was printed and accepted: a `set_comment` that returned found the
  -- session with the caller's epoch on the disk and wrote the document of a session of the same
  -- identity, which is read again as this session unless the check before the parser refuses it. The
  -- two revisions are one higher, the address has the new text, or none for the empty text, every other
  -- address keeps its text, and the binary's path, the analysis and the debugger's state stay. The
  -- status that it returns is that of this session.
  pub set_comment-saved :
      (address : SessionAddress) (text : Bytes)
      → set_comment codec attempt identity address text store ≡ (ok status, store')
      → (before after : SessionData) × (node : Json) × Between codec attempt identity store store'
          status before after node
        × (after.revision ≡ before.revision + 1)
        × (after.analysis_revision ≡ before.analysis_revision + 1)
        × ((b : SessionAddress)
            → comment_at after.comments b ≡ (
                if same_address address b
                then (if is_empty text then none else some text)
                else comment_at before.comments b))
        × (after.binary_path ≡ before.binary_path)
        × (after.analysis ≡ before.analysis)
        × (after.debugger ≡ before.debugger)
  unfolding set_comment
  set_comment-saved address text e =
      let (before, changed, after, node, between, is_changed, formed, is_after) =
        mutate-saved true (λ s session. change_comment codec.utf8_decode address text session)
          (change_comment-Keeps codec.utf8_decode address text) e in
      let (_, revision, analysed, path, same_debugger, same_analysis, same_comments) =
        advance_revision-after true changed after is_after in
      let (_, kept_analysis, kept_debugger, kept_revision, _, kept_path, kept_analysed) =
        change_comment-at codec.utf8_decode address address text before changed formed.1
          is_changed in
      (
        before,
        after,
        node,
        between,
        revision ∙ ap (λ r. r + 1) kept_revision,
        analysed ∙ ap (λ r. r + 1) kept_analysed,
        λ b.
            ap (λ cs. comment_at cs b) same_comments
            ∙ (change_comment-at codec.utf8_decode address b text before changed formed.1
                is_changed).0,
        path ∙ kept_path,
        same_analysis ∙ kept_analysis,
        same_debugger ∙ kept_debugger,
      )

  -- Where the parser reads back what was printed and accepted: an `append_analysis` that returned
  -- found the session with the caller's epoch on the disk and wrote the document of a session of the
  -- same identity, which is read again as this session unless the check before the parser refuses it.
  -- The two revisions are one higher, the named module has the new edit behind its others, every other
  -- module has the edits that it had, and the binary's path, the debugger's state and the comments
  -- stay. The status that it returns is that of this session.
  pub append_analysis-saved :
      (sha256 path : Bytes) (edit : SessionAnalysisEdit)
      → append_analysis codec attempt identity sha256 path edit store ≡ (ok status, store')
      → (before after : SessionData) × (node : Json) × Between codec attempt identity store store'
          status before after node
        × (after.revision ≡ before.revision + 1)
        × (after.analysis_revision ≡ before.analysis_revision + 1)
        × ((other : Bytes)
            → edits_of after.analysis other ≡ (
                if equal sha256 other
                then edits_of before.analysis other ++ (edit ∷ [])
                else edits_of before.analysis other))
        × (after.binary_path ≡ before.binary_path)
        × (after.debugger ≡ before.debugger)
        × (after.comments ≡ before.comments)
  unfolding append_analysis
  append_analysis-saved sha256 path edit e =
      let (before, changed, after, node, between, is_changed, formed, is_after) =
        mutate-saved true (λ s session. add_analysis sha256 path edit session)
          (add_analysis-Keeps sha256 path edit) e in
      let (_, revision, analysed, binary, debugger, same_analysis, comments) =
        advance_revision-after true changed after is_after in
      let (kept_revision, kept_analysed, kept_binary, kept_debugger, kept_comments) =
        add_analysis-kept sha256 path edit before changed is_changed in
      (
        before,
        after,
        node,
        between,
        revision ∙ ap (λ r. r + 1) kept_revision,
        analysed ∙ ap (λ r. r + 1) kept_analysed,
        λ other.
            ap (λ ms. edits_of ms other) same_analysis
            ∙ add_analysis-at sha256 path other edit before changed is_changed,
        binary ∙ kept_binary,
        debugger ∙ kept_debugger,
        comments ∙ kept_comments,
      )

  -- Where the parser reads back what was printed and accepted: a `save_debugger` that returned found
  -- the session with the caller's epoch on the disk and wrote the document of a session of the same
  -- identity, which is read again as this session unless the check before the parser refuses it. It has
  -- the caller's state, the path of the loaded binary where one is known, and a revision that is one
  -- higher, while its analysis revision, its analysis and its comments stay. The status that it returns
  -- is that of this session.
  pub save_debugger-saved :
      (state : SessionDebuggerState)
      → save_debugger codec attempt identity state store ≡ (ok status, store')
      → (before after : SessionData) × (node : Json) × Between codec attempt identity store store'
          status before after node
        × (after.debugger ≡ state)
        × (after.binary_path
            ≡ value_or before.binary_path (entry_of store identity.sha256).loaded_binary_path)
        × (after.revision ≡ before.revision + 1)
        × (after.analysis_revision ≡ before.analysis_revision)
        × (after.analysis ≡ before.analysis)
        × (after.comments ≡ before.comments)
  unfolding save_debugger
  save_debugger-saved state e =
      let (before, changed, after, node, between, is_changed, formed, is_after) =
        mutate-saved false
          (λ s session.
            ok (set_debugger state (entry_of s identity.sha256).loaded_binary_path session))
          (set_debugger-Keeps state (entry_of store identity.sha256).loaded_binary_path) e in
      let (_, revision, analysed, path, debugger, analysis, comments) =
        advance_revision-after false changed after is_after in
      let (d, r, a, m, c, p) =
        set_debugger-fields state (entry_of store identity.sha256).loaded_binary_path before changed
          is_changed in
      (
        before,
        after,
        node,
        between,
        debugger ∙ d,
        path ∙ p,
        revision ∙ ap (λ r. r + 1) r,
        analysed ∙ a,
        analysis ∙ m,
        comments ∙ c,
      )
