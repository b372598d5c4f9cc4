-- ===== src/Session/Saved.antt =====
-- What a call of `SessionStore` that returns has put on the disk.
use mydbg.Base.{
  ◌≡◌, refl, sym, ap, ◌∙◌, inl, inr, Bool, true, false, Option, none, some, arith, if◌then◌else◌,
}
use mydbg.Base.Bytes.{Bytes, equal, equal_iff}
use mathlib.Core.Path.{subst}
use mydbg.Session.Data.{
  Result, ok, err, check_hash, invalid_hash, invalid_epoch, SessionIdentity, SessionData,
}
use mydbg.Session.Json.{Json}
use mydbg.Session.Encode.{encode}
use mydbg.Session.Disk.{Directory}
use mydbg.Session.Atomic.{write_disk-Atomic, Ended}
use mydbg.Session.Mutations.{advance_revision}
use mydbg.Session.Store.{
  SessionStatus, data_status, Store, Attempt, Codec, Action, then_act, ◌>>=◌, ◌>>◌, lift, remember,
  caught, entry_of, same_identity,
}
use mydbg.Session.Reading.{read_document}
use mydbg.Session.Operations.{
  read_session, replace_document, write_session, refuse, apply, dispatch, mutate,
}

-- An action that returned passed its first part.
act-ok :
    {A B P : Type 0} (m : Action A) (k : A → Action B) (store : Store) {b : B} {end : Store}
    → (m >>= k) store ≡ (ok b, end)
    → ((a : A) (store' : Store) → m store ≡ (ok a, store') → k a store' ≡ (ok b, end) → P)
    → P
act-ok {A} {B} {P} m k store {b} {end} e go = after (m store) refl e
  where
    after : (r : Result A × Store) → m store ≡ r → then_act r k ≡ (ok b, end) → P
    after (ok a, store') same e = go a store' same e
    after (err key, store') same e = cc

lift-same :
    {A : Type 0} (r : Result A) (store store' : Store) {a : A}
    → lift r store ≡ (ok a, store')
    → (r ≡ ok a) × (store' ≡ store)
lift-same r store store' e = (ap (λ x. x.0) e, sym (ap (λ x. x.1) e))

caught-ok :
    {A : Type 0} (sha256 : Bytes) (invalidate : Bool) (r : Result A × Store) {a : A} {end : Store}
    → caught sha256 invalidate r ≡ (ok a, end)
    → r ≡ (ok a, end)
caught-ok sha256 invalidate (ok a, store) e = e
caught-ok sha256 invalidate (err key, store) e = cc

-- The status after `remember`
entry_status :
    (after : SessionData) (store : Store) (status : SessionStatus) (store' : Store)
    → equal after.identity.sha256 after.identity.sha256 ≡ true
    → (remember after >> λ s. (ok (entry_of s after.identity.sha256).status, s)) store
      ≡ (ok status, store')
    → status ≡ data_status after
unfolding remember
entry_status after store status store' same e = ground (arith, same, e)

module _ (codec : Codec) (attempt : Attempt) where
  replace_document-ok :
      (sha256 contents : Bytes) (store store' : Store) (u : Unit {0})
      → replace_document codec attempt sha256 contents store ≡ (ok u, store')
      → (store'.documents sha256 ≡ some contents) × (store'.cache ≡ store.cache)
  unfolding replace_document
  replace_document-ok sha256 contents store store' u e =
      let (through, ended) =
        write_disk-Atomic attempt.faults contents
          (record { session = store.documents sha256; temporary = none; previous = none }) refl
          refl in
      let returned = ap (λ x. x.0) e in
      let left = sym (ap (λ x. x.1.documents sha256) e) in
      let same = (equal_iff sha256 sha256).1 refl in
      (left ∙ rw same (session_at _ _ ended returned), sym (ap (λ x. x.1.cache) e))
    where
      session_at :
          (r : Result (Unit {0})) (d : Directory)
          → Ended attempt.faults (store.documents sha256) contents r d
          → r ≡ ok u
          → d.session ≡ some contents
      session_at r d (inl (_, s, _, _)) h = s
      session_at r d (inr (inl (e', _, _, _))) h = cc
      session_at r d (inr (inr (e', _, _, _))) h = cc

  write_session-ok :
      (session : SessionData) (store store' : Store) (u : Unit {0})
      → write_session codec attempt session store ≡ (ok u, store')
      → (j : Json) × (encode codec.utf8_decode session ≡ ok j)
        × (store'.documents session.identity.sha256 ≡ some (codec.print j))
        × (store'.cache ≡ store.cache)
  unfolding write_session
  write_session-ok session store store' u e =
      act-ok (lift (encode codec.utf8_decode session)) _ store e (λ j store₁ h₁ e₁.
        act-ok (lift attempt.new_temporary) _ store₁ e₁ (λ name store₂ h₂ e₂.
          let (encoded, same₁) = lift-same (encode codec.utf8_decode session) store store₁ h₁ in
          let (_, same₂) = lift-same attempt.new_temporary store₁ store₂ h₂ in
          let (document, cache) =
            replace_document-ok session.identity.sha256 (codec.print j) store₂ store' u e₂ in
          (j, encoded, document, cache ∙ ap (λ x. x.cache) (same₂ ∙ same₁))))

  -- What `mutate` computed and wrote
  pub record Applied (analysis : Bool) (mutation : SessionData → Result SessionData)
      (current : SessionData) (status : SessionStatus) (store' : Store) : Type 0 where
    pub changed : SessionData
    pub after : SessionData
    pub node : Json
    pub is_changed : mutation current ≡ ok changed
    pub is_after : advance_revision analysis changed ≡ ok after
    pub encoded : encode codec.utf8_decode after ≡ ok node
    pub document : store'.documents after.identity.sha256 ≡ some (codec.print node)
    pub is_status : status ≡ data_status after

  apply-ok :
      (analysis : Bool) (mutation : Store → SessionData → Result SessionData)
      (current : SessionData) (store store' : Store) (status : SessionStatus)
      → apply codec attempt analysis mutation current store ≡ (ok status, store')
      → Applied analysis (mutation store) current status store'
  unfolding apply remember
  apply-ok analysis mutation current store store' status e =
      act-ok (λ s. (mutation s current, s)) _ store e
        (λ changed store₁ h₁ e₁.
          act-ok (lift (advance_revision analysis changed)) _ store₁ e₁ (λ after store₂ h₂ e₂.
            act-ok (write_session codec attempt after) _ store₂ e₂ (λ u store₃ h₃ e₃.
              let (j, encoded, document, _) = write_session-ok after store₂ store₃ u h₃ in
              let same = (equal_iff after.identity.sha256 after.identity.sha256).1 refl in
              record {
                changed = changed;
                after = after;
                node = j;
                is_changed = ap (λ x. x.0) h₁;
                is_after = (lift-same (advance_revision analysis changed) store₁ store₂ h₂).0;
                encoded = encoded;
                document = sym (ap (λ x. x.1.documents after.identity.sha256) e₃) ∙ document;
                is_status = entry_status after store₃ status store' same e₃;
              })))

  refuse-not-ok :
      {P : Type 0} (sha256 : Bytes) (o : Option SessionData) (store store' : Store)
      (status : SessionStatus)
      → refuse codec attempt sha256 o store ≡ (ok status, store')
      → P
  unfolding refuse
  refuse-not-ok sha256 none store store' status e = cc
  refuse-not-ok sha256 (some current) store store' status e = cc

  -- The session that was on the disk, and what became of it
  pub record Mutated (identity : SessionIdentity) (analysis : Bool)
      (mutation : SessionData → Result SessionData) (status : SessionStatus) (store store' : Store)
      : Type 0 where
    pub before : SessionData
    pub was :
        read_document codec identity.sha256 (store.documents identity.sha256) ≡ ok (some before)
    pub is_current : same_identity before.identity identity ≡ true
    pub applied : Applied analysis mutation before status store'

  dispatch-ok :
      (identity : SessionIdentity) (analysis : Bool)
      (mutation : Store → SessionData → Result SessionData) (o : Option SessionData)
      (store store' : Store) (status : SessionStatus)
      → dispatch codec attempt identity analysis mutation o store ≡ (ok status, store')
      → read_document codec identity.sha256 (store.documents identity.sha256) ≡ ok o
      → Mutated identity analysis (mutation store) status store store'
  unfolding dispatch
  dispatch-ok identity analysis mutation none store store' status e was =
      refuse-not-ok identity.sha256 none store store' status e
  dispatch-ok identity analysis mutation (some current) store store' status e was =
      branch (same_identity current.identity identity) refl e
    where
      branch :
          (same : Bool)
          → same_identity current.identity identity ≡ same
          → (if same
                then apply codec attempt analysis mutation current
                else refuse codec attempt identity.sha256 (some current))
              store
            ≡ (ok status, store')
          → Mutated identity analysis (mutation store) status store store'
      branch true same h = record {
        before = current;
        was = was;
        is_current = same;
        applied = apply-ok analysis mutation current store store' status h;
      }
      branch false same h = refuse-not-ok identity.sha256 (some current) store store' status h

  read_session-ok :
      (sha256 : Bytes) (o : Option SessionData) (store store' : Store)
      → read_session codec attempt sha256 store ≡ (ok o, store')
      → (read_document codec sha256 (store.documents sha256) ≡ ok o) × (store' ≡ store)
  unfolding read_session
  read_session-ok sha256 o store store' e =
      act-ok (lift attempt.readable) _ store e (λ u store₁ h₁ e₁.
        let (_, same) = lift-same attempt.readable store store₁ h₁ in
        (
          ap (λ s. read_document codec sha256 (s.documents sha256)) (sym same) ∙ ap (λ x. x.0) e₁,
          sym (ap (λ x. x.1) e₁) ∙ same,
        ))

  pub mutate-ok :
      (identity : SessionIdentity) (analysis : Bool)
      (mutation : Store → SessionData → Result SessionData) (store store' : Store)
      (status : SessionStatus)
      → mutate codec attempt identity analysis mutation store ≡ (ok status, store')
      → Mutated identity analysis (mutation store) status store store'
  unfolding mutate
  mutate-ok identity analysis mutation store store' status e =
      act-ok (lift (check_hash identity.sha256 invalid_hash)) _ store
        (caught-ok identity.sha256 false _ e)
        (λ u₁ store₁ h₁ e₁.
          act-ok (lift (check_hash identity.epoch invalid_epoch)) _ store₁ e₁ (λ u₂ store₂ h₂ e₂.
            act-ok (lift attempt.opened) _ store₂ e₂ (λ u₃ store₃ h₃ e₃.
              act-ok (read_session codec attempt identity.sha256) _ store₃ e₃
                (λ current store₄ h₄ e₄.
                  let (_, same₁) =
                    lift-same (check_hash identity.sha256 invalid_hash) store store₁ h₁ in
                  let (_, same₂) =
                    lift-same (check_hash identity.epoch invalid_epoch) store₁ store₂ h₂ in
                  let (_, same₃) = lift-same attempt.opened store₂ store₃ h₃ in
                  let (was, same₄) = read_session-ok identity.sha256 current store₃ store₄ h₄ in
                  let same = same₄ ∙ same₃ ∙ same₂ ∙ same₁ in
                  subst (λ (s : Store). Mutated identity analysis (mutation s) status s store') same
                    (dispatch-ok identity analysis mutation current store₄ store' status e₄ (
                      ap (λ s. read_document codec identity.sha256 (s.documents identity.sha256))
                        same₄
                      ∙ was))))))
