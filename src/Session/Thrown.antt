-- ===== src/Session/Thrown.antt =====
-- What a call of `SessionStore` that throws leaves on the disk.
use mydbg.Base.{
  ◌≡◌, refl, sym, ap, ◌∙◌, ◌≢◌, inl, inr, Bool, true, false, Option, none, some, Bool-cases,
}
use mydbg.Base.Bytes.{Bytes, equal, equal_iff}
use mathlib.Core.Path.{Path}
use mydbg.Session.Data.{
  Key, Result, ok, err, check_text, check_hash, invalid_hash, invalid_epoch, rollback_error,
  SessionIdentity, SessionData,
}
use mydbg.Session.Encode.{encode}
use mydbg.Session.Disk.{outcome, final, write_disk}
use mydbg.Session.Atomic.{write_disk-Atomic, Ended}
use mydbg.Session.Mutations.{advance_revision}
use mydbg.Session.Store.{
  Store, Attempt, Codec, Action, then_act, ◌>>=◌, ◌>>◌, lift, remember, forget, record_error,
  caught, guarded, same_identity,
}
use mydbg.Session.Reading.{read_document}
use mydbg.Session.Operations.{
  read_session, replace_document, write_session, refuse, apply, dispatch, mutate, create,
  open_session, set_loaded_path, empty_session, load_checked, load,
}
use mydbg.Session.Clear.{Kept, kept, clear_as, cleared_session, clear}

abbrev Unchanged : Store → Store → Type 0
Unchanged store store' = (sha256 : Bytes) → store'.documents sha256 ≡ store.documents sha256

-- Actions that write no document, that write none if they throw, and that do not throw. Only the
-- failed restoring of a document is excepted.
abbrev Still : {A : Type 0} → Action A → Type 0
Still m = (store : Store) → Unchanged store (m store).1

abbrev Atomic : {A : Type 0} → Action A → Type 0
Atomic m =
    (store : Store) (key : Key)
    → (m store).0 ≡ err key
    → key ≢ rollback_error
    → Unchanged store (m store).1

abbrev Sure : {A : Type 0} → Action A → Type 0
Sure {A} m = (store : Store) → (a : A) × ((m store).0 ≡ ok a)

Still-Atomic : {A : Type 0} (m : Action A) → Still m → Atomic m
Still-Atomic m still store key e other = still store

err-inj : {A : Type 0} {x y : Key} → Path (Result A) (err x) (err y) → x ≡ y
err-inj e = cc

module _ {A B : Type 0} where
  Still-then :
      (m : Action A) (k : A → Action B) → Still m → ((a : A) → Atomic (k a)) → Atomic (m >>= k)
  Still-then m k still atomic store key e other sha256 = after (m store) (still store) e
    where
      after :
          (r : Result A × Store)
          → Unchanged store r.1
          → (then_act r k).0 ≡ err key
          → (then_act r k).1.documents sha256 ≡ store.documents sha256
      after (ok a, store') same e = atomic a store' key e other sha256 ∙ same sha256
      after (err x, store') same e = same sha256

  then-Sure :
      (m : Action A) (k : A → Action B) → Atomic m → ((a : A) → Sure (k a)) → Atomic (m >>= k)
  then-Sure m k atomic sure store key e other sha256 = after (m store) (atomic store) e
    where
      after :
          (r : Result A × Store)
          → ((x : Key) → r.0 ≡ err x → x ≢ rollback_error → Unchanged store r.1)
          → (then_act r k).0 ≡ err key
          → (then_act r k).1.documents sha256 ≡ store.documents sha256
      after (ok a, store') h e = let (b, fine) = sure a store' in cc
      after (err x, store') h e = h key (ap err (err-inj e)) other sha256

guarded-Atomic :
    {A : Type 0} (sha256 : Bytes) (invalidate : Bool) (m : Action A)
    → Atomic m
    → Atomic (guarded sha256 invalidate m)
unfolding record_error
guarded-Atomic {A} sha256 invalidate m atomic store key e other document =
    after (m store) (atomic store) e
  where
    after :
        (r : Result A × Store)
        → ((x : Key) → r.0 ≡ err x → x ≢ rollback_error → Unchanged store r.1)
        → (caught sha256 invalidate r).0 ≡ err key
        → (caught sha256 invalidate r).1.documents document ≡ store.documents document
    after (ok a, store') h e = cc
    after (err x, store') h e = h key e other document

lift-Still : {A : Type 0} (r : Result A) → Still (lift r)
lift-Still r store sha256 = refl

remember-Still : (session : SessionData) → Still (remember session)
unfolding remember
remember-Still session store sha256 = refl

remember-Sure : (session : SessionData) → Sure (remember session)
unfolding remember
remember-Sure session store = (tt, refl)

lifted-Still : {B : Type 0} (r : Result (Unit {0})) (k : Action B) → Still k → Still (lift r >> k)
lifted-Still (ok u) k still store sha256 = still store sha256
lifted-Still (err key) k still store sha256 = refl

module _ (codec : Codec) (attempt : Attempt) where
  set_loaded_path-Still : (sha256 path : Bytes) → Still (set_loaded_path codec attempt sha256 path)
  unfolding set_loaded_path
  set_loaded_path-Still sha256 path store document = refl

  replace_document-Atomic :
      (sha256 contents : Bytes) → Atomic (replace_document codec attempt sha256 contents)
  unfolding replace_document
  replace_document-Atomic sha256 contents store key e other document =
      let (through, ended) =
        write_disk-Atomic attempt.faults contents
          (record { session = store.documents sha256; temporary = none; previous = none }) refl
          refl in
      ended_at ended
    where
      ended_at :
          Ended attempt.faults
            (store.documents sha256)
            contents
            (outcome (
              write_disk attempt.faults contents
                (record { session = store.documents sha256; temporary = none; previous = none })))
            (final (
              write_disk attempt.faults contents
                (record { session = store.documents sha256; temporary = none; previous = none })))
          → ((replace_document codec attempt sha256 contents) store).1.documents document
            ≡ store.documents document
      ended_at (inl (r, _, _, _)) = cc
      ended_at (inr (inl (r, s, _, _))) = elim (Bool-cases (equal sha256 document)) [
        | inl h ↦ rw h (s ∙ ap store.documents ((equal_iff sha256 document).0 h))
        | inr h ↦ rw h refl
      ]
      ended_at (inr (inr (r, _, _, _))) = elim (other (err-inj (sym e ∙ r))) [ ]

  write_session-Atomic : (session : SessionData) → Atomic (write_session codec attempt session)
  unfolding write_session
  write_session-Atomic session =
      Still-then (lift (encode codec.utf8_decode session)) _
        (lift-Still (encode codec.utf8_decode session))
        (λ node.
          Still-then (lift attempt.new_temporary) _ (lift-Still attempt.new_temporary)
            (λ name. replace_document-Atomic session.identity.sha256 (codec.print node)))

  apply-Atomic :
      (analysis : Bool) (mutation : Store → SessionData → Result SessionData)
      (current : SessionData)
      → Atomic (apply codec attempt analysis mutation current)
  unfolding apply
  apply-Atomic analysis mutation current =
      Still-then (λ store. (mutation store current, store)) _ (λ store sha256. refl)
        (λ changed.
          Still-then (lift (advance_revision analysis changed)) _
            (lift-Still (advance_revision analysis changed))
            (λ next.
              then-Sure (write_session codec attempt next) _ (write_session-Atomic next)
                (λ u store. (_, refl))))

  refuse-Atomic : (sha256 : Bytes) (o : Option SessionData) → Atomic (refuse codec attempt sha256 o)
  unfolding refuse remember forget
  refuse-Atomic sha256 none =
      Still-Atomic (refuse codec attempt sha256 none) (λ store document. refl)
  refuse-Atomic sha256 (some current) =
      Still-Atomic (refuse codec attempt sha256 (some current)) (λ store document. refl)

  dispatch-Atomic :
      (identity : SessionIdentity) (analysis : Bool)
      (mutation : Store → SessionData → Result SessionData) (o : Option SessionData)
      → Atomic (dispatch codec attempt identity analysis mutation o)
  unfolding dispatch
  dispatch-Atomic identity analysis mutation none = refuse-Atomic identity.sha256 none
  dispatch-Atomic identity analysis mutation (some current) =
      elim (Bool-cases (same_identity current.identity identity)) [
        | inl h ↦ rw h (apply-Atomic analysis mutation current)
        | inr h ↦ rw h (refuse-Atomic identity.sha256 (some current))
      ]

  read_session-Still : (sha256 : Bytes) → Still (read_session codec attempt sha256)
  unfolding read_session
  read_session-Still sha256 =
      lifted-Still attempt.readable
        (λ store. (read_document codec sha256 (store.documents sha256), store))
        (λ store document. refl)

  mutate-Atomic :
      (identity : SessionIdentity) (analysis : Bool)
      (mutation : Store → SessionData → Result SessionData)
      → Atomic (mutate codec attempt identity analysis mutation)
  unfolding mutate
  mutate-Atomic identity analysis mutation = guarded-Atomic identity.sha256 false _ (
      Still-then (lift (check_hash identity.sha256 invalid_hash)) _
        (lift-Still (check_hash identity.sha256 invalid_hash))
        (λ u₁.
          Still-then (lift (check_hash identity.epoch invalid_epoch)) _
            (lift-Still (check_hash identity.epoch invalid_epoch))
            (λ u₂. Still-then (lift attempt.opened) _ (lift-Still attempt.opened) (λ u₃.
              Still-then (read_session codec attempt identity.sha256) _
                (read_session-Still identity.sha256)
                (dispatch-Atomic identity analysis mutation)))))

  create-Atomic :
      (sha256 path : Bytes) (o : Option SessionData) → Atomic (create codec attempt sha256 path o)
  unfolding create
  create-Atomic sha256 path (some current) =
      Still-Atomic (create codec attempt sha256 path (some current)) (λ store document. refl)
  create-Atomic sha256 path none =
      Still-then (lift attempt.new_epoch) _ (lift-Still attempt.new_epoch) (λ epoch.
        then-Sure
          (write_session codec attempt
            (empty_session (record { sha256 = sha256; epoch = epoch }) path 0 0))
          _
          (write_session-Atomic
            (empty_session (record { sha256 = sha256; epoch = epoch }) path 0 0))
          (λ u store. (_, refl)))

  open_session-Atomic :
      (sha256 path : Bytes) (o : Option SessionData)
      → Atomic (open_session codec attempt sha256 path o)
  unfolding open_session
  open_session-Atomic sha256 path current =
      then-Sure (create codec attempt sha256 path current) _ (create-Atomic sha256 path current)
        (λ session store. (session, refl))

  load_checked-Atomic : (sha256 path : Bytes) → Atomic (load_checked codec attempt sha256 path)
  unfolding load_checked
  load_checked-Atomic sha256 path =
      let reading = read_session codec attempt sha256 >>= open_session codec attempt sha256 path in
      Still-then (set_loaded_path codec attempt sha256 path) (λ u₃. lift attempt.opened >> reading)
        (set_loaded_path-Still sha256 path)
        (λ u₃.
          Still-then (lift attempt.opened) (λ u₄. reading) (lift-Still attempt.opened)
            (λ u₄.
              Still-then (read_session codec attempt sha256)
                (open_session codec attempt sha256 path) (read_session-Still sha256)
                (open_session-Atomic sha256 path)))

  load-Atomic : (sha256 path : Bytes) → Atomic (load codec attempt sha256 path)
  unfolding load
  load-Atomic sha256 path = guarded-Atomic sha256 true _ (
      Still-then (lift (check_hash sha256 invalid_hash)) _
        (lift-Still (check_hash sha256 invalid_hash))
        (λ u₁.
          Still-then (lift (check_text codec.utf8_decode path))
            (λ u₂. load_checked codec attempt sha256 path)
            (lift-Still (check_text codec.utf8_decode path))
            (λ u₂. load_checked-Atomic sha256 path)))

  clear_as-Atomic : (sha256 : Bytes) (before : Kept) → Atomic (clear_as codec attempt sha256 before)
  unfolding clear_as
  clear_as-Atomic sha256 before =
      Still-then (lift attempt.new_epoch) _ (lift-Still attempt.new_epoch) (λ epoch.
        let empty = cleared_session (record { sha256 = sha256; epoch = epoch }) before in
        Still-then (lift (advance_revision true empty)) _ (lift-Still (advance_revision true empty))
          (λ cleared.
            then-Sure (write_session codec attempt cleared) _ (write_session-Atomic cleared)
              (λ u store. (cleared, refl))))

  clear-Atomic : (sha256 : Bytes) → Atomic (clear codec attempt sha256)
  unfolding clear
  clear-Atomic sha256 = guarded-Atomic sha256 false _ (
      Still-then (lift (check_hash sha256 invalid_hash)) _
        (lift-Still (check_hash sha256 invalid_hash))
        (λ u₁. Still-then (lift attempt.opened) _ (lift-Still attempt.opened) (λ u₂ store.
          clear_as-Atomic sha256
            (kept (read_session codec attempt sha256 store).0 (store.cache sha256)) store)))

  -- A mutation that throws, whatever it computes, leaves each document on the disk as it was, unless
  -- the restoring of the document that it had replaced failed.
  pub mutate-thrown :
      (identity : SessionIdentity) (analysis : Bool)
      (mutation : Store → SessionData → Result SessionData) (store : Store) (key : Key)
      (document : Bytes)
      → (mutate codec attempt identity analysis mutation store).0 ≡ err key
      → key ≢ rollback_error
      → (mutate codec attempt identity analysis mutation store).1.documents document
        ≡ store.documents document
  mutate-thrown identity analysis mutation store key document e other =
      mutate-Atomic identity analysis mutation store key e other document

  -- A `load` that throws leaves each document on the disk as it was, unless the removal of the one
  -- that it had put there failed.
  pub load-thrown :
      (sha256 path : Bytes) (store : Store) (key : Key) (document : Bytes)
      → (load codec attempt sha256 path store).0 ≡ err key
      → key ≢ rollback_error
      → (load codec attempt sha256 path store).1.documents document ≡ store.documents document
  load-thrown sha256 path store key document e other =
      load-Atomic sha256 path store key e other document

  -- A `clear` that throws leaves each document on the disk as it was, unless the restoring of the
  -- document that it had replaced failed.
  pub clear-thrown :
      (sha256 : Bytes) (store : Store) (key : Key) (document : Bytes)
      → (clear codec attempt sha256 store).0 ≡ err key
      → key ≢ rollback_error
      → (clear codec attempt sha256 store).1.documents document ≡ store.documents document
  clear-thrown sha256 store key document e other = clear-Atomic sha256 store key e other document
