-- ===== src/Session/Atomic.antt =====
-- What `write_disk` leaves in the directory, whichever calls the system refuses.
use mydbg.Base.{
  ℕ, zero, suc, ◌≤◌, ◌≡◌, refl, sym, ap, ◌∙◌, ◌⊎◌, inl, true, false, Option, none, some, List, [],
  ◌∷◌, ◌++◌, append-nil, append_assoc, arith, take, drop, All,
}
use mydbg.Base.Bytes.{Bytes}
use mydbg.Session.Data.{Result, ok, err, system_error, rollback_error}
use mydbg.Session.Disk.{
  Directory, Write, interrupted, wrote, failed, Faults, Run, outcome, final, Throughout, recover,
  finish, replace, link, back_up, write_rest, write_disk,
}

-- The entry of the session is the one before or the whole new document.
abbrev pub OldOrNew : Option Bytes → Bytes → Directory → Type 0
OldOrNew old contents d = (d.session ≡ old) ⊎ (d.session ≡ some contents)

-- How the function ends: with the new document, with the one before, or, where this cannot be
-- restored, with the new one and a link to the one before. A private name of the first two is left
-- only where its removal is refused.
abbrev pub Ended : Faults → Option Bytes → Bytes → Result (Unit {0}) → Directory → Type 0
Ended faults old contents r d =
    ((r ≡ ok tt)
      × (d.session ≡ some contents)
      × (d.temporary ≡ none)
      × ((d.previous ≡ none) ⊎ (faults.removes_previous ≡ false)))
    ⊎ ((r ≡ err system_error)
        × (d.session ≡ old)
        × ((d.temporary ≡ none) ⊎ (faults.removes_temporary ≡ false))
        × ((d.previous ≡ none) ⊎ (faults.removes_previous ≡ false)))
    ⊎ ((r ≡ err rollback_error)
        × (d.session ≡ some contents)
        × (d.temporary ≡ none)
        × (d.previous ≡ old))

abbrev pub Safe : Faults → Option Bytes → Bytes → Run → Type 0
Safe faults old contents run =
    Throughout (OldOrNew old contents) run × Ended faults old contents (outcome run) (final run)

recover-Safe :
    (faults : Faults) (old : Option Bytes) (contents : Bytes) (d : Directory)
    → d.session ≡ old
    → d.previous ≡ none
    → Safe faults old contents (recover faults false false d)
unfolding recover
recover-Safe faults old contents d s p = ground (arith, s, p)

replace-new :
    (faults : Faults) (contents : Bytes) (d : Directory)
    → d.session ≡ none
    → d.temporary ≡ some contents
    → d.previous ≡ none
    → Safe faults none contents (replace faults false d)
unfolding replace finish recover
replace-new faults contents d s t p = ground (arith, s, t, p)

replace-old :
    (faults : Faults) (before contents : Bytes) (d : Directory)
    → d.session ≡ some before
    → d.temporary ≡ some contents
    → d.previous ≡ some before
    → Safe faults (some before) contents (replace faults true d)
unfolding replace finish recover
replace-old faults before contents d s t p = ground (arith, s, t, p)

take-drop : (n : ℕ) (xs : Bytes) → take n xs ++ drop n xs ≡ xs
take-drop zero xs = refl
take-drop (suc n) [] = refl
take-drop (suc n) (x ∷ xs) = ap (λ ys. x ∷ ys) (take-drop n xs)

link-Safe :
    (entry : Option Bytes) (faults : Faults) (contents : Bytes) (d : Directory)
    → d.session ≡ entry
    → d.temporary ≡ some contents
    → d.previous ≡ none
    → Safe faults entry contents (link entry faults d)
unfolding link
link-Safe none faults contents d s t p = replace-new faults contents d s t p
link-Safe (some before) faults contents d s t p =
    let (through, ended) =
      replace-old faults before contents
        (record { session = d.session; temporary = d.temporary; previous = some before }) s t
        refl in
    ((inl s, through), ended)

back_up-Safe :
    (faults : Faults) (contents : Bytes) (d : Directory)
    → d.temporary ≡ some contents
    → d.previous ≡ none
    → Safe faults d.session contents (back_up faults d)
unfolding back_up
back_up-Safe faults contents d t p = ground (
  arith,
  link-Safe d.session faults contents d refl t p,
  recover-Safe faults d.session contents d refl p,
)

-- The text is what was written and the rest.
write_rest-Safe :
    (faults : Faults) (writes : List Write) (written rest contents : Bytes) (d : Directory)
    → written ++ rest ≡ contents
    → d.temporary ≡ some written
    → d.previous ≡ none
    → Safe faults d.session contents (write_rest faults writes written rest d)
unfolding write_rest
write_rest-Safe faults writes written [] contents d same t p =
    back_up-Safe faults contents d (t ∙ ap some (sym (append-nil written) ∙ same)) p
write_rest-Safe faults [] written (c ∷ rest) contents d same t p =
    let (through, ended) =
      back_up-Safe faults contents
        (record {
          session = d.session;
          temporary = some (written ++ c ∷ rest);
          previous = d.previous;
        })
        (ap some same) p in
    ((inl refl, through), ended)
write_rest-Safe faults (interrupted ∷ writes) written (c ∷ rest) contents d same t p =
    write_rest-Safe faults writes written (c ∷ rest) contents d same t p
write_rest-Safe faults (failed ∷ writes) written (c ∷ rest) contents d same t p =
    recover-Safe faults d.session contents d refl p
write_rest-Safe faults (wrote zero ∷ writes) written (c ∷ rest) contents d same t p =
    recover-Safe faults d.session contents d refl p
write_rest-Safe faults (wrote (suc n) ∷ writes) written (c ∷ rest) contents d same t p =
    let more = written ++ c ∷ take n rest in
    let (through, ended) =
      write_rest-Safe faults writes more (drop n rest) contents
        (record { session = d.session; temporary = some more; previous = d.previous })
        (append_assoc written (c ∷ take n rest) (drop n rest)
          ∙ ap (λ x. written ++ c ∷ x) (take-drop n rest)
          ∙ same)
        refl p in
    ((inl refl, through), ended)

-- Whichever calls the system refuses or cuts short: at each moment the session's entry is the
-- document before or the whole new one. When the function ends, it is the new one if it reports
-- success, the one before if it throws, and the new one with the one before still linked if the
-- restoring fails. But for this last case, a private name is left only where the system refuses to
-- remove it.
pub write_disk-Atomic :
    (faults : Faults) (contents : Bytes) (d : Directory)
    → d.temporary ≡ none
    → d.previous ≡ none
    → Throughout (OldOrNew d.session contents) (write_disk faults contents d)
      × Ended faults d.session contents
          (outcome (write_disk faults contents d))
          (final (write_disk faults contents d))
unfolding write_disk
write_disk-Atomic faults contents d t p =
    let (through, ended) =
      write_rest-Safe faults faults.writes [] contents contents
        (record { session = d.session; temporary = some []; previous = d.previous }) refl refl p in
    ground (arith, through, ended, t, p)

-- Each call is interrupted or writes some bytes.
abbrev pub Progress : Write → Type 0
Progress interrupted = Unit
Progress (wrote n) = 1 ≤ n
Progress failed = ⊥

back_up-completes :
    (faults : Faults) (d : Directory)
    → faults.syncs_file ≡ true
    → faults.links ≡ true
    → faults.syncs_backup ≡ true
    → faults.renames ≡ true
    → faults.syncs_rename ≡ true
    → outcome (back_up faults d) ≡ ok tt
unfolding back_up link replace finish
back_up-completes faults d f l b r s = let h = linked d.session in ground (arith, f, l, h)
  where
    linked : (entry : Option Bytes) → outcome (link entry faults d) ≡ ok tt
    linked none = ground (arith, b, r, s)
    linked (some before) = ground (arith, b, r, s)

write_rest-completes :
    (faults : Faults) (writes : List Write) (written rest : Bytes) (d : Directory)
    → All Progress writes
    → ((d' : Directory) → outcome (back_up faults d') ≡ ok tt)
    → outcome (write_rest faults writes written rest d) ≡ ok tt
unfolding write_rest
write_rest-completes faults writes written [] d progress h = h d
write_rest-completes faults [] written (c ∷ rest) d progress h = h _
write_rest-completes faults (interrupted ∷ writes) written (c ∷ rest) d (_, progress) h =
    write_rest-completes faults writes written (c ∷ rest) d progress h
write_rest-completes faults (failed ∷ writes) written (c ∷ rest) d (p, progress) h = elim p [ ]
write_rest-completes faults (wrote zero ∷ writes) written (c ∷ rest) d (p, progress) h =
    ground (arith, p)
write_rest-completes faults (wrote (suc n) ∷ writes) written (c ∷ rest) d (_, progress) h =
    write_rest-completes faults writes (written ++ c ∷ take n rest) (drop n rest) _ progress h

-- If the system refuses no call, and each call of `write` is interrupted or writes at least a byte,
-- the function reports success.
pub write_disk-completes :
    (faults : Faults) (contents : Bytes) (d : Directory)
    → faults.creates ≡ true
    → All Progress faults.writes
    → faults.syncs_file ≡ true
    → faults.links ≡ true
    → faults.syncs_backup ≡ true
    → faults.renames ≡ true
    → faults.syncs_rename ≡ true
    → outcome (write_disk faults contents d) ≡ ok tt
unfolding write_disk
write_disk-completes faults contents d c w f l b r s =
    let h =
      write_rest-completes faults faults.writes [] contents
        (record { session = d.session; temporary = some []; previous = d.previous }) w
        (λ d'. back_up-completes faults d' f l b r s) in
    ground (arith, c, h)
