-- ===== src/Session/Disk.antt =====
-- src/backend/session/SessionStore.cpp: `write_disk`, as the sequence of the states of the directory
-- that it goes through. The random names are the entries `temporary` and `previous`.
use mydbg.Base.{
  ℕ, zero, suc, Bool, true, false, ◌&&◌, Option, none, some, List, [], ◌∷◌, ◌++◌, if◌then◌else◌,
  take, drop,
}
use mydbg.Base.Bytes.{Bytes}
use mydbg.Session.Data.{Result, ok, err, system_error, rollback_error}

pub record Directory : Type 0 where
  -- the entry of the session's document
  pub session : Option Bytes
  pub temporary : Option Bytes
  -- the hard link to the document before
  pub previous : Option Bytes

-- What `write` did, before the call that writes the rest: an interrupted call is done again.
pub data Write : Type 0 where
  interrupted : Write
  wrote : ℕ → Write
  failed : Write

-- Which calls the system refuses; `true` is done.
pub record Faults : Type 0 where
  pub creates : Bool
  pub writes : List Write
  pub syncs_file : Bool
  pub links : Bool
  pub syncs_backup : Bool
  pub renames : Bool
  pub syncs_rename : Bool
  pub restores : Bool
  -- the `unlinkat` of the two private names, whose failure is ignored
  pub removes_temporary : Bool
  pub removes_previous : Bool

-- The states of the directory, up to the state in which the function returns or throws
pub data Run : Type 0 where
  stop : Result (Unit {0}) → Directory → Run
  step : Directory → Run → Run

abbrev pub outcome : Run → Result (Unit {0})
outcome (stop r d) = r
outcome (step d run) = outcome run

abbrev pub final : Run → Directory
final (stop r d) = d
final (step d run) = final run

-- A property of all states on the way, the last included
abbrev pub Throughout : (Directory → Type 0) → Run → Type 0
Throughout P (stop r d) = P d
Throughout P (step d run) = P d × Throughout P run

abbrev with_session : Option Bytes → Directory → Directory
with_session entry d = record { session = entry; temporary = d.temporary; previous = d.previous }

abbrev with_temporary : Option Bytes → Directory → Directory
with_temporary entry d = record { session = d.session; temporary = entry; previous = d.previous }

abbrev with_previous : Option Bytes → Directory → Directory
with_previous entry d = record { session = d.session; temporary = d.temporary; previous = entry }

abbrev reach : Directory → (Directory → Run) → Run
reach d next = step d (next d)

-- `unlinkat` of a private name
abbrev remove_temporary : Faults → Directory → Directory
remove_temporary faults d = if faults.removes_temporary then with_temporary none d else d

abbrev remove_previous : Faults → Directory → Directory
remove_previous faults d = if faults.removes_previous then with_previous none d else d

-- The `catch` block. It gives up where the system refuses to restore the document before.
unfoldable pub recover : Faults → (committed backup : Bool) → Directory → Run
recover faults false false d = stop (err system_error) (remove_temporary faults d)
recover faults false true d =
    reach (remove_temporary faults d) (λ d'. stop (err system_error) (remove_previous faults d'))
recover faults true false d =
    if faults.restores
    then reach (with_session none d) (λ d'. stop (err system_error) (remove_temporary faults d'))
    else stop (err rollback_error) d
recover faults true true d =
    if faults.restores
    then reach (with_previous none (with_session d.previous d))
        (λ d'. stop (err system_error) (remove_temporary faults d'))
    else stop (err rollback_error) d

-- behind the renaming
unfoldable pub finish : Faults → (backup : Bool) → Directory → Run
unfolding recover
finish faults backup d =
    if faults.syncs_rename
    then stop (ok tt) (if backup then remove_previous faults d else d)
    else recover faults true backup d

unfoldable pub replace : Faults → (backup : Bool) → Directory → Run
unfolding finish recover
replace faults backup d =
    if faults.syncs_backup && faults.renames
    then reach (with_temporary none (with_session d.temporary d)) (finish faults backup)
    else recover faults false backup d

-- `linkat` finds no entry where there is no session yet.
unfoldable pub link : Option Bytes → Faults → Directory → Run
unfolding replace
link none faults d = replace faults false d
link (some contents) faults d = reach (with_previous (some contents) d) (replace faults true)

unfoldable pub back_up : Faults → Directory → Run
unfolding link recover
back_up faults d =
    if faults.syncs_file && faults.links
    then link d.session faults d
    else recover faults false false d

-- The loop that writes: `rest` is the text from `offset` on.
unfoldable pub write_rest : Faults → List Write → (written rest : Bytes) → Directory → Run
unfolding back_up recover
write_rest faults writes written [] d = back_up faults d
write_rest faults [] written (c ∷ rest) d =
    reach (with_temporary (some (written ++ c ∷ rest)) d) (back_up faults)
write_rest faults (interrupted ∷ writes) written (c ∷ rest) d =
    write_rest faults writes written (c ∷ rest) d
write_rest faults (failed ∷ writes) written (c ∷ rest) d = recover faults false false d
write_rest faults (wrote zero ∷ writes) written (c ∷ rest) d = recover faults false false d
write_rest faults (wrote (suc n) ∷ writes) written (c ∷ rest) d =
    let more = written ++ c ∷ take n rest in
    step (with_temporary (some more) d)
      (write_rest faults writes more (drop n rest) (with_temporary (some more) d))

-- `write_disk`, behind `encode`
unfoldable pub write_disk : Faults → Bytes → Directory → Run
unfolding write_rest
write_disk faults contents d =
    if faults.creates
    then reach (with_temporary (some []) d) (write_rest faults faults.writes [] contents)
    else stop (err system_error) d
