-- ===== src/Session/Kept.antt =====
-- src/backend/session/SessionStore.cpp: what each mutation keeps of a session.
use mydbg.Base.{ℕ, ◌+◌, ◌≤◌, ◌≡◌, Bool, true, false, Option, arith, if◌then◌else◌}
use mydbg.Base.Bytes.{Bytes}
use mathlib.Core.Path.{Path}
use mydbg.Session.Data.{
  Result, ok, Utf8Decode, SessionAddress, SessionDebuggerState, SessionAnalysisEdit, SessionData,
}
use mydbg.Session.WellFormed.{WellFormed}
use mydbg.Session.Mutations.{advance_revision, value_or, set_debugger, add_analysis, change_comment}
use mydbg.Session.Distinct.{append-Unique, put-Unique, erase-Unique}

-- What a mutation keeps of a session
abbrev pub Keeps : (SessionData → Result SessionData) → Type 0
Keeps mutation =
    (before changed : SessionData)
    → WellFormed before
    → mutation before ≡ ok changed
    → WellFormed changed × (changed.identity ≡ before.identity)

pub advance_revision-after :
    (analysis : Bool) (changed after : SessionData)
    → advance_revision analysis changed ≡ ok after
    → (after.identity ≡ changed.identity)
      × (after.revision ≡ changed.revision + 1)
      × (after.analysis_revision
          ≡ (if analysis then changed.analysis_revision + 1 else changed.analysis_revision))
      × (after.binary_path ≡ changed.binary_path)
      × (after.debugger ≡ changed.debugger)
      × (after.analysis ≡ changed.analysis)
      × (after.comments ≡ changed.comments)
unfolding advance_revision
advance_revision-after analysis changed after e = ground (arith, e)

pub advance_revision-WellFormed :
    (analysis : Bool) (changed after : SessionData)
    → WellFormed changed
    → advance_revision analysis changed ≡ ok after
    → WellFormed after
advance_revision-WellFormed analysis changed after (modules, comments, ordered) e =
    let (_, revision, analysed, _, _, same_analysis, same_comments) =
      advance_revision-after analysis changed after e in
    rw (same_analysis, same_comments)
      (modules, comments, ordered_after analysis _ _ ordered revision analysed)
  where
    ordered_after :
        {a r : ℕ} (b : Bool) (a' r' : ℕ)
        → a ≤ r
        → r' ≡ r + 1
        → a' ≡ (if b then a + 1 else a)
        → a' ≤ r'
    ordered_after true a' r' h hr ha = omega (arith, h, hr, ha)
    ordered_after false a' r' h hr ha = omega (arith, h, hr, ha)

pub change_comment-Keeps :
    (utf8_decode : Utf8Decode) (address : SessionAddress) (text : Bytes)
    → Keeps (change_comment utf8_decode address text)
unfolding change_comment
change_comment-Keeps utf8_decode address text before changed (modules, comments, ordered) e =
    ground (
      arith,
      e,
      modules,
      ordered,
      put-Unique address text before.comments comments,
      erase-Unique address text before.comments comments,
    )

pub add_analysis-Keeps :
    (sha256 path : Bytes) (edit : SessionAnalysisEdit) → Keeps (add_analysis sha256 path edit)
unfolding add_analysis
add_analysis-Keeps sha256 path edit before changed (modules, comments, ordered) e =
    ground (arith, e, comments, ordered, append-Unique sha256 path edit before.analysis modules)

pub add_analysis-kept :
    (sha256 path : Bytes) (edit : SessionAnalysisEdit) (before changed : SessionData)
    → add_analysis sha256 path edit before ≡ ok changed
    → (changed.revision ≡ before.revision)
      × (changed.analysis_revision ≡ before.analysis_revision)
      × (changed.binary_path ≡ before.binary_path)
      × (changed.debugger ≡ before.debugger)
      × (changed.comments ≡ before.comments)
unfolding add_analysis
add_analysis-kept sha256 path edit before changed e = ground (arith, e)

pub set_debugger-fields :
    (state : SessionDebuggerState) (path : Option Bytes) (before changed : SessionData)
    → Path (Result SessionData) (ok (set_debugger state path before)) (ok changed)
    → (changed.debugger ≡ state)
      × (changed.revision ≡ before.revision)
      × (changed.analysis_revision ≡ before.analysis_revision)
      × (changed.analysis ≡ before.analysis)
      × (changed.comments ≡ before.comments)
      × (changed.binary_path ≡ value_or before.binary_path path)
unfolding set_debugger
set_debugger-fields state path before changed e = ground (arith, e)

pub set_debugger-Keeps :
    (state : SessionDebuggerState) (path : Option Bytes)
    → Keeps (λ session. ok (set_debugger state path session))
unfolding set_debugger
set_debugger-Keeps state path before changed (modules, comments, ordered) e =
    ground (arith, e, modules, comments, ordered)
