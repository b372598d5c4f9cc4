-- ===== src/Navigation/Nearest.antt =====
-- src/app/AppActions.cpp: the search through the history finds the nearest entry that may be shown.
use mydbg.Base.{
  ℕ, zero, suc, ◌+◌, ◌≤◌, ◌<◌, ◌≡◌, inl, inr, Bool, true, false, none, some, arith, Bool-cases,
}
use native.Mathlib.Decide.{ℕ_discrete}
use mydbg.Navigation.History.{search_back, search_forward}

-- The search from `from`, over the candidates strictly between `from` and `limit`, found `found`: the
-- first of them, in the direction of the search, that passes the test.
pub record NearestBack (ok : ℕ → Bool) (from found : ℕ) : Type 0 where
  pub inside : found < from
  pub passes : ok found ≡ true
  pub skipped : (j : ℕ) → found < j → j < from → ok j ≡ false

pub record NearestForward (ok : ℕ → Bool) (from last found : ℕ) : Type 0 where
  pub beyond : from < found
  pub inside : found ≤ last
  pub passes : ok found ≡ true
  pub skipped : (j : ℕ) → from < j → j < found → ok j ≡ false

pub search_back-Nearest :
    (ok : ℕ → Bool) (from : ℕ) {found : ℕ}
    → search_back ok from ≡ some found
    → NearestBack ok from found
unfolding search_back
search_back-Nearest ok zero e = cc
search_back-Nearest ok (suc from) {found} e = elim (Bool-cases (ok from)) [
  | inl yes_is ↦
      let here : from ≡ found = ground arith in
      rw (← here)
        (record { inside = omega arith; passes = yes_is; skipped = λ j a b. absurd (omega arith) })
  | inr no_is ↦
      let near = search_back-Nearest ok from (rw (no_is, search_back) at e) in
      record {
        inside = omega (arith, near.inside);
        passes = near.passes;
        skipped = λ j a b. elim (ℕ_discrete j from) [
          | yes same ↦ rw same no_is
          | no other ↦ near.skipped j a (omega arith)
        ];
      }
]

pub search_forward-Nearest :
    (ok : ℕ → Bool) (from rounds : ℕ) {found : ℕ}
    → search_forward ok from rounds ≡ some found
    → NearestForward ok from (from + rounds) found
unfolding search_forward
search_forward-Nearest ok from zero e = cc
search_forward-Nearest ok from (suc rounds) {found} e = elim (Bool-cases (ok (from + 1))) [
  | inl yes_is ↦
      let here : from + 1 ≡ found = ground arith in
      rw (← here) (record {
        beyond = omega arith;
        inside = omega arith;
        passes = yes_is;
        skipped = λ j a b. absurd (omega arith);
      })
  | inr no_is ↦
      let near = search_forward-Nearest ok (from + 1) rounds (rw (no_is, search_forward) at e) in
      record {
        beyond = omega (arith, near.beyond);
        inside = omega (arith, near.inside);
        passes = near.passes;
        skipped = λ j a b. elim (ℕ_discrete j (from + 1)) [
          | yes same ↦ rw same no_is
          | no other ↦ near.skipped j (omega arith) b
        ];
      }
]

pub search_back-none :
    (ok : ℕ → Bool) (from : ℕ) → search_back ok from ≡ none → (j : ℕ) → j < from → ok j ≡ false
unfolding search_back
search_back-none ok zero e j h = absurd (omega arith)
search_back-none ok (suc from) e j h = elim (ℕ_discrete j from) [
  | yes same ↦ rw same (ground arith)
  | no other ↦ search_back-none ok from (ground arith) j (omega arith)
]

pub search_forward-none :
    (ok : ℕ → Bool) (from rounds : ℕ)
    → search_forward ok from rounds ≡ none
    → (j : ℕ) → from < j
    → j ≤ from + rounds
    → ok j ≡ false
unfolding search_forward
search_forward-none ok from zero e j a b = absurd (omega arith)
search_forward-none ok from (suc rounds) e j a b = elim (ℕ_discrete j (from + 1)) [
  | yes same ↦ rw same (ground arith)
  | no other ↦ search_forward-none ok (from + 1) rounds (ground arith) j (omega arith) (omega arith)
]
