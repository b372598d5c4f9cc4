-- ===== src/Base/Tabulate.antt =====
-- `tabulate`: the list that a loop over an index writes, and its entries.
use Prim.Native.Nat.{ℕ, zero, suc, ◌<◌}
use mathlib.Core.Path.{◌≡◌, refl, ap, ◌∙◌}
use mathlib.Core.List.{List, [], ◌∷◌, ◌++◌}
use native.Mathlib.Omega.{arith}
use mydbg.Base.Lists.{length, get_or, tabulate, All}

module _ {ℓ} {A : Type ℓ} where
  pub get_or-tabulate :
      (n : ℕ) (f : ℕ → A) (i : ℕ) (d : A) → i < n → get_or (tabulate n f) i d ≡ f i
  get_or-tabulate zero f i d h = absurd (omega arith)
  get_or-tabulate (suc n) f zero d h = refl
  get_or-tabulate (suc n) f (suc i) d h = get_or-tabulate n (λ k. f (suc k)) i d (omega arith)

  pub tabulate_ext :
      (n : ℕ) (f g : ℕ → A) → ((i : ℕ) → i < n → f i ≡ g i) → tabulate n f ≡ tabulate n g
  tabulate_ext zero f g h = refl
  tabulate_ext (suc n) f g h =
      ap (λ (x : A). x ∷ tabulate n (λ k. f (suc k))) (h 0 (omega arith))
      ∙ ap (λ (xs : List A). g 0 ∷ xs)
          (tabulate_ext n (λ k. f (suc k)) (λ k. g (suc k)) (λ i l. h (suc i) (omega arith)))

  pub tabulate-get_or : (xs : List A) (d : A) → tabulate (length xs) (λ i. get_or xs i d) ≡ xs
  tabulate-get_or [] d = refl
  tabulate-get_or (x ∷ xs) d = ap (λ (ys : List A). x ∷ ys) (tabulate-get_or xs d)

  pub All-tabulate {κ} :
      (P : A → Type κ) (n : ℕ) (f : ℕ → A) → ((i : ℕ) → i < n → P (f i)) → All P (tabulate n f)
  All-tabulate P zero f h = tt
  All-tabulate P (suc n) f h =
      (h 0 (omega arith), All-tabulate P n (λ k. f (suc k)) (λ i l. h (suc i) (omega arith)))

  pub All-get_or {κ} :
      (P : A → Type κ) (xs : List A) (i : ℕ) (d : A) → All P xs → P d → P (get_or xs i d)
  All-get_or P [] i d h p = p
  All-get_or P (x ∷ xs) zero d (h, hs) p = h
  All-get_or P (x ∷ xs) (suc i) d (h, hs) p = All-get_or P xs i d hs p

  pub tabulate_snoc : (n : ℕ) (f : ℕ → A) → tabulate (suc n) f ≡ tabulate n f ++ (f n ∷ [])
  tabulate_snoc zero f = refl
  tabulate_snoc (suc n) f = ap (λ (xs : List A). f 0 ∷ xs) (tabulate_snoc n (λ k. f (suc k)))
