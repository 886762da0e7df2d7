-- ===== src/Shared/Lists.antt =====
-- Lists measured by native numbers, under the library's names, and predicates on them.
use Prim.Native.Nat.{ℕ, zero, suc, ◌+◌, ◌≤◌}
use mathlib.Core.Bool.{Bool, true, false, ◌||◌}
use mathlib.Core.List.{List, [], ◌∷◌}
use mathlib.Core.Option.{Option, none, some}
use mathlib.Core.Path.{◌≡◌, refl, ap, ◌∙◌}
use mathlib.Core.Logic.{inl, inr}
use moneymate_backend.Shared.Tests.{Bool-cases, if◌then◌else◌}
use native.Mathlib.Omega.{arith}

module _ {ℓ} {A : Type ℓ} where
  abbrev pub length : List A → ℕ
  length [] = 0
  length (x ∷ xs) = suc (length xs)

  -- The first element that passes a test: `SELECT … WHERE p` read as one row.
  abbrev pub find? : (A → Bool) → List A → Option A
  find? p [] = none
  find? p (x ∷ xs) = if p x then some x else find? p xs

  -- How many elements pass a test.
  abbrev pub count_if : (A → Bool) → List A → ℕ
  count_if p [] = 0
  count_if p (x ∷ xs) = (if p x then 1 else 0) + count_if p xs

  abbrev pub keep_if : (A → Bool) → List A → List A
  keep_if p [] = []
  keep_if p (x ∷ xs) = let rest = keep_if p xs in if p x then x ∷ rest else rest

  abbrev pub take : ℕ → List A → List A
  take zero xs = []
  take (suc n) [] = []
  take (suc n) (x ∷ xs) = x ∷ take n xs

  abbrev pub drop : ℕ → List A → List A
  drop zero xs = xs
  drop (suc n) [] = []
  drop (suc n) (x ∷ xs) = drop n xs

  abbrev pub any : (A → Bool) → List A → Bool
  any p [] = false
  any p (x ∷ xs) = p x || any p xs

module _ {ℓ} {A : Type ℓ} (p : A → Bool) where
  pub count_if-find? : (xs : List A) → find? p xs ≡ none → count_if p xs ≡ 0
  count_if-find? [] h = refl
  count_if-find? (x ∷ xs) h = ground (arith, count_if-find? xs)

  pub find?_passes : (xs : List A) {x : A} → find? p xs ≡ some x → p x ≡ true
  find?_passes [] h = ground arith
  find?_passes (y ∷ xs) {x} h = elim (Bool-cases (p y)) [
    | inl passes ↦ ap p (ground arith) ∙ passes
    | inr n ↦ find?_passes xs (ground arith)
  ]

  pub count_if-take : (n : ℕ) (xs : List A) → count_if p (take n xs) ≤ count_if p xs
  count_if-take zero xs = ground arith
  count_if-take (suc n) [] = ground arith
  count_if-take (suc n) (x ∷ xs) = ground (arith, count_if-take n xs)

  pub count_if-keep_if : (q : A → Bool) (xs : List A) → count_if p (keep_if q xs) ≤ count_if p xs
  count_if-keep_if q [] = ground arith
  count_if-keep_if q (x ∷ xs) = ground (arith, count_if-keep_if q xs)

abbrev pub is_some {ℓ} : {A : Type ℓ} → Option A → Bool
is_some none = false
is_some (some a) = true

abbrev pub All {ℓ κ} : {A : Type ℓ} → (A → Type κ) → List A → Type κ
All P [] = Unit
All P (x ∷ xs) = P x × All P xs
