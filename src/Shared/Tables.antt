-- ===== src/Shared/Tables.antt =====
-- Database tables as lists of rows, read and updated by a key column.
use Prim.Native.Nat.{ℕ}
use mathlib.Core.Path.{◌≡◌, refl}
use mathlib.Core.Bool.{Bool, false}
use mathlib.Core.Option.{Option, none, some}
use mathlib.Core.Logic.{inl, inr}
use mathlib.Core.List.{List, [], ◌∷◌}
use native.Mathlib.Omega.{arith}
use moneymate_backend.Shared.Tests.{◌==◌, if◌then◌else◌, Bool-cases}
use moneymate_backend.Shared.Lists.{find?, count_if}

module _ {ℓ} {R : Type ℓ} (key : R → ℕ) where
  -- `SELECT … WHERE key = k`
  unfoldable pub find_by : ℕ → List R → Option R
  find_by k [] = none
  find_by k (r ∷ rs) = if key r == k then some r else find_by k rs

  -- `UPDATE … SET f WHERE key = k`
  unfoldable pub update_by : ℕ → (R → R) → List R → List R
  update_by k f [] = []
  update_by k f (r ∷ rs) = (if key r == k then f r else r) ∷ update_by k f rs

  -- `DELETE … WHERE key = k`
  unfoldable pub delete_by : ℕ → List R → List R
  delete_by k [] = []
  delete_by k (r ∷ rs) = let rest = delete_by k rs in if key r == k then rest else r ∷ rest

  -- No key stands in two rows.
  abbrev pub IsKeyed : List R → Type ℓ
  IsKeyed [] = Unit
  IsKeyed (r ∷ rs) = (find_by (key r) rs ≡ none) × IsKeyed rs

  pub key-find_by : (k : ℕ) (rs : List R) (r : R) → find_by k rs ≡ some r → key r ≡ k
  unfolding find_by
  key-find_by k [] r h = ground arith
  key-find_by k (x ∷ rs) r h = ground (arith, key-find_by k rs r)

  pub find_by-delete_by : (k : ℕ) (rs : List R) → find_by k (delete_by k rs) ≡ none
  unfolding find_by delete_by
  find_by-delete_by k [] = refl
  find_by-delete_by k (r ∷ rs) = ground (arith, find_by-delete_by k rs)

  pub find_by-delete_ne :
      (k j : ℕ) (rs : List R) → (j == k) ≡ false → find_by j (delete_by k rs) ≡ find_by j rs
  unfolding find_by delete_by
  find_by-delete_ne k j [] h = refl
  find_by-delete_ne k j (r ∷ rs) h = ground (arith, find_by-delete_ne k j rs)

  -- In a keyed table the first row that passes a test is the row of its key.
  pub find_by-find? :
      (p : R → Bool) (rs : List R) (r : R)
      → IsKeyed rs
      → find? p rs ≡ some r
      → find_by (key r) rs ≡ some r
  unfolding find_by
  find_by-find? p [] r h e = ground arith
  find_by-find? p (x ∷ rs) r h e = elim (Bool-cases (p x)) [
    | inl y ↦ ground arith
    | inr n ↦ ground (arith, find_by-find? p rs r h.1, key-find_by (key x) rs r)
  ]

  -- An update that no test sees leaves the first row that passes where it is.
  pub find?-update_by :
      (p : R → Bool) (f : R → R) (blind : (r : R) → p (f r) ≡ p r) (k : ℕ) (rs : List R) (r : R)
      → find? p rs ≡ some r
      → find? p (update_by k f rs) ≡ some (if key r == k then f r else r)
  unfolding update_by
  find?-update_by p f blind k [] r h = ground arith
  find?-update_by p f blind k (x ∷ rs) r h =
      ground (arith, blind x, find?-update_by p f blind k rs r)

  pub update_by-missing :
      (k : ℕ) (f : R → R) (rs : List R) → find_by k rs ≡ none → update_by k f rs ≡ rs
  unfolding find_by update_by
  update_by-missing k f [] h = refl
  update_by-missing k f (r ∷ rs) h = ground (arith, update_by-missing k f rs)

  -- An update that no test sees leaves the count of the rows that pass.
  pub count_if-update_by :
      (p : R → Bool) (f : R → R) (blind : (r : R) → p (f r) ≡ p r) (k : ℕ) (rs : List R)
      → count_if p (update_by k f rs) ≡ count_if p rs
  unfolding update_by
  count_if-update_by p f blind k [] = refl
  count_if-update_by p f blind k (x ∷ rs) =
      ground (arith, blind x, count_if-update_by p f blind k rs)

  module _ (f : R → R) (same : (r : R) → key (f r) ≡ key r) where
    pub find_by-update_ne :
        (k j : ℕ) (rs : List R) → (j == k) ≡ false → find_by j (update_by k f rs) ≡ find_by j rs
    unfolding find_by update_by
    find_by-update_ne k j [] h = refl
    find_by-update_ne k j (r ∷ rs) h = ground (arith, same r, find_by-update_ne k j rs)

    pub find_by-update_self :
        (k : ℕ) (rs : List R) (r : R)
        → find_by k rs ≡ some r
        → find_by k (update_by k f rs) ≡ some (f r)
    unfolding find_by update_by
    find_by-update_self k [] r h = ground arith
    find_by-update_self k (x ∷ rs) r h = ground (arith, same x, find_by-update_self k rs r)

    pub find_by-update_none :
        (k j : ℕ) (rs : List R) → find_by j rs ≡ none → find_by j (update_by k f rs) ≡ none
    unfolding find_by update_by
    find_by-update_none k j [] h = refl
    find_by-update_none k j (r ∷ rs) h = ground (arith, same r, find_by-update_none k j rs)

    pub update_by-IsKeyed : (k : ℕ) (rs : List R) → IsKeyed rs → IsKeyed (update_by k f rs)
    unfolding update_by
    update_by-IsKeyed k [] h = h
    update_by-IsKeyed k (r ∷ rs) h = elim (Bool-cases (key r == k)) [
      | inl e ↦ rw (e, same r) (find_by-update_none k (key r) rs h.0, update_by-IsKeyed k rs h.1)
      | inr e ↦ rw e (find_by-update_none k (key r) rs h.0, update_by-IsKeyed k rs h.1)
    ]
