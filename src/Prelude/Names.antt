-- ===== src/Prelude/Names.antt =====
-- Go's maps with string keys as association lists; a string is its bytes.
use Prim.Native.Nat.{ℕ}
use mathlib.Core.Path.{◌≡◌, ap}
use mathlib.Core.Logic.{inl, inr}
use mathlib.Core.Bool.{true}
use mathlib.Core.List.{List, [], ◌∷◌}
use mathlib.Core.Option.{Option, none, some}
use native.Mathlib.Omega.{arith}
use rpc_proxy.Prelude.Tests.{bytes_eq, bytes_eq→eq, if◌then◌else◌, Bool-cases}

module _ {ℓ} {A : Type ℓ} where
  -- m[name] with the comma-ok form
  unfoldable pub find : List ℕ → List (List ℕ × A) → Option A
  find name [] = none
  find name ((k, b) ∷ m) = if bytes_eq k name then some b else find name m

  -- delete(m, name)
  unfoldable pub remove : List ℕ → List (List ℕ × A) → List (List ℕ × A)
  remove name [] = []
  remove name ((k, b) ∷ m) =
      let rest = remove name m in if bytes_eq k name then rest else (k, b) ∷ rest

  -- m[name] = b
  unfoldable pub put : List ℕ → A → List (List ℕ × A) → List (List ℕ × A)
  put name b m = (name, b) ∷ remove name m

  pub same_find :
      (k name : List ℕ) (m : List (List ℕ × A)) → bytes_eq k name ≡ true → find k m ≡ find name m
  same_find k name m h = ap (λ n. find n m) (bytes_eq→eq k name h)

  pub find-remove :
      (k name : List ℕ) (m : List (List ℕ × A))
      → find name (remove k m) ≡ (if bytes_eq k name then none else find name m)
  unfolding find remove
  find-remove k name [] = ground arith
  find-remove k name ((j, b) ∷ m) = elim (Bool-cases (bytes_eq j k)) [
    | inl same ↦
        ground (arith, find-remove k name m, ap (λ n. bytes_eq n name) (bytes_eq→eq j k same))
    | inr other ↦ elim (Bool-cases (bytes_eq k name)) [
      | inl here ↦
          ground (arith, find-remove k name m, ap (λ n. bytes_eq j n) (bytes_eq→eq k name here))
      | inr there ↦ ground (arith, find-remove k name m)
    ]
  ]

  pub find-put :
      (k name : List ℕ) (b : A) (m : List (List ℕ × A))
      → find name (put k b m) ≡ (if bytes_eq k name then some b else find name m)
  unfolding find put
  find-put k name b m = ground (arith, find-remove k name m)
