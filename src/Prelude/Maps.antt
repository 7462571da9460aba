-- ===== src/Prelude/Maps.antt =====
-- Memory cells named by numbers, and Go's maps with integer keys as association lists.
use Prim.Native.Nat.{ℕ}
use mathlib.Core.Path.{◌≡◌, refl}
use mathlib.Core.Logic.{◌≢◌}
use mathlib.Core.List.{List, [], ◌∷◌}
use mathlib.Core.Option.{Option, none, some}
use native.Mathlib.Omega.{arith}
use rpc_proxy.Prelude.Tests.{◌==◌, if◌then◌else◌}

-- Objects behind pointers: a store gives the value at each address.
module _ {ℓ} {A : Type ℓ} where
  abbrev pub update : (ℕ → A) → ℕ → A → ℕ → A
  update f k v j = if k == j then v else f j

  pub update_self : (f : ℕ → A) (k : ℕ) (v : A) → update f k v k ≡ v
  update_self f k v = ground arith

  pub update_ne : (f : ℕ → A) (k j : ℕ) (v : A) → k ≢ j → update f k v j ≡ f j
  update_ne f k j v h = ground arith

  -- m[k] with the comma-ok form.
  unfoldable pub lookup : ℕ → List (ℕ × A) → Option A
  lookup k [] = none
  lookup k ((j, v) ∷ m) = if j == k then some v else lookup k m

  -- delete(m, k)
  unfoldable pub erase : ℕ → List (ℕ × A) → List (ℕ × A)
  erase k [] = []
  erase k ((j, v) ∷ m) = let rest = erase k m in if j == k then rest else (j, v) ∷ rest

  -- m[k] = v
  unfoldable pub insert : ℕ → A → List (ℕ × A) → List (ℕ × A)
  insert k v m = (k, v) ∷ erase k m

  pub lookup-erase :
      (k j : ℕ) (m : List (ℕ × A)) → lookup j (erase k m) ≡ (if k == j then none else lookup j m)
  unfolding lookup erase
  lookup-erase k j [] = ground arith
  lookup-erase k j ((i, v) ∷ m) = ground (arith, lookup-erase k j m)

  pub lookup-insert :
      (k j : ℕ) (v : A) (m : List (ℕ × A))
      → lookup j (insert k v m) ≡ (if k == j then some v else lookup j m)
  unfolding insert lookup
  lookup-insert k j v m = ground (arith, lookup-erase k j m)

pub lookup-nil {ℓ} : {A : Type ℓ} (k : ℕ) → lookup {A = A} k [] ≡ none
unfolding lookup
lookup-nil k = refl

pub ruleset map_laws = (lookup-nil, lookup-erase, lookup-insert)
