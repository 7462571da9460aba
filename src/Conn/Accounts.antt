-- ===== src/Conn/Accounts.antt =====
-- Who waits for an answer: the counter of each request's WaitGroup is the number of its places in the
-- queue and in the table.
use rpc_proxy.Prelude.{
  ℕ, suc, ◌+◌, ◌≡◌, refl, none, some, List, [], ◌∷◌, ◌++◌, arith, ◌==◌, if◌then◌else◌, lookup,
  erase, insert, lookup-erase,
}
use rpc_proxy.Conn.{Conn}

abbrev pub count : ℕ → List ℕ → ℕ
count r [] = 0
count r (x ∷ xs) = let rest = count r xs in if x == r then suc rest else rest

abbrev pub count_values : ℕ → List (ℕ × ℕ) → ℕ
count_values r [] = 0
count_values r ((k, x) ∷ m) = let rest = count_values r m in if x == r then suc rest else rest

-- Each key stands once, as in a Go map.
abbrev pub UniqueKeys : List (ℕ × ℕ) → Type 0
UniqueKeys [] = Unit {0}
UniqueKeys ((k, x) ∷ m) = (lookup k m ≡ none) × UniqueKeys m

pub count-append : (r x : ℕ) (xs : List ℕ) → count r (xs ++ x ∷ []) ≡ count r (x ∷ xs)
count-append r x [] = refl
count-append r x (y ∷ ys) = ground (arith, count-append r x ys)

pub count-++ : (r : ℕ) (xs ys : List ℕ) → count r (xs ++ ys) ≡ count r xs + count r ys
count-++ r [] ys = omega arith
count-++ r (x ∷ xs) ys = ground (arith, count-++ r xs ys)

pub erase-UniqueKeys : (k : ℕ) (m : List (ℕ × ℕ)) → UniqueKeys m → UniqueKeys (erase k m)
unfolding erase
erase-UniqueKeys k [] u = tt
erase-UniqueKeys k ((j, x) ∷ m) u = ground (arith, erase-UniqueKeys k m u.1, lookup-erase k j m)

pub erase_absent :
    (k r : ℕ) (m : List (ℕ × ℕ)) → lookup k m ≡ none → count_values r (erase k m) ≡ count_values r m
unfolding erase lookup
erase_absent k r [] h = refl
erase_absent k r ((j, x) ∷ m) h = ground (arith, erase_absent k r m)

-- Deleting an entry takes one place away from its request.
pub erase_present :
    (k v r : ℕ) (m : List (ℕ × ℕ))
    → UniqueKeys m
    → lookup k m ≡ some v
    → count_values r m
      ≡ (if v == r then suc (count_values r (erase k m)) else count_values r (erase k m))
unfolding erase lookup
erase_present k v r [] u h = cc
erase_present k v r ((j, x) ∷ m) u h = ground (arith, erase_present k v r m u.1, erase_absent k r m)

pub insert_fresh :
    (k v r : ℕ) (m : List (ℕ × ℕ))
    → lookup k m ≡ none
    → count_values r (insert k v m) ≡ count r (v ∷ []) + count_values r m
unfolding insert
insert_fresh k v r m h = ground (arith, erase_absent k r m)

pub insert-UniqueKeys : (k v : ℕ) (m : List (ℕ × ℕ)) → UniqueKeys m → UniqueKeys (insert k v m)
unfolding insert
insert-UniqueKeys k v m u = ground (arith, lookup-erase k k m, erase-UniqueKeys k m u)

module _ {W : Type 0} where
  -- Where a request stands: with the goroutine that handles it, in the queue, or in the table.
  abbrev pub places : List ℕ → Conn W → ℕ → ℕ
  places hand s r = count r hand + count r s.input + count_values r s.pending

  pub record Accounts (hand : List ℕ) (s : Conn W) : Type 0 where
    pub keys : UniqueKeys s.pending
    pub waits : (r n : ℕ) → (s.requests r).wait ≡ some n → n ≡ places hand s r

-- The requests of a table.
abbrev pub values : List (ℕ × ℕ) → List ℕ
values [] = []
values ((k, r) ∷ m) = r ∷ values m

pub count-values : (r : ℕ) (m : List (ℕ × ℕ)) → count r (values m) ≡ count_values r m
count-values r [] = refl
count-values r ((k, x) ∷ m) = ground (arith, count-values r m)
