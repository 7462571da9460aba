-- ===== src/Request/Names.antt =====
-- The service in front of a method's name, and bytes that are written over others.
use rpc_proxy.Prelude.{
  ℕ, zero, suc, ◌≡◌, ◌≢◌, refl, ap, none, some, List, [], ◌∷◌, ◌++◌, length, arith,
}
use rpc_proxy.Thrift.{multiplexed_separator}
use rpc_proxy.Request.{split_name, overwrite}

-- A service's name has no separator in it.
abbrev pub IsService : List ℕ → Type 0
IsService [] = Unit {0}
IsService (c ∷ cs) = (c ≢ multiplexed_separator) × IsService cs

abbrev pub full_name : List ℕ → List ℕ → List ℕ
full_name service name = service ++ multiplexed_separator ∷ name

-- A name is split at its first separator.
pub split_name-full_name :
    (service name : List ℕ)
    → IsService service
    → split_name (full_name service name) ≡ some (service, name)
unfolding split_name
split_name-full_name [] name h = refl
split_name-full_name (c ∷ cs) name h = ground (arith, split_name-full_name cs name h.1)

pub split_name-none : (name : List ℕ) → IsService name → split_name name ≡ none
unfolding split_name
split_name-none [] h = refl
split_name-none (c ∷ cs) h = ground (arith, split_name-none cs h.1)

overwrite_front :
    (xs ys rest : List ℕ) → length xs ≡ length ys → overwrite 0 xs (ys ++ rest) ≡ xs ++ rest
unfolding overwrite
overwrite_front [] [] [] h = refl
overwrite_front [] [] (r ∷ rest) h = refl
overwrite_front [] (y ∷ ys) rest h = absurd (omega arith)
overwrite_front (x ∷ xs) [] rest h = absurd (omega arith)
overwrite_front (x ∷ xs) (y ∷ ys) rest h = ap (◌∷◌ x) (overwrite_front xs ys rest (omega arith))

-- As many bytes as are written are lost, and the others stay.
pub overwrite-append :
    (i : ℕ) (before xs ys rest : List ℕ)
    → length before ≡ i
    → length xs ≡ length ys
    → overwrite i xs (before ++ (ys ++ rest)) ≡ before ++ (xs ++ rest)
unfolding overwrite
overwrite-append zero [] xs ys rest e h = overwrite_front xs ys rest h
overwrite-append zero (b ∷ before) xs ys rest e h = absurd (omega arith)
overwrite-append (suc i) [] xs ys rest e h = absurd (omega arith)
overwrite-append (suc i) (b ∷ before) xs ys rest e h =
    ap (◌∷◌ b) (overwrite-append i before xs ys rest (omega arith) h)

pub overwrite_zero :
    (xs ys rest : List ℕ) → length xs ≡ length ys → overwrite 0 xs (ys ++ rest) ≡ xs ++ rest
overwrite_zero xs ys rest h = overwrite_front xs ys rest h

pub length-overwrite : (i : ℕ) (xs d : List ℕ) → length (overwrite i xs d) ≡ length d
unfolding overwrite
length-overwrite i xs [] = refl
length-overwrite (suc i) xs (y ∷ ys) = ap suc (length-overwrite i xs ys)
length-overwrite zero [] (y ∷ ys) = refl
length-overwrite zero (x ∷ xs) (y ∷ ys) = ap suc (length-overwrite zero xs ys)
