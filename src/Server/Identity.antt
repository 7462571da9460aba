-- ===== src/Server/Identity.antt =====
-- What the identity of a server looks like.
use rpc_proxy.Prelude.{
  ℕ, zero, suc, ◌-◌, ◌≤◌, ◌≡◌, ◌≢◌, refl, List, [], ◌∷◌, ◌++◌, arith, length, drop, length-drop,
  ltb, Bool-cases, inl, inr,
}
use rpc_proxy.Server.{replace_all, plain_identity, get_service_identity}

-- No byte of the list is c.
abbrev pub Free : ℕ → List ℕ → Type 0
Free c [] = Unit {0}
Free c (x ∷ xs) = (x ≢ c) × Free c xs

Free-append : (c : ℕ) (xs ys : List ℕ) → Free c xs → Free c ys → Free c (xs ++ ys)
Free-append c [] ys f g = g
Free-append c (x ∷ xs) ys f g = (f.0, Free-append c xs ys f.1 g)

Free-drop : (c n : ℕ) (xs : List ℕ) → Free c xs → Free c (drop n xs)
Free-drop c zero xs f = f
Free-drop c (suc n) [] f = f
Free-drop c (suc n) (x ∷ xs) f = Free-drop c n xs f.1

replace_all-Free : (old : ℕ) (by xs : List ℕ) → Free old by → Free old (replace_all old by xs)
replace_all-Free old by [] f = tt
replace_all-Free old by (x ∷ xs) f =
    ground (arith, replace_all-Free old by xs f, Free-append old by (replace_all old by xs) f)

replace_all_keeps :
    (c old : ℕ) (by xs : List ℕ) → Free c by → Free c xs → Free c (replace_all old by xs)
replace_all_keeps c old by [] f g = tt
replace_all_keeps c old by (x ∷ xs) f g =
    ground
      (arith, g.0, replace_all_keeps c old by xs f g.1, Free-append c by (replace_all old by xs) f)

replace_all_absent : (old : ℕ) (by xs : List ℕ) → Free old xs → replace_all old by xs ≡ xs
replace_all_absent old by [] f = refl
replace_all_absent old by (x ∷ xs) f = ground (arith, f.0, replace_all_absent old by xs f.1)

-- What is kept by ZooKeeper as a name: no dot, no colon, no slash.
abbrev pub Clean : List ℕ → Type 0
Clean xs = Free b'.' xs × Free b':' xs × Free b'/' xs

plain_identity-Clean : (a : List ℕ) → Clean (plain_identity a)
plain_identity-Clean a =
    let line = b'_' ∷ [] in
    let dots = replace_all b'.' line a in
    let colons = replace_all b':' line dots in
    (
      replace_all_keeps b'.' b'/' [] colons tt (
          replace_all_keeps b'.' b':' line dots (omega arith, tt)
            (replace_all-Free b'.' line a (omega arith, tt))),
      replace_all_keeps b':' b'/' [] colons tt (replace_all-Free b':' line dots (omega arith, tt)),
      replace_all-Free b'/' [] colons tt,
    )

trimmed : (a : List ℕ) → Clean (get_service_identity a) × (length (get_service_identity a) ≤ 20)
unfolding get_service_identity
trimmed a =
    let fid = plain_identity a in
    let (d, c, s) = plain_identity-Clean a in
    let n = length fid - 20 in
    elim (Bool-cases (ltb 20 (length fid))) [
      | inl long ↦ (
        rw long (Free-drop b'.' n fid d, Free-drop b':' n fid c, Free-drop b'/' n fid s),
        rw long (omega (arith, length-drop n fid)),
      )
      | inr fits ↦ (rw fits (d, c, s), ground (arith, fits))
    ]

unchanged : (a : List ℕ) → Clean a → length a ≤ 20 → get_service_identity a ≡ a
unfolding get_service_identity
unchanged a (d, c, s) short =
    let no_dots = replace_all_absent b'.' (b'_' ∷ []) a d in
    let no_colons = replace_all_absent b':' (b'_' ∷ []) a c in
    let plain : plain_identity a ≡ a = rw (no_dots, no_colons) (replace_all_absent b'/' [] a s) in
    ground (arith, plain, short)

-- The identity of a server at any address has at most 20 bytes and none of the three that it
-- replaces: it can stand as a name in a path. It is its own identity: taking it twice changes nothing.
pub get_service_identity-Clean :
    (a : List ℕ)
    → Clean (get_service_identity a)
      × (length (get_service_identity a) ≤ 20)
      × (get_service_identity (get_service_identity a) ≡ get_service_identity a)
get_service_identity-Clean a =
    let (clean, short) = trimmed a in (clean, short, unchanged (get_service_identity a) clean short)
