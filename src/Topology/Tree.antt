-- ===== src/Topology/Tree.antt =====
-- A tree of nodes that answers as ZooKeeper does: a node is there where it and all above it are kept.
use rpc_proxy.Prelude.{
  ℕ, suc, ◌<◌, ◌≡◌, ◌≢◌, refl, sym, ap, ap₂, ◌∙◌, Bool, true, false, ◌&&◌, ◌||◌, Option, none, some,
  List, [], ◌∷◌, arith, length, Bool-cases, inl, inr, bytes_eq, bytes_eq_refl, bytes_eq→eq,
  if◌then◌else◌,
}
use rpc_proxy.Topology.{ZkPath, ZkError, no_node, node_exists, ZkConn}
use rpc_proxy.Topology.Registering.{Below, is_some}

abbrev pub Tree : Type 0
Tree = ZkPath → Option (List ℕ)

abbrev pub same_path : ZkPath → ZkPath → Bool
same_path [] [] = true
same_path [] (n ∷ q) = false
same_path (m ∷ p) [] = false
same_path (m ∷ p) (n ∷ q) = bytes_eq m n && same_path p q

abbrev pub below : ZkPath → ZkPath → Bool
below p [] = same_path p []
below p (n ∷ q) = same_path p (n ∷ q) || below p q

pub same_path_refl : (p : ZkPath) → same_path p p ≡ true
same_path_refl [] = refl
same_path_refl (n ∷ p) = ground (arith, bytes_eq_refl n, same_path_refl p)

pub same_path→eq : (p q : ZkPath) → same_path p q ≡ true → p ≡ q
same_path→eq [] [] h = refl
same_path→eq [] (n ∷ q) h = ground (arith, h)
same_path→eq (m ∷ p) [] h = ground (arith, h)
same_path→eq (m ∷ p) (n ∷ q) h =
    let first : bytes_eq m n ≡ true = ground (arith, h) in
    let rest : same_path p q ≡ true = ground (arith, h) in
    ap₂ (λ (x : List ℕ) (y : ZkPath). x ∷ y) (bytes_eq→eq m n first) (same_path→eq p q rest)

pub other_path : (p q : ZkPath) → q ≢ p → same_path p q ≡ false
other_path p q h = elim (Bool-cases (same_path p q)) [
  | inl same ↦ absurd (h (sym (same_path→eq p q same)))
  | inr apart ↦ apart
]

pub below→Below : (p q : ZkPath) → below p q ≡ true → Below p q
below→Below p [] h = same_path→eq p [] h
below→Below p (n ∷ q) h = elim (Bool-cases (same_path p (n ∷ q))) [
  | inl same ↦ inl (same_path→eq p (n ∷ q) same)
  | inr apart ↦ inr (below→Below p q (ground (arith, h, apart)))
]

pub not_below : (p q : ZkPath) → ¬ (Below p q) → below p q ≡ false
not_below p q h = elim (Bool-cases (below p q)) [
  | inl b ↦ absurd (h (below→Below p q b))
  | inr apart ↦ apart
]

-- A path is not below a longer one.
pub Below-length : (p q : ZkPath) → Below p q → length p < suc (length q)
Below-length p [] h = omega (arith, ap length h)
Below-length p (n ∷ q) (inl e) = omega (arith, ap length e)
Below-length p (n ∷ q) (inr b) = omega (arith, Below-length p q b)

abbrev pub data_of : Option (List ℕ) → List ℕ
data_of none = []
data_of (some d) = d

abbrev pub where_parent : Option (List ℕ) → Option (List ℕ) → Option (List ℕ)
where_parent none d = none
where_parent (some _) d = d

abbrev pub get : ZkPath → Tree → Option (List ℕ)
get [] w = some (data_of (w []))
get (n ∷ p) w = where_parent (get p w) (w (n ∷ p))

abbrev pub cleared : ZkPath → Tree → Tree
cleared p w q = if below p q then none else w q

abbrev pub placed : ZkPath → List ℕ → Tree → Tree
placed p v w q = if same_path p q then some v else w q

abbrev pub create : ZkPath → List ℕ → ℕ → Tree → Tree × Option ZkError
create [] v f w = (w, some node_exists)
create (n ∷ p) v f w = elim (get p w) [
  | none ↦ (w, some no_node)
  | some _ ↦ elim (get (n ∷ p) w) [
    | some _ ↦ (w, some node_exists)
    | none ↦ (placed (n ∷ p) v (cleared (n ∷ p) w), none)
  ]
]

-- An operation on a node that has to be there.
abbrev pub on_node : ZkPath → Tree → Tree → Tree × Option ZkError
on_node p w w' = elim (get p w) [ none ↦ (w, some no_node) | some _ ↦ (w', none) ]

abbrev pub tree : ZkConn Tree
tree = record {
  get = get;
  exists = λ p w. is_some (get p w);
  create = create;
  set = λ p v w. on_node p w (placed p v w);
  delete = λ p w. on_node p w (cleared p w);
  delete_recursive = λ p w. on_node p w (cleared p w);
  flag_ephemeral = 1;
}

pub not_same : (p q : ZkPath) → below p q ≡ false → same_path p q ≡ false
not_same p [] h = h
not_same p (n ∷ q) h = ground (arith, h)

pub agree :
    (p : ZkPath) (w w' : Tree)
    → ((q : ZkPath) → below p q ≡ false → w' q ≡ w q)
    → (q : ZkPath) → below p q ≡ false
    → get q w' ≡ get q w
agree p w w' h [] out = ap (λ x. some (data_of x)) (h [] out)
agree p w w' h (n ∷ q) out =
    let above : below p q ≡ false = ground (arith, out) in
    ap₂ where_parent (agree p w w' h q above) (h (n ∷ q) out)

pub gone_with_parent : (p q : ZkPath) (w : Tree) → get p w ≡ none → Below p q → get q w ≡ none
gone_with_parent p [] w h b = ap (λ x. get x w) (sym b) ∙ h
gone_with_parent p (n ∷ q) w h (inl e) = ap (λ x. get x w) (sym e) ∙ h
gone_with_parent p (n ∷ q) w h (inr b) =
    ap (λ x. where_parent x (w (n ∷ q))) (gone_with_parent p q w h b)

pub no_data : (o : Option (List ℕ)) → where_parent o none ≡ none
no_data none = refl
no_data (some _) = refl

pub own_cleared : (n : List ℕ) (p : ZkPath) (w : Tree) → get (n ∷ p) (cleared (n ∷ p) w) ≡ none
own_cleared n p w =
    let out : cleared (n ∷ p) w (n ∷ p) ≡ none = ground (arith, same_path_refl (n ∷ p)) in
    ap (where_parent (get p (cleared (n ∷ p) w))) out ∙ no_data (get p (cleared (n ∷ p) w))
