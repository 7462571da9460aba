-- ===== src/Topology/Laws.antt =====
-- The tree answers, and deletes, as ZooKeeper does.
use rpc_proxy.Prelude.{
  ℕ, ◌≡◌, ◌≢◌, refl, sym, ap, ap₂, ◌∙◌, true, false, none, some, List, [], ◌∷◌, arith, Option-cases,
  Bool-cases, inl, inr,
}
use rpc_proxy.Topology.{ZkPath, no_node, node_exists}
use rpc_proxy.Topology.Creating.{Answers}
use rpc_proxy.Topology.Registering.{Deletes}
use rpc_proxy.Topology.Tree.{
  Tree, tree, same_path, below, not_same, data_of, where_parent, get, cleared, placed, create,
  on_node, same_path_refl, same_path→eq, other_path, below→Below, not_below, Below-length, agree,
  gone_with_parent, no_data, own_cleared,
}

on_node_absent : (p : ZkPath) (w w' : Tree) → get p w ≡ none → on_node p w w' ≡ (w, some no_node)
on_node_absent p w w' h = rw (h, on_node) refl

on_node_there :
    (p : ZkPath) (d : List ℕ) (w w' : Tree) → get p w ≡ some d → on_node p w w' ≡ (w', none)
on_node_there p d w w' h = rw (h, on_node) refl

pub tree-Deletes : Deletes tree
tree-Deletes = record {
  found = λ p w. refl;
  delete_absent = λ p w h. on_node_absent p w (cleared p w) h;
  delete_below = λ n p d w h. (
    cleared (n ∷ p) w,
    on_node_there (n ∷ p) d w (cleared (n ∷ p) w) h,
    own_cleared n p w,
    λ q other.
        agree (n ∷ p) w (cleared (n ∷ p) w) (λ q out. rw out refl) q (not_below (n ∷ p) q other),
  );
}

-- After Create at n ∷ p
grown : List ℕ → ZkPath → List ℕ → Tree → Tree
grown n p v w = placed (n ∷ p) v (cleared (n ∷ p) w)

grown-agree :
    (n : List ℕ) (p : ZkPath) (v : List ℕ) (w : Tree) (q : ZkPath)
    → below (n ∷ p) q ≡ false
    → get q (grown n p v w) ≡ get q w
unfolding grown
grown-agree n p v w = agree (n ∷ p) w (grown n p v w) λ q out. rw (not_same (n ∷ p) q out, out) refl

grown-there :
    (n : List ℕ) (p : ZkPath) (v d : List ℕ) (w : Tree)
    → get p w ≡ some d
    → get (n ∷ p) (grown n p v w) ≡ some v
unfolding grown
grown-there n p v d w here =
    let up : get p (grown n p v w) ≡ some d =
      grown-agree n p v w p (not_below (n ∷ p) p (λ b. omega (arith, Below-length (n ∷ p) p b)))
      ∙ here in
    let own : grown n p v w (n ∷ p) ≡ some v = rw (same_path_refl (n ∷ p)) refl in
    ap₂ where_parent up own

entry_gone :
    (p q : ZkPath) (v : List ℕ) (w : Tree)
    → same_path p q ≡ false
    → below p q ≡ true
    → placed p v (cleared p w) q ≡ none
entry_gone p q v w apart b = rw (apart, b) refl

grown-OnlyAt :
    (n : List ℕ) (p : ZkPath) (v : List ℕ) (w : Tree)
    → get (n ∷ p) w ≡ none
    → (q : ZkPath) → q ≢ (n ∷ p)
    → get q (grown n p v w) ≡ get q w
unfolding grown
grown-OnlyAt n p v w absent [] other = grown-agree n p v w [] refl
grown-OnlyAt n p v w absent (m ∷ q) other = elim (Bool-cases (below (n ∷ p) (m ∷ q))) [
  | inr out ↦ grown-agree n p v w (m ∷ q) out
  | inl b ↦
      let gone : grown n p v w (m ∷ q) ≡ none =
        entry_gone (n ∷ p) (m ∷ q) v w (other_path (n ∷ p) (m ∷ q) other) b in
      ap (where_parent (get q (grown n p v w))) gone
      ∙ no_data (get q (grown n p v w))
      ∙ sym (gone_with_parent (n ∷ p) (m ∷ q) w absent (below→Below (n ∷ p) (m ∷ q) b))
]

tree_parents :
    (n : List ℕ) (p : ZkPath) (d : List ℕ) (w : Tree)
    → get (n ∷ p) w ≡ some d
    → (e : List ℕ) × (get p w ≡ some e)
tree_parents n p d w h = elim (Option-cases (get p w)) [
  | inl missing ↦ absurd (ground (arith, h, missing))
  | inr up ↦ up
]

-- Set removes no node.
placed_some :
    (p : ZkPath) (v : List ℕ) (w : Tree) (q : ZkPath) (e : List ℕ)
    → get q w ≡ some e
    → (e' : List ℕ) × (get q (placed p v w) ≡ some e')
placed_some p v w [] e h = (_, refl)
placed_some p v w (n ∷ q) e h =
    let (u, up) = tree_parents n q e w h in
    let (u', up') = placed_some p v w q u up in
    let own : w (n ∷ q) ≡ some e = ground (arith, up, h) in
    elim (Bool-cases (same_path p (n ∷ q))) [
      | inl same ↦ (v, ground (arith, up', same))
      | inr apart ↦ (e, ground (arith, up', apart, own))
    ]

placed-there :
    (p : ZkPath) (v d : List ℕ) (w : Tree) → get p w ≡ some d → get p (placed p v w) ≡ some v
placed-there [] v d w h = refl
placed-there (n ∷ p) v d w h =
    let (u, up) = tree_parents n p d w h in
    let (u', up') = placed_some (n ∷ p) v w p u up in
    let own : placed (n ∷ p) v w (n ∷ p) ≡ some v = rw (same_path_refl (n ∷ p)) refl in
    ap₂ where_parent up' own

placed-OnlyAt :
    (p : ZkPath) (v d : List ℕ) (w : Tree)
    → get p w ≡ some d
    → (q : ZkPath) → q ≢ p
    → get q (placed p v w) ≡ get q w
placed-OnlyAt p v d w here [] other =
    let own : placed p v w [] ≡ w [] = rw (other_path p [] other) refl in
    ap (λ x. some (data_of x)) own
placed-OnlyAt p v d w here (n ∷ q) other =
    let own : placed p v w (n ∷ q) ≡ w (n ∷ q) = rw (other_path p (n ∷ q) other) refl in
    elim (Bool-cases (same_path p q)) [
      | inl same ↦
          let at_q : get q w ≡ some d = ap (λ x. get x w) (sym (same_path→eq p q same)) ∙ here in
          let (u, up) = placed_some p v w q d at_q in
          ap₂ where_parent up own ∙ sym (ap (λ x. where_parent x (w (n ∷ q))) at_q)
      | inr apart ↦
          ap₂ where_parent
            (placed-OnlyAt p v d w here q
              (λ e. ground (arith, apart, same_path_refl p, ap (same_path p) e)))
            own
    ]

orphan :
    (n : List ℕ) (p : ZkPath) (v : List ℕ) (f : ℕ) (w : Tree)
    → get p w ≡ none
    → create (n ∷ p) v f w ≡ (w, some no_node)
orphan n p v f w missing = rw (missing, create) refl

taken :
    (p : ZkPath) (v d : List ℕ) (f : ℕ) (w : Tree)
    → get p w ≡ some d
    → create p v f w ≡ (w, some node_exists)
taken [] v d f w h = refl
taken (n ∷ p) v d f w h = let (u, up) = tree_parents n p d w h in rw (up, h, create) refl

made :
    (n : List ℕ) (p : ZkPath) (v d : List ℕ) (f : ℕ) (w : Tree)
    → get p w ≡ some d
    → get (n ∷ p) w ≡ none
    → create (n ∷ p) v f w ≡ (grown n p v w, none)
unfolding grown
made n p v d f w up absent = rw (up, absent, create) refl

pub tree-Answers : Answers tree
tree-Answers = record {
  root = λ w. (_, refl);
  parents = tree_parents;
  orphan = orphan;
  taken = taken;
  made = λ n p v d f w up absent. (
    grown n p v w,
    made n p v d f w up absent,
    grown-there n p v d w up,
    grown-OnlyAt n p v w absent,
  );
  set_there = λ p v d w here. (
    placed p v w,
    on_node_there p d w (placed p v w) here,
    placed-there p v d w here,
    placed-OnlyAt p v d w here,
  );
}
