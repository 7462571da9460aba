-- ===== src/Topology/Creating.antt =====
-- CreateRecursive and CreateOrUpdate on a ZooKeeper that answers.
use rpc_proxy.Prelude.{
  ℕ, ◌<◌, ◌≡◌, ◌≢◌, refl, sym, ap, ◌∙◌, true, none, some, List, [], ◌∷◌, arith, length,
  Option-cases, inl, inr, bytes_eq,
}
use rpc_proxy.Topology.{
  ZkPath, no_node, node_exists, ZkConn, magic_prefix, outermost, create_recursive, create_or_update,
  parent_created, updated,
}

-- A step of the tree that leaves all nodes but the one at p as they are.
abbrev pub OnlyAt : {W : Type 0} → ZkConn W → ZkPath → W → W → Type 0
OnlyAt k p w w' = (q : ZkPath) → q ≢ p → k.get q w' ≡ k.get q w

-- What ZooKeeper documents of a tree that answers: "/" is there, and a node only below its parent;
-- Create makes a node below one that is there, and says so where it cannot; Set, Delete of a leaf and
-- the recursive deletion do what they say.
pub record Answers {W : Type 0} (k : ZkConn W) : Type 0 where
  pub root : (w : W) → (d : List ℕ) × (k.get [] w ≡ some d)
  pub parents :
      (n : List ℕ) (p : ZkPath) (d : List ℕ) (w : W)
      → k.get (n ∷ p) w ≡ some d
      → (e : List ℕ) × (k.get p w ≡ some e)
  pub orphan :
      (n : List ℕ) (p : ZkPath) (v : List ℕ) (f : ℕ) (w : W)
      → k.get p w ≡ none
      → k.create (n ∷ p) v f w ≡ (w, some no_node)
  pub taken :
      (p : ZkPath) (v d : List ℕ) (f : ℕ) (w : W)
      → k.get p w ≡ some d
      → k.create p v f w ≡ (w, some node_exists)
  pub made :
      (n : List ℕ) (p : ZkPath) (v d : List ℕ) (f : ℕ) (w : W)
      → k.get p w ≡ some d
      → k.get (n ∷ p) w ≡ none
      → (w' : W) × (k.create (n ∷ p) v f w ≡ (w', none))
        × (k.get (n ∷ p) w' ≡ some v)
        × OnlyAt k (n ∷ p) w w'
  pub set_there :
      (p : ZkPath) (v d : List ℕ) (w : W)
      → k.get p w ≡ some d
      → (w' : W) × (k.set p v w ≡ (w', none)) × (k.get p w' ≡ some v) × OnlyAt k p w w'

module _ {W : Type 0} (k : ZkConn W) where
  open k use {get, create, set}

  -- What CreateRecursive has done: the node is there, nothing that was there is lost, and nothing
  -- deeper has changed.
  pub record Made (p : ZkPath) (v : List ℕ) (w w' : W) : Type 0 where
    pub there : get p w' ≡ some v
    pub kept : (q : ZkPath) (d : List ℕ) → get q w ≡ some d → get q w' ≡ some d
    pub deeper : (q : ZkPath) → length p < length q → get q w' ≡ get q w

  absent_there : (q p : ZkPath) (d : List ℕ) (w : W) → get p w ≡ none → get q w ≡ some d → q ≢ p
  absent_there q p d w absent h e = absurd (ground (arith, absent, sym (ap (λ x. get x w) e) ∙ h))

  -- A Create on its own
  one-Made :
      (n : List ℕ) (p : ZkPath) (v : List ℕ) (w w' : W)
      → get (n ∷ p) w ≡ none
      → get (n ∷ p) w' ≡ some v
      → OnlyAt k (n ∷ p) w w'
      → Made (n ∷ p) v w w'
  one-Made n p v w w' absent there only = record {
    there = there;
    kept = λ q d h. only q (λ e. absent_there q (n ∷ p) d w absent h e) ∙ h;
    deeper = λ q longer. only q λ e. omega (arith, ap length e, longer);
  }

  Made-trans :
      (n : List ℕ) (p : ZkPath) (v u : List ℕ) (w w' w'' : W)
      → Made p u w w'
      → Made (n ∷ p) v w' w''
      → Made (n ∷ p) v w w''
  Made-trans n p v u w w' w'' a b = record {
    there = b.there;
    kept = λ q d h. b.kept q d (a.kept q d h);
    deeper = λ q longer. b.deeper q longer ∙ a.deeper q (omega (arith, longer));
  }

  guard : (p : ZkPath) → outermost p ≡ magic_prefix → bytes_eq (outermost p) magic_prefix ≡ true
  guard p e = ap (λ x. bytes_eq x magic_prefix) e

  below_there :
      (n : List ℕ) (p : ZkPath) (v d : List ℕ) (f : ℕ) (w : W)
      → Answers k
      → outermost (n ∷ p) ≡ magic_prefix
      → get (n ∷ p) w ≡ none
      → get p w ≡ some d
      → (w' : W) × (create_recursive k (n ∷ p) v f w ≡ (w', none)) × Made (n ∷ p) v w w'
  unfolding create_recursive
  below_there n p v d f w z zk absent here =
      let (w', go, there, only) = z.made n p v d f w here absent in
      (w', rw (guard (n ∷ p) zk, go, create_recursive) refl, one-Made n p v w w' absent there only)

  orphaned :
      (n : List ℕ) (p : ZkPath) (v : List ℕ) (f : ℕ) (w : W)
      → outermost (n ∷ p) ≡ magic_prefix
      → create (n ∷ p) v f w ≡ (w, some no_node)
      → create_recursive k (n ∷ p) v f w
        ≡ parent_created k (n ∷ p) v f (create_recursive k p [] 0 w)
  unfolding create_recursive
  orphaned n p v f w zk go = rw (guard (n ∷ p) zk, go) refl

  -- CreateRecursive at a path under "/zk" where no node is, on a ZooKeeper that answers: it succeeds,
  -- the node is there afterwards with its data, its parents are there too, no node that was there is
  -- lost or changed, and nothing deeper has changed.
  pub create_recursive-Made :
      (n : List ℕ) (p : ZkPath) (v : List ℕ) (f : ℕ) (w : W)
      → Answers k
      → outermost (n ∷ p) ≡ magic_prefix
      → get (n ∷ p) w ≡ none
      → (w' : W) × (create_recursive k (n ∷ p) v f w ≡ (w', none)) × Made (n ∷ p) v w w'
  create_recursive-Made n [] v f w z zk absent =
      let (d, here) = z.root w in below_there n [] v d f w z zk absent here
  create_recursive-Made n (m ∷ p) v f w z zk absent = elim (Option-cases (get (m ∷ p) w)) [
    | inr (d, here) ↦ below_there n (m ∷ p) v d f w z zk absent here
    | inl missing ↦
        let (w', up, a) = create_recursive-Made m p [] 0 w z zk missing in
        let still = a.deeper (n ∷ m ∷ p) (omega arith) ∙ absent in
        let (w'', go, there, only) = z.made n (m ∷ p) v [] f w' a.there still in
        (
          w'',
          orphaned n (m ∷ p) v f w zk (z.orphan n (m ∷ p) v f w missing)
              ∙ ap (parent_created k (n ∷ m ∷ p) v f) up
              ∙ go,
          Made-trans n (m ∷ p) v [] w w' w'' a (one-Made n (m ∷ p) v w' w'' still there only),
        )
  ]

  pub taken_recursive :
      (n : List ℕ) (p : ZkPath) (v d : List ℕ) (f : ℕ) (w : W)
      → Answers k
      → outermost (n ∷ p) ≡ magic_prefix
      → get (n ∷ p) w ≡ some d
      → create_recursive k (n ∷ p) v f w ≡ (w, some node_exists)
  unfolding create_recursive
  taken_recursive n p v d f w z zk here =
      rw (guard (n ∷ p) zk, z.taken (n ∷ p) v d f w here, create_recursive) refl

  -- CreateOrUpdate with its recursive flag, at a path under "/zk", on a ZooKeeper that answers: it
  -- succeeds whether or not the node was there, the node holds the data afterwards, and every other
  -- node that was there is as it was.
  pub create_or_update-there :
      (n : List ℕ) (p : ZkPath) (v : List ℕ) (f : ℕ) (w : W)
      → Answers k
      → outermost (n ∷ p) ≡ magic_prefix
      → (w' : W) × (create_or_update k (n ∷ p) v f true w ≡ (w', none))
        × (get (n ∷ p) w' ≡ some v)
        × ((q : ZkPath) (d : List ℕ) → q ≢ (n ∷ p) → get q w ≡ some d → get q w' ≡ some d)
  unfolding create_or_update
  create_or_update-there n p v f w z zk = elim (Option-cases (get (n ∷ p) w)) [
    | inl absent ↦
        let (w', go, a) = create_recursive-Made n p v f w z zk absent in
        (w', ap (updated k (n ∷ p) v) go, a.there, λ q d other h. a.kept q d h)
    | inr (old, here) ↦
        let (w', go, there, only) = z.set_there (n ∷ p) v old w here in
        (
          w',
          ap (updated k (n ∷ p) v) (taken_recursive n p v old f w z zk here) ∙ go,
          there,
          λ q d other h. only q other ∙ h,
        )
  ]
