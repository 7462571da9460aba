-- ===== src/Topology/Paths.antt =====
-- The paths of zk/topology.go as strings: basePath, FullPath, and what ZooKeeper makes of a path.
use mathlib.Core.List.{reverse, reverse-append}
use rpc_proxy.Prelude.{
  ℕ, ◌≡◌, ◌≢◌, refl, ◌∙◌, Bool, true, false, ◌&&◌, List, [], ◌∷◌, ◌++◌, ◌==◌, if◌then◌else◌, arith,
  Bool-cases, inl, inr,
}
use rpc_proxy.Topology.{ZkPath, product_base_path, product_name, magic_prefix}

-- strings.HasPrefix(path, prefix)
unfoldable pub has_prefix : List ℕ → List ℕ → Bool
has_prefix [] path = true
has_prefix (c ∷ cs) [] = false
has_prefix (c ∷ cs) (d ∷ ds) = let rest = has_prefix cs ds in (c == d) && rest

-- productBasePath, as NewTopology keeps it
abbrev pub base_path : List ℕ → List ℕ
base_path product = b'/' ∷ magic_prefix ++ b'/' ∷ product_name ++ b'/' ∷ product

-- FullPath
abbrev pub full_path : List ℕ → List ℕ → List ℕ
full_path base path = if has_prefix base path then path else base ++ path

abbrev onto_first : ℕ → List (List ℕ) → List (List ℕ)
onto_first c [] = (c ∷ []) ∷ []
onto_first c (n ∷ ns) = (c ∷ n) ∷ ns

-- strings.Split(path, "/")
unfoldable pub split_slash : List ℕ → List (List ℕ)
split_slash [] = [] ∷ []
split_slash (c ∷ cs) =
    let rest = split_slash cs in if c == b'/' then [] ∷ rest else onto_first c rest

abbrev behind_first : List (List ℕ) → List (List ℕ)
behind_first [] = []
behind_first (n ∷ ns) = ns

-- The names of a path that starts with a slash, the innermost first.
abbrev pub zk_path : List ℕ → ZkPath
zk_path path = reverse (behind_first (split_slash path))

-- No slash in a name.
abbrev pub IsName : List ℕ → Type 0
IsName [] = Unit {0}
IsName (c ∷ cs) = (c ≢ b'/') × IsName cs

pub has_prefix-append : (base path : List ℕ) → has_prefix base (base ++ path) ≡ true
unfolding has_prefix
has_prefix-append [] path = refl
has_prefix-append (c ∷ cs) path = ground (arith, has_prefix-append cs path)

-- A path that FullPath has completed is complete: Exist completes again what DeleteDir and CreateDir
-- give it.
pub full_path_twice :
    (base path : List ℕ) → full_path base (full_path base path) ≡ full_path base path
full_path_twice base path = ground (arith, has_prefix-append base path)

split_name : (name : List ℕ) → IsName name → split_slash name ≡ name ∷ []
unfolding split_slash
split_name [] h = refl
split_name (c ∷ cs) h = ground (arith, split_name cs h.1)

split_some : (cs : List ℕ) → (n : List ℕ) × (ns : List (List ℕ)) × (split_slash cs ≡ n ∷ ns)
unfolding split_slash
split_some [] = ([], [], refl)
split_some (c ∷ cs) =
    let (n, ns, e) = split_some cs in
    elim (Bool-cases (c == b'/')) [
      | inl slash ↦ ([], n ∷ ns, ground (arith, slash, e))
      | inr other ↦ (c ∷ n, ns, ground (arith, other, e))
    ]

split_append : (a b : List ℕ) → split_slash (a ++ b'/' ∷ b) ≡ split_slash a ++ split_slash b
unfolding split_slash
split_append [] b = refl
split_append (c ∷ cs) b = let (n, ns, e) = split_some cs in ground (arith, e, split_append cs b)

-- A name behind a slash is the innermost name of the path.
pub zk_path-child :
    (parent name : List ℕ) → IsName name → zk_path (parent ++ b'/' ∷ name) ≡ name ∷ zk_path parent
zk_path-child parent name h =
    let (n, ns, e) = split_some parent in
    rw (split_append parent name, split_name name h, e) (reverse-append ns (name ∷ []))

-- basePath is the path of the product.
pub zk_path-base_path :
    (product : List ℕ) → IsName product → zk_path (base_path product) ≡ product_base_path product
unfolding split_slash
zk_path-base_path product h =
    zk_path-child (b'/' ∷ magic_prefix ++ b'/' ∷ product_name) product h ∙ refl
