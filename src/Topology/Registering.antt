-- ===== src/Topology/Registering.antt =====
-- The registration of a server in ZooKeeper.
use rpc_proxy.Prelude.{
  ℕ, ◌≡◌, ◌≢◌, refl, sym, ap, ◌∙◌, Bool, true, false, Option, none, some, List, [], ◌∷◌, arith,
  Option-cases, inl, inr, ◌⊎◌,
}
use rpc_proxy.Topology.{
  ZkPath, no_node, ZkConn, product_service_path, create_recursive, ServiceEndpoint, Json, path_of,
  delete_service_endpoint, add_service_endpoint, get_service_endpoint, renew,
}
use rpc_proxy.Topology.Creating.{Answers, create_recursive-Made, taken_recursive}

-- The node at p, or one below it.
abbrev pub Below : ZkPath → ZkPath → Type 0
Below p [] = p ≡ []
Below p (n ∷ q) = (p ≡ n ∷ q) ⊎ Below p q

abbrev pub is_some : Option (List ℕ) → Bool
is_some none = false
is_some (some _) = true

-- What ZooKeeper and zkhelper document of deletion, and of NodeExists.
pub record Deletes {W : Type 0} (k : ZkConn W) : Type 0 where
  pub found : (p : ZkPath) (w : W) → k.exists p w ≡ is_some (k.get p w)
  pub delete_absent : (p : ZkPath) (w : W) → k.get p w ≡ none → k.delete p w ≡ (w, some no_node)
  pub delete_below :
      (n : List ℕ) (p : ZkPath) (d : List ℕ) (w : W)
      → k.get (n ∷ p) w ≡ some d
      → (w' : W) × (k.delete_recursive (n ∷ p) w ≡ (w', none))
        × (k.get (n ∷ p) w' ≡ none)
        × ((q : ZkPath) → ¬ (Below (n ∷ p) q) → k.get q w' ≡ k.get q w)

module _ {W : Type 0} (k : ZkConn W) (j : Json) (product : List ℕ) where
  open k use {get, create, delete}
  open j use {marshal, unmarshal}

  -- After DeleteServiceEndpoint
  pub deleted :
      (s : ServiceEndpoint) (w : W)
      → Deletes k
      → (get (path_of k j product s) (delete_service_endpoint k j product s w) ≡ none)
        × ((q : ZkPath)
            → ¬ (Below (path_of k j product s) q)
            → get q (delete_service_endpoint k j product s w) ≡ get q w)
  unfolding delete_service_endpoint
  deleted s w z = elim (Option-cases (get (path_of k j product s) w)) [
    | inl absent ↦
        let out : k.exists (path_of k j product s) w ≡ false = z.found _ w ∙ ap is_some absent in
        (rw out absent, λ q other. rw out refl)
    | inr (d, here) ↦
        let out : k.exists (path_of k j product s) w ≡ true = z.found _ w ∙ ap is_some here in
        let (w', go, gone, only) = z.delete_below s.service_id _ d w here in
        (rw (out, go) gone, λ q other. rw (out, go) (only q other))
  ]

  -- The node of the service, whether or not it was there.
  service_there :
      (s : ServiceEndpoint) (w : W)
      → Answers k
      → get (path_of k j product s) w ≡ none
      → (w' : W) × ((create_recursive k (product_service_path product s.service) [] 0 w).0 ≡ w')
        × ((d : List ℕ) × (get (product_service_path product s.service) w' ≡ some d))
        × (get (path_of k j product s) w' ≡ none)
        × ((q : ZkPath) (d : List ℕ) → get q w ≡ some d → get q w' ≡ some d)
  service_there s w z absent =
      elim (Option-cases (get (product_service_path product s.service) w)) [
        | inl missing ↦
            let (w', go, a) = create_recursive-Made k s.service _ [] 0 w z refl missing in
            (
              w',
              ap (λ x. x.0) go,
              ([], a.there),
              a.deeper (path_of k j product s) (omega arith) ∙ absent,
              a.kept,
            )
        | inr (d, here) ↦ (
          w,
          ap (λ x. x.0) (taken_recursive k s.service _ [] d 0 w z refl here),
          (d, here),
          absent,
          λ q d h. h,
        )
      ]

  -- AddServiceEndpoint where no node stands at the endpoint's path.
  added :
      (s : ServiceEndpoint) (v : List ℕ) (w : W)
      → Answers k
      → Deletes k
      → marshal s ≡ some v
      → get (path_of k j product s) w ≡ none
      → (w' : W) × (add_service_endpoint k j product s w ≡ (w', none))
        × (get (path_of k j product s) w' ≡ some v)
        × ((q : ZkPath) (d : List ℕ)
            → q ≢ path_of k j product s
            → get q w ≡ some d
            → get q w' ≡ some d)
  unfolding add_service_endpoint
  added s v w z y json absent =
      let (m, dir, (d, here), still, kept) = service_there s w z absent in
      let gone = y.delete_absent (path_of k j product s) m still in
      let (w', go, there, only) = z.made s.service_id _ v d k.flag_ephemeral m here still in
      (
        w',
        rw (json, dir, gone, go, add_service_endpoint) refl,
        there,
        λ q x other h. only q other ∙ kept q x h,
      )

  -- What RegisterService does when it starts, and again when the session has expired: on a ZooKeeper
  -- that answers, and with a JSON package that reads what it wrote, the endpoint that is then found
  -- under its service and its identity is the one that was registered, whatever stood there before,
  -- and every other node that was there is as it was, except those below the endpoint's path.
  pub renew-registered :
      (s : ServiceEndpoint) (v : List ℕ) (w : W)
      → Answers k
      → Deletes k
      → marshal s ≡ some v
      → unmarshal v ≡ some s
      → (get_service_endpoint k j product s.service s.service_id (renew k j product s w) ≡ some s)
        × ((q : ZkPath) (d : List ℕ)
            → ¬ (Below (path_of k j product s) q)
            → get q w ≡ some d
            → get q (renew k j product s w) ≡ some d)
  unfolding get_service_endpoint
  renew-registered s v w z y json back =
      let (absent, others) = deleted s w y in
      let (w', go, there, kept) =
        added s v (delete_service_endpoint k j product s w) z y json absent in
      let last : renew k j product s w ≡ w' = ap (λ x. x.0) go in
      (
        rw last (rw (there, get_service_endpoint) back),
        λ q d other h. rw last (kept q d (apart s q other) (others q other ∙ h)),
      )
    where
      apart :
          (s : ServiceEndpoint) (q : ZkPath)
          → ¬ (Below (path_of k j product s) q)
          → q ≢ path_of k j product s
      apart s [] other e = other (sym e)
      apart s (n ∷ q) other e = other (inl (sym e))
