-- ===== src/Topology/Watches.antt =====
-- The watches of zk/topology.go, and the loop of RegisterService (proxy/server_general_rpc.go) over them: a
-- round asks for the node of the service and a watch, and waits for the watch's event. The tree may
-- change meanwhile in any way: when a session expires, ZooKeeper deletes its nodes.
mod Examples
use rpc_proxy.Prelude.{
  ℕ, ◌≡◌, refl, sym, ap, ◌∙◌, subst, Bool, true, false, ◌||◌, Option, none, some, List, [], ◌∷◌,
  ◌++◌, if◌then◌else◌, arith,
}
use rpc_proxy.Topology.{
  ZkConn, ServiceEndpoint, Json, Watched, not_watched, event, path_of, register_round, renew,
  get_service_endpoint, delete_service_endpoint,
}
use rpc_proxy.Topology.Creating.{Answers}
use rpc_proxy.Topology.Registering.{Deletes, deleted, renew-registered}

-- topo.Event: whether its State is StateExpired, and its Type EventNotWatching
pub record Event : Type 0 where
  pub expired : Bool
  pub not_watching : Bool

-- doWatch, once the event has come: `evtbus` is what was sent on the channel.
abbrev pub do_watch : Event → List Event → List Event
do_watch e evtbus = if e.expired || e.not_watching then evtbus ++ e ∷ [] else evtbus ++ e ∷ []

-- WatchChildren, with ChildrenW's answer: the names, and the event that its channel brings; `none` is
-- an error.
abbrev pub watch_children :
    Option (List (List ℕ) × Event) → List Event → Option (List (List ℕ)) × List Event
watch_children none evtbus = (none, evtbus)
watch_children (some (names, e)) evtbus = (some names, do_watch e evtbus)

-- WatchNode, with GetW's answer; a nil evtbus is `none`.
abbrev pub watch_node :
    Option (List ℕ × Event) → Option (List Event) → Option (List ℕ) × Option (List Event)
watch_node none evtbus = (none, evtbus)
watch_node (some (content, e)) none = (some content, none)
watch_node (some (content, e)) (some evtbus) = (some content, some (do_watch e evtbus))

-- What RegisterService does of it: after an error it waits for its timer, otherwise for the event.
abbrev pub seen : Option (List ℕ) × Option (List Event) → Watched
seen (some content, some (e ∷ rest)) = event (e.expired || e.not_watching)
seen _ = not_watched

-- A round of the loop: what the tree goes through until its event has come, and GetW's answer.
pub record Round (W : Type 0) : Type 0 where
  pub change : W → W
  pub answer : Option (List ℕ × Event)

module _ {W : Type 0} (k : ZkConn W) (j : Json) (product : List ℕ) where
  open j use {marshal, unmarshal}

  -- The loop of RegisterService, up to the round in which evtExit comes.
  unfoldable pub register_loop : ServiceEndpoint → List (Round W) → W → W
  register_loop s [] w = w
  register_loop s (r ∷ rs) w =
      register_loop s rs
        (register_round k j product s (seen (watch_node r.answer (some []))) (r.change w))

  abbrev pub Registered : ServiceEndpoint → W → Type 0
  Registered s w = get_service_endpoint k j product s.service s.service_id w ≡ some s

  -- Rounds in which nobody else takes the endpoint away.
  abbrev pub Undisturbed : ServiceEndpoint → List (Round W) → Type 0
  Undisturbed s [] = Unit {0}
  Undisturbed s (r ∷ rs) = ((w : W) → Registered s w → Registered s (r.change w)) × Undisturbed s rs

  module _ (s : ServiceEndpoint) (v : List ℕ) (z : Answers k) (y : Deletes k)
      (writes : marshal s ≡ some v) (reads : unmarshal v ≡ some s) where
    renewed : (w : W) → Registered s (renew k j product s w)
    renewed w = (renew-registered k j product s v w z y writes reads).0

    round_keeps :
        (a : Watched) (w : W) → Registered s w → Registered s (register_round k j product s a w)
    round_keeps not_watched w h = h
    round_keeps (event false) w h = h
    round_keeps (event true) w h = renewed w

    loop_keeps :
        (rs : List (Round W)) (w : W)
        → Undisturbed s rs
        → Registered s w
        → Registered s (register_loop s rs w)
    unfolding register_loop
    loop_keeps [] w u h = h
    loop_keeps (r ∷ rs) w u h =
        loop_keeps rs _ u.1 (round_keeps (seen (watch_node r.answer (some []))) _ (u.0 w h))

    loop_renews :
        (before after : List (Round W)) (r : Round W) (content : List ℕ) (e : Event) (w : W)
        → r.answer ≡ some (content, e)
        → e.expired || e.not_watching ≡ true
        → Undisturbed s after
        → Registered s (register_loop s (before ++ r ∷ after) w)
    unfolding register_loop
    loop_renews [] after r content e w answered lost u =
        let noticed : seen (watch_node r.answer (some [])) ≡ event true =
          ap (λ a. seen (watch_node a (some []))) answered ∙ rw lost (ap event lost) in
        loop_keeps after _ u (
          subst (λ a. Registered s (register_round k j product s a (r.change w))) (sym noticed)
            (renewed (r.change w)))
    loop_renews (b ∷ before) after r content e w answered lost u =
        loop_renews before after r content e _ answered lost u

    -- A server keeps itself registered, on a ZooKeeper that answers and with a JSON package that reads
    -- what it wrote: whatever came before and whatever the tree went through, after a round whose event
    -- tells that the session has expired or that nothing is watched any more the endpoint is found under
    -- its service and its identity, and it stays so for as long as nobody else takes it away, through
    -- further events and failed watches. When the server ends, after the loop has, it is not found any
    -- more.
    pub register_loop-registered :
        (before after : List (Round W)) (r : Round W) (content : List ℕ) (e : Event) (w : W)
        → r.answer ≡ some (content, e)
        → e.expired || e.not_watching ≡ true
        → Undisturbed s after
        → let end = register_loop s (before ++ r ∷ after) w in
          (get_service_endpoint k j product s.service s.service_id end ≡ some s)
          × (get_service_endpoint k j product s.service s.service_id
                (delete_service_endpoint k j product s end)
              ≡ none)
    unfolding get_service_endpoint
    register_loop-registered before after r content e w answered lost u =
        let end = register_loop s (before ++ r ∷ after) w in
        let (gone, _) = deleted k j product s end y in
        (loop_renews before after r content e w answered lost u, ground (arith, gone))
