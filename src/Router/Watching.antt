-- ===== src/Router/Watching.antt =====
-- What a round of the watch does to the services.
use rpc_proxy.Prelude.{
  find, same_find, find-remove, find-put, ℕ, ◌≡◌, refl, ap, ◌∙◌, Bool, true, false, none, some,
  List, [], ◌∷◌, arith, bytes_eq, ◌==◌, ◌||◌, Option-cases, Bool-cases, inl, inr,
}
use rpc_proxy.Router.{
  Services, Router, get_back_service, add_back_service, watch_service, watch_each, stop_all,
  watch_round,
}

abbrev pub listed : List ℕ → List (List ℕ) → Bool
listed name [] = false
listed name (n ∷ names) = bytes_eq n name || listed name names

-- A service that is in the new map and no longer at hand stays as it is.
abbrev Held : List ℕ → ℕ → Services × Router → Type 0
Held name b (old, r) = (find name old ≡ none) × (find name r.services ≡ some b)

add-held :
    (k name : List ℕ) (b : ℕ) (r : Router)
    → find name r.services ≡ some b
    → find name (add_back_service k r).services ≡ some b
unfolding add_back_service
add-held k name b r h = elim (Option-cases (find k r.services)) [
  | inl fresh ↦ ground (arith, find-put k name r.fresh r.services, same_find k name r.services)
  | inr (c, there) ↦ ground arith
]

watch_service-Held :
    (k name : List ℕ) (b : ℕ) (old : Services) (r : Router)
    → Held name b (old, r)
    → Held name b (watch_service k (old, r))
unfolding watch_service
watch_service-Held k name b old r h = elim (Option-cases (find k old)) [
  | inl gone ↦ ground (arith, add-held k name b r h.1)
  | inr (c, there) ↦
      ground (arith, find-put k name c r.services, find-remove k name old, same_find k name old)
]

watch_each-Held :
    (names : List (List ℕ)) (name : List ℕ) (b : ℕ) (s : Services × Router)
    → Held name b s
    → Held name b (watch_each names s)
unfolding watch_each
watch_each-Held [] name b s h = h
watch_each-Held (k ∷ names) name b (old, r) h =
    watch_each-Held names name b (watch_service k (old, r)) (watch_service-Held k name b old r h)

watch_service-here :
    (k name : List ℕ) (b : ℕ) (old : Services) (r : Router)
    → bytes_eq k name ≡ true
    → find name old ≡ some b
    → Held name b (watch_service k (old, r))
unfolding watch_service
watch_service-here k name b old r same h =
    ground (arith, same_find k name old same, find-put k name b r.services, find-remove k name old)

watch_service-some :
    (k name : List ℕ) (old : Services) (r : Router)
    → bytes_eq k name ≡ true
    → find name old ≡ none
    → (b : ℕ) × Held name b (watch_service k (old, r))
unfolding watch_service add_back_service
watch_service-some k name old r same h = elim (Option-cases (find k r.services)) [
  | inl fresh ↦
      (r.fresh, ground (arith, same_find k name old same, find-put k name r.fresh r.services))
  | inr (c, there) ↦
      (c, ground (arith, same_find k name old same, same_find k name r.services same))
]

add-other :
    (k name : List ℕ) (r : Router)
    → bytes_eq k name ≡ false
    → find name (add_back_service k r).services ≡ find name r.services
unfolding add_back_service
add-other k name r other = elim (Option-cases (find k r.services)) [
  | inl fresh ↦ ground (arith, find-put k name r.fresh r.services)
  | inr (c, there) ↦ ground arith
]

watch_service-other :
    (k name : List ℕ) (old : Services) (r : Router)
    → bytes_eq k name ≡ false
    → (find name (watch_service k (old, r)).0 ≡ find name old)
      × (find name (watch_service k (old, r)).1.services ≡ find name r.services)
unfolding watch_service
watch_service-other k name old r other = elim (Option-cases (find k old)) [
  | inl gone ↦ ground (arith, add-other k name r other)
  | inr (c, there) ↦ ground (arith, find-put k name c r.services, find-remove k name old)
]

-- A listed service ends up in the new map, with the backend that it had where it had one.
watch_each-listed :
    (names : List (List ℕ)) (name : List ℕ) (old : Services) (r : Router)
    → listed name names ≡ true
    → (b : ℕ) × Held name b (watch_each names (old, r))
unfolding watch_each
watch_each-listed [] name old r l = cc
watch_each-listed (k ∷ names) name old r l =
    let s = watch_service k (old, r) in
    elim (Bool-cases (bytes_eq k name)) [
      | inl same ↦ elim (Option-cases (find name old)) [
        | inl new ↦
            let (b, held) = watch_service-some k name old r same new in
            (b, watch_each-Held names name b (watch_service k (old, r)) held)
        | inr (b, had) ↦ (
          b,
          watch_each-Held names name b (watch_service k (old, r))
              (watch_service-here k name b old r same had),
        )
      ]
      | inr other ↦ watch_each-listed names name s.0 s.1 (ground arith)
    ]

watch_each-kept :
    (names : List (List ℕ)) (name : List ℕ) (b : ℕ) (old : Services) (r : Router)
    → find name old ≡ some b
    → listed name names ≡ true
    → Held name b (watch_each names (old, r))
unfolding watch_each
watch_each-kept [] name b old r h l = cc
watch_each-kept (k ∷ names) name b old r h l =
    let s = watch_service k (old, r) in
    elim (Bool-cases (bytes_eq k name)) [
      | inl same ↦ watch_each-Held names name b s (watch_service-here k name b old r same h)
      | inr other ↦
          watch_each-kept names name b s.0 s.1 ((watch_service-other k name old r other).0 ∙ h)
            (ground arith)
    ]

-- A service that is not listed stays at hand, and out of the new map.
watch_each-unlisted :
    (names : List (List ℕ)) (name : List ℕ) (old : Services) (r : Router)
    → listed name names ≡ false
    → let (old', r') = watch_each names (old, r) in
      (find name old' ≡ find name old) × (find name r'.services ≡ find name r.services)
unfolding watch_each
watch_each-unlisted [] name old r l = (refl, refl)
watch_each-unlisted (k ∷ names) name old r l =
    let s = watch_service k (old, r) in
    let (a, b) = watch_service-other k name old r (ground arith) in
    let (c, d) = watch_each-unlisted names name s.0 s.1 (ground arith) in (c ∙ a, d ∙ b)

stop_all-services : (m : Services) (r : Router) → (stop_all m r).services ≡ r.services
stop_all-services [] r = refl
stop_all-services ((k, b) ∷ m) r = stop_all-services m (record r { stopped = b ∷ r.stopped })

abbrev pub stopped_in : ℕ → List ℕ → Bool
stopped_in b [] = false
stopped_in b (c ∷ cs) = c == b || stopped_in b cs

stop_all-keeps :
    (m : Services) (b : ℕ) (r : Router)
    → stopped_in b r.stopped ≡ true
    → stopped_in b (stop_all m r).stopped ≡ true
stop_all-keeps [] b r h = h
stop_all-keeps ((k, c) ∷ m) b r h =
    stop_all-keeps m b (record r { stopped = c ∷ r.stopped }) (ground arith)

stop_all-stops :
    (m : Services) (name : List ℕ) (b : ℕ) (r : Router)
    → find name m ≡ some b
    → stopped_in b (stop_all m r).stopped ≡ true
unfolding find
stop_all-stops [] name b r h = cc
stop_all-stops ((k, c) ∷ m) name b r h = elim (Bool-cases (bytes_eq k name)) [
  | inl same ↦ stop_all-keeps m b (record r { stopped = c ∷ r.stopped }) (ground arith)
  | inr other ↦ stop_all-stops m name b (record r { stopped = c ∷ r.stopped }) (ground arith)
]

-- After a round of the watch, a listed service that had a backend still has that one, also where the
-- list names it several times.
pub watch_round-kept :
    (names : List (List ℕ)) (name : List ℕ) (b : ℕ) (r : Router)
    → get_back_service name r ≡ some b
    → listed name names ≡ true
    → get_back_service name (watch_round names r) ≡ some b
unfolding get_back_service watch_round
watch_round-kept names name b r had l =
    let s = watch_each names (r.services, record r { services = [] }) in
    ap (find name) (stop_all-services s.0 s.1)
    ∙ (watch_each-kept names name b r.services (record r { services = [] }) had l).1

-- After a round of the watch, every listed service has a backend.
pub watch_round-found :
    (names : List (List ℕ)) (name : List ℕ) (r : Router)
    → listed name names ≡ true
    → (b : ℕ) × (get_back_service name (watch_round names r) ≡ some b)
unfolding get_back_service watch_round
watch_round-found names name r l =
    let s = watch_each names (r.services, record r { services = [] }) in
    let (b, held) = watch_each-listed names name r.services (record r { services = [] }) l in
    (b, ap (find name) (stop_all-services s.0 s.1) ∙ held.1)

-- After a round of the watch, a service that is no longer listed is not found, and the backend that
-- it had has been stopped.
pub watch_round-stopped :
    (names : List (List ℕ)) (name : List ℕ) (b : ℕ) (r : Router)
    → get_back_service name r ≡ some b
    → listed name names ≡ false
    → (get_back_service name (watch_round names r) ≡ none)
      × (stopped_in b (watch_round names r).stopped ≡ true)
unfolding get_back_service watch_round find
watch_round-stopped names name b r had l =
    let s = watch_each names (r.services, record r { services = [] }) in
    let (a, c) = watch_each-unlisted names name r.services (record r { services = [] }) l in
    (ap (find name) (stop_all-services s.0 s.1) ∙ c, stop_all-stops s.0 name b s.1 (a ∙ had))
