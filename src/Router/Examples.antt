-- ===== src/Router/Examples.antt =====
-- A proxy that routes to the backends 1 and 2, and a list that names the first of them twice.
use rpc_proxy.Prelude.{find, ℕ, ◌≡◌, refl, true, none, some, List, [], ◌∷◌}
use rpc_proxy.Router.{Router, get_back_service, watch_round}
use rpc_proxy.Router.Watching.{stopped_in, watch_round-kept, watch_round-found, watch_round-stopped}

abbrev geo : List ℕ
geo = b'g' ∷ []

abbrev users : List ℕ
users = b'u' ∷ []

abbrev new_one : List ℕ
new_one = b'n' ∷ []

abbrev routing : Router
routing = record { services = (geo, 1) ∷ (users, 2) ∷ []; fresh = 3; stopped = [] }

abbrev names : List (List ℕ)
names = geo ∷ new_one ∷ geo ∷ []

watch_round-kept_example : get_back_service geo (watch_round names routing) ≡ some 1
unfolding get_back_service find
watch_round-kept_example = watch_round-kept names geo 1 routing refl refl

watch_round-found_test : (b : ℕ) × (get_back_service new_one (watch_round names routing) ≡ some b)
watch_round-found_test = watch_round-found names new_one routing refl

watch_round-stopped_test :
    (get_back_service users (watch_round names routing) ≡ none)
    × (stopped_in 2 (watch_round names routing).stopped ≡ true)
unfolding get_back_service find
watch_round-stopped_test = watch_round-stopped names users 2 routing refl refl
