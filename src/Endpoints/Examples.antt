-- ===== src/Endpoints/Examples.antt =====
-- A service with connections to two addresses, of which one is left.
use rpc_proxy.Prelude.{
  ℕ, ◌≡◌, refl, true, false, Option, none, some, List, [], ◌∷◌, find, put, remove,
}
use rpc_proxy.Endpoints.{Endpoints, watch_round, collect}
use rpc_proxy.Endpoints.Watching.{watch_round-connected, watch_round-retired}

abbrev here : List ℕ
here = b'a' ∷ b':' ∷ b'1' ∷ []

abbrev there : List ℕ
there = b'b' ∷ b':' ∷ b'2' ∷ []

abbrev two : Endpoints
two = record { addr_to_conn = (here, 1) ∷ (there, 2) ∷ []; is_mark_offline = λ _. false; fresh = 3 }

-- One endpoint can be read, and one cannot.
abbrev read : List (Option (List ℕ))
read = some here ∷ none ∷ []

watch_round-connected_test : find here (watch_round false read two).addr_to_conn ≡ some 1
unfolding find collect put remove
watch_round-connected_test = watch_round-connected false read here 1 true two refl refl refl

watch_round-retired_example :
    (find there (watch_round false read two).addr_to_conn ≡ none)
    × ((watch_round false read two).is_mark_offline 2 ≡ true)
unfolding find collect put remove
watch_round-retired_example = watch_round-retired false read there 2 two refl refl
