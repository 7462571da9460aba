-- ===== src/Pool/Notifying/Examples.antt =====
-- Connection 4 of a proxy has failed and is still in the list: loopReader has set it inactive, and has
-- not called StateChanged yet.
use rpc_proxy.Prelude.{ℕ, ◌≡◌, refl, true, false, Option, none, some, arith, update}
use rpc_proxy.Pool.{Pool, state_changed, remove_conn, next_backend_conn}
use rpc_proxy.Pool.Removal.{member}
use rpc_proxy.Pool.Examples.{pair, pair-Inv}
use rpc_proxy.Pool.Notifying.{
  Notifying, Sound, Reach, here, next, notify, all_settled, picks_active,
}

abbrev one_off : Pool
one_off = record pair { is_conn_active = update (λ _. false) 8 true }

abbrev failing : Notifying
failing = record { pool = one_off; tested = λ _. 0; owed = update (λ _. 0) 4 1 }

failing-Sound : Sound failing
failing-Sound = record {
  agrees = record { listed = pair-Inv.listed; placed = pair-Inv.placed };
  settled = λ c h. ground (arith, h);
}

abbrev pool_of : Option Pool → Pool
pool_of none = one_off
pool_of (some t) = t

abbrev told : Notifying
told = record failing { pool = pool_of (state_changed 4 one_off); owed = update failing.owed 4 0 }

notified : state_changed 4 one_off ≡ some (told.pool)
unfolding state_changed remove_conn
notified = refl

reached : Reach failing told
reached = next here (notify 4 0 refl notified)

all_settled_example :
    (member told.pool 4 ≡ told.pool.is_conn_active 4)
    × (u : Pool) × (state_changed 8 told.pool ≡ some u)
all_settled_example = all_settled failing told 4 8 failing-Sound reached refl

abbrev after_pick : Option (Option ℕ × Pool) → Pool
after_pick none = one_off
after_pick (some (_, t)) = t

picked : next_backend_conn told.pool ≡ some (some 8, after_pick (next_backend_conn told.pool))
unfolding state_changed remove_conn next_backend_conn
picked = refl

picks_active_example : told.pool.is_conn_active 8 ≡ true
picks_active_example = picks_active failing told 8 _ failing-Sound reached picked refl
