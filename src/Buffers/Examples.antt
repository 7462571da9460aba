-- ===== src/Buffers/Examples.antt =====
-- The pool with one slice of each size.
use rpc_proxy.Prelude.{ℕ, ◌≤◌, ◌≡◌, refl, none, some, [], ◌∷◌, arith}
use rpc_proxy.Buffers.{Slice, Buffers, get_slice, return_slice}
use rpc_proxy.Buffers.Recycling.{Slices, of_request, pooled, recycle, Apart, recycle_once}
use rpc_proxy.Buffers.Reuse.{WellFormed, Fits, get_slice-Fits, return_slice-WellFormed}

abbrev used : Slice
used = record { address = 5; len = 900; cap = 1024 }

abbrev shared : Buffers
shared = record {
  memory_buffer_1024 = used ∷ [];
  memory_buffer_2048 = record { address = 6; len = 2; cap = 2048 } ∷ [];
  next_address = 7;
}

shared-WellFormed : WellFormed shared
shared-WellFormed = record {
  small = (refl, tt);
  large = (refl, tt);
  small_room = omega arith;
  large_room = omega arith;
}

get_slice-Fits_test :
    (t : Buffers) × (b : Slice) × (get_slice 10 1000 shared ≡ some (t, b)) × Fits 10 1000 (t, b)
get_slice-Fits_test = get_slice-Fits 10 1000 shared shared-WellFormed (omega arith)

return_slice-WellFormed_test : WellFormed (return_slice used shared).0
return_slice-WellFormed_test = return_slice-WellFormed used shared shared-WellFormed

-- A request whose message and answer lie in one slice.
abbrev answered_in_place : Slices
answered_in_place = record {
  data_orig = some (record { address = 90; len = 10; cap = 1024 });
  payload = none;
  response_data = some (record { address = 90; len = 4; cap = 1024 });
}

abbrev nothing_pooled : Buffers
nothing_pooled = record { memory_buffer_1024 = []; memory_buffer_2048 = []; next_address = 91 }

in_use : Apart (of_request answered_in_place) answered_in_place.response_data nothing_pooled
in_use = record { of_first = λ a. ground arith; of_second = λ a. ground arith }

recycle_once_example :
    ((a : ℕ) → pooled a (recycle answered_in_place nothing_pooled).0 ≤ 1)
    × ((recycle answered_in_place nothing_pooled).1
        ≡ record { data_orig = none; payload = none; response_data = none })
recycle_once_example = recycle_once answered_in_place nothing_pooled in_use
