-- ===== src/Stats.antt =====
-- proxy/stats.go: how often each operation was called, and how long the calls took. The counters
-- are of the width int64, kept as their bit patterns; the map's lock is not modelled.
pub mod Counting
mod Examples
use rpc_proxy.Prelude.{
  ℕ, suc, ◌+◌, ◌/◌, ◌%◌, ◌^◌, ◌==◌, Option, none, some, List, [], ◌∷◌, if◌then◌else◌, find, put,
}

pub record OpStats : Type 0 where
  pub calls : ℕ
  pub usecs : ℕ

pub record CmdStats : Type 0 where
  pub requests : ℕ
  pub opmap : List (List ℕ × OpStats)

-- atomic2.Int64.Add
abbrev pub add_int64 : ℕ → ℕ → ℕ
add_int64 a b = (a + b) % 18_446_744_073_709_551_616

-- OpCounts
abbrev pub op_counts : CmdStats → ℕ
op_counts s = s.requests

abbrev no_calls : OpStats
no_calls = record { calls = 0; usecs = 0 }

-- GetOpStats(opstr, true): an entry is made where there is none.
unfoldable pub get_op_stats : List ℕ → CmdStats → CmdStats × OpStats
get_op_stats opstr s = elim (find opstr s.opmap) [
  | some o ↦ (s, o)
  | none ↦ (record s { opmap = put opstr no_calls s.opmap }, no_calls)
]

-- incrOpStats, which works on the entry behind the pointer
unfoldable pub incr_op_stats : List ℕ → ℕ → CmdStats → CmdStats
incr_op_stats opstr usecs s =
    let (t, o) = get_op_stats opstr s in
    record t {
      opmap =
          put opstr (record { calls = add_int64 o.calls 1; usecs = add_int64 o.usecs usecs })
            t.opmap;
      requests = add_int64 t.requests 1;
    }

-- `usecs_percall` of MarshalJSON, for counters that have not become negative
unfoldable pub usecs_percall : OpStats → ℕ
usecs_percall o = if o.calls == 0 then 0 else o.usecs / o.calls
