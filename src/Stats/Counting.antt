-- ===== src/Stats/Counting.antt =====
-- What the counters say after a number of calls.
use rpc_proxy.Prelude.{
  ℕ, suc, ◌+◌, ◌<◌, ◌≡◌, Option, none, some, List, [], ◌∷◌, arith, length, bytes_eq, if◌then◌else◌,
  find, put, find-put, same_find, Option-cases, inl, inr,
}
use rpc_proxy.Stats.{OpStats, CmdStats, add_int64, no_calls, get_op_stats, incr_op_stats}

-- incrOpStats for each of some calls, the first one first
abbrev pub incr_each : List (List ℕ × ℕ) → CmdStats → CmdStats
incr_each [] s = s
incr_each ((opstr, usecs) ∷ ops) s = incr_each ops (incr_op_stats opstr usecs s)

abbrev pub occurrences : List ℕ → List (List ℕ × ℕ) → ℕ
occurrences opstr [] = 0
occurrences opstr ((k, _) ∷ ops) =
    let rest = occurrences opstr ops in if bytes_eq k opstr then suc rest else rest

-- What the map says of an operation's calls.
abbrev pub calls_of : Option OpStats → ℕ
calls_of none = 0
calls_of (some o) = o.calls

incr_op_stats-calls :
    (k opstr : List ℕ) (usecs : ℕ) (s : CmdStats)
    → calls_of (find opstr (incr_op_stats k usecs s).opmap) ≡ (
        if bytes_eq k opstr
        then add_int64 (calls_of (find opstr s.opmap)) 1
        else calls_of (find opstr s.opmap))
unfolding incr_op_stats get_op_stats
incr_op_stats-calls k opstr usecs s = elim (Option-cases (find k s.opmap)) [
  | inl new ↦
      let first : OpStats = record { calls = add_int64 0 1; usecs = add_int64 0 usecs } in
      ground (
        arith,
        find-put k opstr first (put k no_calls s.opmap),
        find-put k opstr no_calls s.opmap,
        same_find k opstr s.opmap,
      )
  | inr (o, known) ↦
      let next : OpStats = record {
        calls = add_int64 o.calls 1;
        usecs = add_int64 o.usecs usecs;
      } in
      ground (arith, find-put k opstr next s.opmap, same_find k opstr s.opmap)
]

incr_op_stats-requests :
    (k : List ℕ) (usecs : ℕ) (s : CmdStats)
    → (incr_op_stats k usecs s).requests ≡ add_int64 s.requests 1
unfolding incr_op_stats get_op_stats
incr_op_stats-requests k usecs s = elim (Option-cases (find k s.opmap)) [
  | inl new ↦ ground arith
  | inr (o, known) ↦ ground arith
]

-- As long as they do not overflow: after some calls, the number of requests has grown by the number of
-- calls, and the number of calls of each operation by how often it was among them.
pub incr_each-counts :
    (ops : List (List ℕ × ℕ)) (opstr : List ℕ) (s : CmdStats)
    → s.requests + length ops < 9_223_372_036_854_775_808
    → calls_of (find opstr s.opmap) + length ops < 9_223_372_036_854_775_808
    → ((incr_each ops s).requests ≡ s.requests + length ops)
      × (calls_of (find opstr (incr_each ops s).opmap)
          ≡ calls_of (find opstr s.opmap) + occurrences opstr ops)
incr_each-counts [] opstr s few fewer = (omega arith, omega arith)
incr_each-counts ((k, usecs) ∷ ops) opstr s few fewer =
    let t = incr_op_stats k usecs s in
    let total : t.requests ≡ s.requests + 1 = omega (arith, incr_op_stats-requests k usecs s) in
    let counted : calls_of (find opstr t.opmap) ≡ (
        if bytes_eq k opstr
        then calls_of (find opstr s.opmap) + 1
        else calls_of (find opstr s.opmap)) =
      ground (arith, incr_op_stats-calls k opstr usecs s) in
    let (a, b) = incr_each-counts ops opstr t (omega (arith, total)) (ground (arith, counted)) in
    (omega (arith, a, total), ground (arith, b, counted))
