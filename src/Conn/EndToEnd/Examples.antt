-- ===== src/Conn/EndToEnd/Examples.antt =====
-- Request 1, a client's call `geo:ne` under number 77, over the connection `caller` of a proxy and the
-- connection `worker` of a load balancer.
use rpc_proxy.Prelude.{ℕ, ◌≡◌, refl, Option, none, some, List, [], ◌∷◌, ◌++◌, arith, update}
use rpc_proxy.Errors.{Error}
use rpc_proxy.Thrift.Binary.{binary, write}
use rpc_proxy.Framing
use rpc_proxy.Framing.{put_uint32, get_uint32}
use rpc_proxy.Framing.Output.{memory, Memory}
use rpc_proxy.Request.{new_request, replace_seq_id, overwrite, bytes_of, split_name}
use rpc_proxy.Request.Names.{full_name}
use rpc_proxy.Request.Hops.{from_client, from_proxy}
use rpc_proxy.Conn.{Conn, send}
use rpc_proxy.Conn.Proxy
use rpc_proxy.Conn.LoadBalancer
use rpc_proxy.Conn.Hops.{Returned}
use rpc_proxy.Conn.Examples.{in_hand}
use rpc_proxy.Conn.EndToEnd.{end_to_end}

abbrev geo : List ℕ
geo = b'g' ∷ b'e' ∷ b'o' ∷ []

abbrev near : List ℕ
near = b'n' ∷ b'e' ∷ []

abbrev body : List ℕ
body = 11 ∷ 0 ∷ []

abbrev caller : Conn Memory
caller = record in_hand {
  requests =
      update in_hand.requests 1 (from_client binary (write (full_name geo near) 1 77 ++ body) 0);
}

abbrev conn_of : Option (Conn Memory × Option Error) → Conn Memory
conn_of none = in_hand
conn_of (some (t, _)) = t

abbrev called : Conn Memory
called = conn_of (send memory binary 60 70 1 caller)

abbrev worker : Conn Memory
worker = record in_hand {
  current_seq_id = 12;
  requests =
      update in_hand.requests 1 (from_proxy binary geo (bytes_of (called.requests 1).payload) 0);
}

abbrev working : Conn Memory
working = conn_of (send memory binary 61 71 1 worker)

call_written : send memory binary 60 70 1 caller ≡ some (called, none)
unfolding send replace_seq_id new_request split_name overwrite put_uint32 get_uint32
    Framing.flush_buffer Framing.length_written Framing.write Framing.data_written
    Framing.flush_transport Framing.flushed
call_written = refl

work_written : send memory binary 61 71 1 worker ≡ some (working, none)
unfolding send replace_seq_id new_request split_name overwrite put_uint32 get_uint32
    Framing.flush_buffer Framing.length_written Framing.write Framing.data_written
    Framing.flush_transport Framing.flushed
work_written = refl

end_to_end_example :
    ((working.requests 1).payload ≡ some (write near 1 12 ++ body))
    × (w : Conn Memory) × (x : Conn Memory) × (LoadBalancer.set_response binary 62
          (write near 2 12 ++ (0 ∷ []))
          working
        ≡ some (w, none))
    × (Proxy.set_response binary 63 (bytes_of (w.requests 1).response_data) called ≡ some (x, none))
    × Returned binary near 2 8 1 0 (0 ∷ []) w
    × Returned binary near 2 77 1 0 (0 ∷ []) x
end_to_end_example =
    end_to_end memory memory binary geo near 1 77 body (omega arith) (omega arith) (omega arith)
      (omega arith) geo 1 1 0 0 60 70 61 71 62 63 2 (0 ∷ []) caller called worker working
      (omega arith) (omega arith) refl call_written refl work_written (omega arith)
      (λ h. omega (arith, h)) (λ h. omega (arith, h))
