-- ===== src/Thrift/Binary.antt =====
-- The strict binary encoding, as one protocol that meets the laws.
use rpc_proxy.Prelude.{
  ℕ, ◌+◌, ◌<◌, ◌≡◌, refl, Option, none, some, List, [], ◌∷◌, ◌++◌, length, take, drop, arith,
  take_exact, drop_exact, length-append, if◌then◌else◌, leb, le→leb, ap,
}
use mathlib.Core.List.{append_assoc}
use rpc_proxy.Errors.{Error, bad_message}
use rpc_proxy.Framing.{put_uint32, get_uint32}
use rpc_proxy.Thrift.{MessageBegin, Protocol, IsHeader}
use rpc_proxy.Framing.RoundTrip.{get_uint32-put_uint32, length-put_uint32}

get_uint32_front :
    (n : ℕ) (rest : List ℕ) → n < 4_294_967_296 → get_uint32 (put_uint32 n ++ rest) ≡ n
unfolding put_uint32 get_uint32
get_uint32_front n rest h = omega arith

abbrev pub write : List ℕ → ℕ → ℕ → List ℕ
write name type_id seq_id =
    128 ∷ 1 ∷ 0 ∷ type_id ∷ (put_uint32 (length name) ++ (name ++ put_uint32 seq_id))

abbrev pub no_message : MessageBegin × Option Error
no_message = (record { name = []; type_id = 0; seq_id = 0 }, some (bad_message 0))

abbrev pub read_name : ℕ → ℕ → List ℕ → MessageBegin × Option Error
read_name type_id size rest =
    if leb (size + 4) (length rest)
    then (
      record { name = take size rest; type_id = type_id; seq_id = get_uint32 (drop size rest) },
      none,
    )
    else no_message

abbrev pub read : List ℕ → MessageBegin × Option Error
read (a ∷ b ∷ c ∷ d ∷ e ∷ f ∷ g ∷ h ∷ rest) = read_name d (get_uint32 (e ∷ f ∷ g ∷ h ∷ [])) rest
read _ = no_message

pub length_write :
    (name : List ℕ) (type_id seq_id : ℕ) → length (write name type_id seq_id) ≡ length name + 12
length_write name type_id seq_id = omega (
  arith,
  length-append (put_uint32 (length name)) (name ++ put_uint32 seq_id),
  length-append name (put_uint32 seq_id),
  length-put_uint32 (length name),
  length-put_uint32 seq_id,
)

read_name-append :
    (name : List ℕ) (type_id seq_id : ℕ) (rest : List ℕ)
    → seq_id < 4_294_967_296
    → read_name type_id (length name) (name ++ (put_uint32 seq_id ++ rest))
      ≡ (record { name = name; type_id = type_id; seq_id = seq_id }, none)
read_name-append name type_id seq_id rest h = rw (
  take_exact name (put_uint32 seq_id ++ rest) (length name) refl,
  drop_exact name (put_uint32 seq_id ++ rest) (length name) refl,
  get_uint32_front seq_id rest h,
  le→leb (length name + 4) (length (name ++ (put_uint32 seq_id ++ rest))) (
      omega (
        arith,
        length-append name (put_uint32 seq_id ++ rest),
        length-append (put_uint32 seq_id) rest,
        length-put_uint32 seq_id,
      )),
)

read_size :
    (d n : ℕ) (rest : List ℕ)
    → n < 4_294_967_296
    → read (128 ∷ 1 ∷ 0 ∷ d ∷ (put_uint32 n ++ rest)) ≡ read_name d n rest
unfolding put_uint32 get_uint32
read_size d n rest h = ap (λ k. read_name d k rest) (get_uint32-put_uint32 n h)

pub read-write :
    (name : List ℕ) (type_id seq_id : ℕ) (rest : List ℕ)
    → IsHeader name type_id seq_id
    → read (write name type_id seq_id ++ rest)
      ≡ (record { name = name; type_id = type_id; seq_id = seq_id }, none)
read-write name type_id seq_id rest h = rw (
  append_assoc (put_uint32 (length name)) (name ++ put_uint32 seq_id) rest,
  append_assoc name (put_uint32 seq_id) rest,
  read_size type_id (length name) (name ++ (put_uint32 seq_id ++ rest)) (omega arith),
  read_name-append name type_id seq_id rest h.2,
)

abbrev pub binary : Protocol
binary = record {
  write_message_begin = write;
  read_message_begin = read;
  length_write = length_write;
  read-write = read-write;
}
