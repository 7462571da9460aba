-- ===== src/Framing/Input.antt =====
-- The reading half of a connection: the bytes that still arrive, then an error.
use rpc_proxy.Prelude.{
  ℕ, ◌≡◌, List, [], ◌++◌, length, take, drop, leb, ◌==◌, if◌then◌else◌, arith, le→leb, take_exact,
  drop_exact, length-append,
}
use rpc_proxy.Errors.{Error, eof, unexpected_eof, Result, ok, err}

pub record Stream : Type 0 where
  pub bytes : List ℕ
  pub end : Error

-- The error of io.ReadFull when the stream ends after n > 0 bytes.
abbrev pub cut_short : Error → Error
cut_short eof = unexpected_eof
cut_short e = e

-- io.ReadFull of n bytes: it blocks until they are there or the stream has ended.
unfoldable pub read_full : ℕ → Stream → Result (List ℕ) × Stream
read_full n s =
    if leb n (length s.bytes)
    then (ok (take n s.bytes), record s { bytes = drop n s.bytes })
    else (err (if length s.bytes == 0 then s.end else cut_short s.end), record s { bytes = [] })

pub read_full-append :
    (n : ℕ) (xs rest : List ℕ) (e : Error)
    → length xs ≡ n
    → read_full n (record { bytes = xs ++ rest; end = e })
      ≡ (ok xs, record { bytes = rest; end = e })
unfolding read_full
read_full-append n xs rest e h = ground (
  arith,
  le→leb n (length (xs ++ rest)),
  length-append {0} xs rest,
  take_exact {0} xs rest n,
  drop_exact {0} xs rest n,
)
