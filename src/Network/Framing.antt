-- ===== src/Network/Framing.antt =====
-- The framing of haven/network.py: `_send_frame`, `_recv_exact` and `_recv_frame`.
pub mod RoundTrip
use haven_e2e_messenger.Prelude.{
  ℕ, zero, suc, ◌+◌, ◌-◌, ◌*◌, ◌/◌, ◌%◌, ◌^◌, Bytes, Bool, List, [], ◌∷◌, ◌++◌, length, take, drop,
  if◌then◌else◌, ltb, leb,
}
use haven_e2e_messenger.Prelude.Errors.{Exn, Result, ok, err, struct_error, connection_error, ◌>>=◌}
use haven_e2e_messenger.Crypto.Keys.{from_big_endian}

-- The bytes that a socket is yet to give, in the pieces in which they arrive; an empty piece, or none
-- left, is the end of the stream.
abbrev pub Stream : Type 0
Stream = List Bytes

abbrev pub u32_mod : ℕ
u32_mod = 2 ^ 32

-- `struct.pack(">I", n)`
unfoldable pub pack_u32 : ℕ → Result Bytes
pack_u32 n =
    if ltb n u32_mod
    then ok ((n / 2 ^ 24 % 256) ∷ (n / 2 ^ 16 % 256) ∷ (n / 2 ^ 8 % 256) ∷ (n % 256) ∷ [])
    else err struct_error

-- `_send_frame`: what `sendall` gets, for the encoded JSON.
unfoldable pub send_frame : Bytes → Result Bytes
send_frame payload = pack_u32 (length payload) >>= λ header. ok (header ++ payload)

-- `sock.recv(n)`: at most n bytes of the next piece.
abbrev pub recv : ℕ → Stream → Bytes × Stream
recv n [] = ([], [])
recv n (piece ∷ stream) =
    if leb (length piece) n then (piece, stream) else (take n piece, drop n piece ∷ stream)

-- The loop of `_recv_exact`, with `fuel` turns left; one turn for each byte is enough.
unfoldable pub recv_loop : ℕ → Bytes → ℕ → Stream → Result (Bytes × Stream)
recv_loop fuel buf zero stream = ok (buf, stream)
recv_loop zero buf (suc more) stream = err connection_error
recv_loop (suc fuel) buf (suc more) stream =
    let (chunk, stream') = recv (suc more) stream in
    elim chunk [
      | [] ↦ err connection_error
      | b ∷ bytes ↦ recv_loop fuel (buf ++ (b ∷ bytes)) (suc more - length (b ∷ bytes)) stream'
    ]

-- `_recv_exact`
unfoldable pub recv_exact : ℕ → Stream → Result (Bytes × Stream)
unfolding recv_loop
recv_exact n stream = recv_loop n [] n stream

-- `_recv_frame`, up to the JSON text.
unfoldable pub recv_frame : Stream → Result (Bytes × Stream)
unfolding from_big_endian
recv_frame stream = do
  (header, stream') ← recv_exact 4 stream
  recv_exact (from_big_endian 0 header) stream'
