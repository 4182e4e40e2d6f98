-- ===== src/Network/Framing/RoundTrip.antt =====
-- What one side frames in haven/network.py the other side reads, in whatever pieces it arrives.
use haven_e2e_messenger.Prelude.{
  ◌≡◌, refl, sym, ap, subst, ◌∙◌, ℕ, zero, suc, ◌+◌, ◌-◌, ◌/◌, ◌%◌, ◌^◌, ◌≤◌, ◌<◌, Bytes, true,
  false, [], ◌∷◌, ◌++◌, length, take, drop, leb, arith, Bool-cases, inl, inr, append-nil,
  append_assoc, take_within, take-append, drop-append, drop_within, take_beyond, drop_beyond,
  length-take, length-drop, length-append, All,
}
use haven_e2e_messenger.Prelude.Errors.{Result, ok, err, connection_error}
use haven_e2e_messenger.Crypto.Keys.{from_big_endian}
use haven_e2e_messenger.Network.Framing.{
  Stream, u32_mod, pack_u32, send_frame, recv, recv_loop, recv_exact, recv_frame,
}

-- The bytes of a stream, whatever its pieces.
abbrev pub joined : Stream → Bytes
joined [] = []
joined (piece ∷ stream) = piece ++ joined stream

-- No piece of the stream is its end.
abbrev pub IsOpen : Stream → Type 0
IsOpen = All (λ (piece : Bytes). 0 < length piece)

-- The first n bytes were read, and the rest is still to come.
abbrev pub HasRead : Bytes → ℕ → Stream → Result (Bytes × Stream) → Type 0
HasRead buf n stream result =
    (rest : Stream) × (result ≡ ok (buf ++ take n (joined stream), rest))
    × (joined rest ≡ drop n (joined stream))
    × IsOpen rest

HasRead-piece :
    (buf chunk : Bytes) (n k : ℕ) (stream : Stream) (r : Result (Bytes × Stream))
    → n ≡ length chunk + k
    → HasRead (buf ++ chunk) k stream r
    → HasRead buf n (chunk ∷ stream) r
HasRead-piece buf chunk n k stream r h (rest, got, left, whole) = (
  rest,
  got
      ∙ ap (λ b. ok (b, rest))
          (append_assoc buf chunk (take k (joined stream))
            ∙ ap (λ b. buf ++ b) (sym (take_beyond n k chunk (joined stream) h))),
  left ∙ sym (drop_beyond n k chunk (joined stream) h),
  whole,
)

-- The piece holds more than is wanted.
HasRead-part :
    (buf piece : Bytes) (n : ℕ) (stream : Stream)
    → n < length piece
    → IsOpen stream
    → HasRead buf n (piece ∷ stream) (ok (buf ++ take n piece, drop n piece ∷ stream))
HasRead-part buf piece n stream h whole = (
  drop n piece ∷ stream,
  ap (λ b. ok (buf ++ b, drop n piece ∷ stream))
      (sym (take_within n piece (joined stream) (omega arith))),
  sym (drop_within n piece (joined stream) (omega arith)),
  (omega (arith, length-drop n piece (omega arith)), whole),
)

-- What the loop does with what it received.
abbrev turn : ℕ → Bytes → ℕ → Bytes × Stream → Result (Bytes × Stream)
turn fuel buf n (chunk, stream) = elim chunk [
  | [] ↦ err connection_error
  | b ∷ bytes ↦ recv_loop fuel (buf ++ (b ∷ bytes)) (n - length (b ∷ bytes)) stream
]

recv_all :
    (n : ℕ) (piece : Bytes) (stream : Stream)
    → leb (length piece) n ≡ true
    → recv n (piece ∷ stream) ≡ (piece, stream)
recv_all n piece stream h = rw h refl

recv_part :
    (n : ℕ) (piece : Bytes) (stream : Stream)
    → leb (length piece) n ≡ false
    → recv n (piece ∷ stream) ≡ (take n piece, drop n piece ∷ stream)
recv_part n piece stream h = rw h refl

recv_loop-HasRead :
    (fuel : ℕ) (buf : Bytes) (n : ℕ) (stream : Stream)
    → n ≤ fuel
    → IsOpen stream
    → n ≤ length (joined stream)
    → HasRead buf n stream (recv_loop fuel buf n stream)
unfolding recv_loop
recv_loop-HasRead fuel buf zero stream fits whole enough =
    (stream, ap (λ b. ok (b, stream)) (sym (append-nil buf)), refl, whole)
recv_loop-HasRead zero buf (suc n) stream fits whole enough = absurd (omega arith)
recv_loop-HasRead (suc fuel) buf (suc n) [] fits whole enough = absurd (omega arith)
recv_loop-HasRead (suc fuel) buf (suc n) ([] ∷ stream) fits (bad, whole) enough =
    absurd (omega arith)
recv_loop-HasRead (suc fuel) buf (suc n) ((b ∷ piece) ∷ stream) fits (fine, whole) enough =
    elim (Bool-cases (leb (suc (length piece)) (suc n))) [
      | inl all_of_it ↦
          subst (λ r. HasRead buf (suc n) ((b ∷ piece) ∷ stream) (turn fuel buf (suc n) r))
            (sym (recv_all (suc n) (b ∷ piece) stream all_of_it))
            (HasRead-piece buf (b ∷ piece) (suc n) (suc n - suc (length piece)) stream
              (recv_loop fuel (buf ++ (b ∷ piece)) (suc n - suc (length piece)) stream)
              (ground arith)
              (recv_loop-HasRead fuel (buf ++ (b ∷ piece)) (suc n - suc (length piece)) stream
                (omega arith) whole (ground (arith, length-append piece (joined stream)))))
      | inr part ↦
          subst (λ r. HasRead buf (suc n) ((b ∷ piece) ∷ stream) (turn fuel buf (suc n) r))
            (sym (recv_part (suc n) (b ∷ piece) stream part))
            (let none_left : suc n - suc (length (take n piece)) ≡ 0 =
                ground (arith, length-take n piece) in
              subst
                (λ k.
                  HasRead buf (suc n) ((b ∷ piece) ∷ stream)
                    (recv_loop fuel (buf ++ (b ∷ take n piece)) k (drop n piece ∷ stream)))
                (sym none_left) (HasRead-part buf (b ∷ piece) (suc n) stream (ground arith) whole))
    ]

recv_exact-HasRead :
    (n : ℕ) (stream : Stream)
    → IsOpen stream
    → n ≤ length (joined stream)
    → HasRead [] n stream (recv_exact n stream)
unfolding recv_exact
recv_exact-HasRead n stream whole enough =
    recv_loop-HasRead n [] n stream (omega arith) whole enough

-- The four bytes of a length.
abbrev header_of : ℕ → Bytes
header_of n = (n / 2 ^ 24 % 256) ∷ (n / 2 ^ 16 % 256) ∷ (n / 2 ^ 8 % 256) ∷ (n % 256) ∷ []

from_big_endian-header_of : (n : ℕ) → n < u32_mod → from_big_endian 0 (header_of n) ≡ n
unfolding from_big_endian
from_big_endian-header_of n h = omega arith

-- A payload below 4 GiB is framed, and whatever the pieces in which the frame and what comes after it
-- arrive, reading a frame returns that payload and leaves what comes after it to be read. Condition: no
-- piece is empty, which would be the end of the stream.
pub recv_frame-send_frame :
    (payload later : Bytes)
    → length payload < u32_mod
    → (framed : Bytes) × (send_frame payload ≡ ok framed)
      × ((stream : Stream)
          → IsOpen stream
          → joined stream ≡ framed ++ later
          → (rest : Stream) × (recv_frame stream ≡ ok (payload, rest)) × (joined rest ≡ later))
unfolding send_frame recv_frame pack_u32
recv_frame-send_frame payload later short = (
  header_of (length payload) ++ payload,
  ground arith,
  λ stream whole arrives.
      let size = length payload in
      let long : 4 ≤ length (joined stream) = rw arrives (omega arith) in
      let (s1, got, left, whole1) = recv_exact-HasRead 4 stream whole long in
      let header = got ∙ ap (λ j. ok (take 4 j, s1)) arrives in
      let here = left ∙ ap (drop 4) arrives in
      let all_there : size ≤ length (joined s1) =
        rw here (omega (arith, length-append payload later)) in
      let (rest, got', left', whole2) = recv_exact-HasRead size s1 whole1 all_there in
      (
        rest,
        rw header (
            ap (λ n. recv_exact n s1) (from_big_endian-header_of size short)
            ∙ got'
            ∙ ap (λ j. ok (take size j, rest)) here
            ∙ ap (λ b. ok (b, rest)) (take-append payload later)),
        left' ∙ ap (drop size) here ∙ drop-append payload later,
      ),
)
