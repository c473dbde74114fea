-- ===== src/Ws/Frame/Laws.antt =====
-- The frames that `make_ws_frame` builds, and what `get_ws_frame_length` reads.
use liburing_server.Prelude.{
  ℕ, zero, suc, ◌+◌, ◌%◌, ◌^◌, ◌<◌, ◌≤◌, ◌≡◌, refl, sym, ap, ◌∙◌, arith, List, [], ◌∷◌, ◌++◌,
  length, set-append, replicate, if◌then◌else◌, ◌==◌, ltb, bit_or, lt→ltb, le→not-ltb, ne→not-==,
  ◌≢◌, reverse, length-append, length-replicate, append-nil, append_assoc,
}
use Prim.Native.Nat.add
use native.Mathlib.Decide.{dec_lt}
use liburing_server.Ws.Bytes.{bytes_le, value_le, swap_bytes, bytes_le-swap_bytes}
use liburing_server.Ws.Frame.{
  Opcode, opcode_value, make_ws_frame, write_bytes, sized_frame, u64_mod, frame_offset, text_frame,
  binary_frame, close_connection, ping, pong,
}

-- RFC 6455, section 5.2: the header of an unmasked final frame.
abbrev pub size_field : ℕ → List ℕ
size_field n =
    if ltb n 126
    then n ∷ []
    else if ltb n 65536
    then 126 ∷ reverse (bytes_le 2 n)
    else 127 ∷ reverse (bytes_le 8 n)

abbrev pub server_frame : List ℕ → Opcode → List ℕ
server_frame msg opcode = (128 + opcode_value opcode) ∷ (size_field (length msg) ++ msg)

pub write_bytes_lem :
    (front mid back bs : List ℕ)
    → length bs ≡ length mid
    → write_bytes (front ++ (mid ++ back)) (length front) bs ≡ front ++ (bs ++ back)
unfolding write_bytes
write_bytes_lem front [] back [] h = refl
write_bytes_lem front [] back (b ∷ bs) h = absurd (omega arith)
write_bytes_lem front (c ∷ mid) back [] h = absurd (omega arith)
write_bytes_lem front (c ∷ mid) back (b ∷ bs) h =
    rw
      (
        set-append front c b (mid ++ back),
        sym (append_assoc front (b ∷ []) (mid ++ back)),
        sym (length-append front (b ∷ [])),
      )
      (write_bytes_lem (front ++ (b ∷ [])) mid back bs (omega arith)
        ∙ append_assoc front (b ∷ []) (bs ++ back))

pub replicate-add : (m n : ℕ) → replicate {A = ℕ} (m + n) 0 ≡ replicate m 0 ++ replicate n 0
replicate-add zero n = ap (λ k. replicate {A = ℕ} k 0) (omega arith)
replicate-add (suc m) n =
    ap (λ k. replicate {A = ℕ} k 0) (add.suc m n) ∙ ap (◌∷◌ 0) (replicate-add m n)

-- The payload goes behind the header.
write_payload :
    (head msg : List ℕ)
    → write_bytes (head ++ replicate (length msg) 0) (length head) msg ≡ head ++ msg
write_payload head msg =
    ap (λ l. write_bytes (head ++ l) (length head) msg)
      (sym (append-nil (replicate (length msg) 0)))
    ∙ write_bytes_lem head (replicate (length msg) 0) [] msg (sym (length-replicate (length msg) 0))
    ∙ ap (◌++◌ head) (append-nil msg)

flags : (opcode : Opcode) → bit_or 128 (opcode_value opcode) ≡ 128 + opcode_value opcode
flags text_frame = refl
flags binary_frame = refl
flags close_connection = refl
flags ping = refl
flags pong = refl

swapped_nonzero : (n : ℕ) → 126 ≤ n → n < 65536 → swap_bytes 2 n ≢ 0
unfolding swap_bytes bytes_le value_le
swapped_nonzero n lo hi e = omega arith

sized_frame_short :
    (n : ℕ) (opcode : Opcode)
    → n < 126
    → sized_frame n opcode ≡ ((128 + opcode_value opcode) ∷ size_field n) ++ replicate n 0
unfolding sized_frame
sized_frame_short n opcode h = rw (lt→ltb n 126 h, replicate-add 2 n, flags opcode)

sized_frame_middle :
    (n : ℕ) (opcode : Opcode)
    → 126 ≤ n
    → n < 65536
    → sized_frame n opcode ≡ ((128 + opcode_value opcode) ∷ size_field n) ++ replicate n 0
unfolding sized_frame
sized_frame_middle n opcode h g =
    rw
      (
        le→not-ltb n 126 h,
        lt→ltb n 65536 g,
        replicate-add 4 n,
        flags opcode,
        small,
        ne→not-== _ _ (swapped_nonzero n h g),
      )
      (ap (λ l. (128 + opcode_value opcode) ∷ 126 ∷ (l ++ replicate n 0)) (bytes_le-swap_bytes 2 n))
  where
    small : n % 2 ^ 16 ≡ n
    small = omega arith

sized_frame_long :
    (n : ℕ) (opcode : Opcode)
    → 65536 ≤ n
    → n < 2 ^ 63
    → sized_frame n opcode ≡ ((128 + opcode_value opcode) ∷ size_field n) ++ replicate n 0
unfolding sized_frame
sized_frame_long n opcode h g =
    rw
      (
        le→not-ltb n 126 (omega arith),
        le→not-ltb n 65536 h,
        replicate-add 10 n,
        flags opcode,
        small,
      )
      (ap (λ l. (128 + opcode_value opcode) ∷ 127 ∷ (l ++ replicate n 0)) (bytes_le-swap_bytes 8 n))
  where
    small : n % u64_mod ≡ n
    small = omega arith

sized_frame_lem :
    (n : ℕ) (opcode : Opcode)
    → n < 2 ^ 63
    → sized_frame n opcode ≡ ((128 + opcode_value opcode) ∷ size_field n) ++ replicate n 0
sized_frame_lem n opcode h = elim (dec_lt n 126) [
  | yes a ↦ sized_frame_short n opcode a
  | no a ↦ elim (dec_lt n 65536) [
    | yes b ↦ sized_frame_middle n opcode (omega arith) b
    | no b ↦ sized_frame_long n opcode (omega arith) h
  ]
]

length-size_field : (n : ℕ) → suc (length (size_field n)) ≡ frame_offset n
unfolding bytes_le
length-size_field n = ground arith

frame_offset_ge : (n : ℕ) → 2 ≤ frame_offset n
frame_offset_ge n = ground arith

filled :
    (msg head : List ℕ)
    → (if length (head ++ replicate (length msg) 0) == 2
        then head ++ replicate (length msg) 0
        else write_bytes (head ++ replicate (length msg) 0) (length head) msg)
      ≡ (if length (head ++ replicate (length msg) 0) == 2
          then head ++ replicate (length msg) 0
          else head ++ msg)
filled msg head = rw (write_payload head msg)

-- The early return is taken only with no payload.
early :
    (msg head : List ℕ)
    → 2 ≤ length head
    → (if length (head ++ replicate (length msg) 0) == 2
        then head ++ replicate (length msg) 0
        else head ++ msg)
      ≡ head ++ msg
early [] head h = ground arith
early (b ∷ bs) head h = rw (ne→not-== _ 2 longer)
  where
    longer : length (head ++ replicate (length (b ∷ bs)) 0) ≢ 2
    longer e = omega (
      arith,
      length-append head (replicate (length (b ∷ bs)) 0),
      length-replicate {A = ℕ} (length (b ∷ bs)) 0,
    )

-- The frame that the server builds for a message of below 2^63 bytes is the unmasked final frame
-- of RFC 6455: first byte, length field in 1, 3 or 9 bytes, message.
pub make_ws_frame_lem :
    (msg : List ℕ) (opcode : Opcode)
    → length msg < 2 ^ 63
    → make_ws_frame msg opcode ≡ server_frame msg opcode
unfolding make_ws_frame
make_ws_frame_lem msg opcode h =
    rw (sized_frame_lem (length msg) opcode h, sym (length-size_field (length msg)))
      (filled msg head ∙ early msg head two)
  where
    head : List ℕ
    head = (128 + opcode_value opcode) ∷ size_field (length msg)

    two : 2 ≤ length head
    two = omega (arith, length-size_field (length msg), frame_offset_ge (length msg))
