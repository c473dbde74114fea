-- ===== src/Ws/Decode/RoundTrip.antt =====
-- Frames of a client, as RFC 6455, section 5.2, lays them out, measured and decoded by the code.
use liburing_server.Prelude.{
  ℕ, suc, ◌+◌, ◌%◌, ◌≤◌, ◌<◌, ◌^◌, ◌≡◌, ◌≢◌, sym, ap, ◌∙◌, arith, Bool, true, false, List, [], ◌∷◌,
  ◌++◌, length, get_elem?, All, ok, bit_and, if◌then◌else◌, ◌==◌, ltb, lt→ltb, le→not-ltb,
  ne→not-==, eq→==, some, append_assoc, length-append,
}
use native.Mathlib.Decide.{dec_lt}
use liburing_server.Prelude.Bits.{top_bit, low_four, low_seven}
use liburing_server.Ws.Bytes.{IsByte, bytes_le}
use liburing_server.Ws.Frame.{get_ws_frame_length, u64_mod}
use liburing_server.Ws.Frame.Length.{masked_size, header_size, get_ws_frame_length_lem}
use liburing_server.Ws.Decode.{
  decode_websocket_frame, decode_checked, payload_code, unmask_frame, extended_offset, close,
}
use liburing_server.Ws.Decode.Unmask.{
  apply_mask, length-apply_mask, apply_mask_twice, unmask_frame_lem, mask_key,
}

abbrev pub first_byte : Bool → ℕ → ℕ
first_byte fin opcode = if fin then 128 + opcode else opcode

-- The payload is masked, and the length is the shortest form.
unfoldable pub client_frame : Bool → ℕ → List ℕ → List ℕ → List ℕ
client_frame fin opcode key payload =
    first_byte fin opcode ∷ (masked_size (length payload) ++ (key ++ apply_mask key 0 payload))

length_field : ℕ → ℕ
length_field n = if ltb n 126 then n else if ltb n 65536 then 126 else 127

second_byte :
    (n : ℕ) (rest : List ℕ) → get_elem? (masked_size n ++ rest) 0 ≡ some (128 + length_field n)
unfolding length_field
second_byte n rest = elim (dec_lt n 126) [
  | yes p ↦ rw (lt→ltb n 126 p)
  | no p ↦ elim (dec_lt n 65536) [
    | yes q ↦ rw (le→not-ltb n 126 (omega arith), lt→ltb n 65536 q)
    | no q ↦ rw (le→not-ltb n 126 (omega arith), le→not-ltb n 65536 (omega arith))
  ]
]

length_field-lt : (n : ℕ) → length_field n < 128
unfolding length_field
length_field-lt n = ground arith

flag_set : (n : ℕ) → n < 128 → (bit_and (128 + n) 0x80 == 0x80) ≡ true
flag_set n h = eq→== _ _ (top_bit (128 + n) (omega arith) ∙ omega arith)

fin_bit :
    (fin : Bool) (opcode : ℕ) → opcode < 16 → (bit_and (first_byte fin opcode) 0x80 == 0x80) ≡ fin
fin_bit true opcode h = flag_set opcode (omega arith)
fin_bit false opcode h = ne→not-== _ _ (λ e. absurd (omega (arith, top_bit opcode (omega arith))))

opcode_bits : (fin : Bool) (opcode : ℕ) → opcode < 16 → bit_and (first_byte fin opcode) 0xf ≡ opcode
opcode_bits true opcode h = low_four (128 + opcode) (omega arith) ∙ omega arith
opcode_bits false opcode h = low_four opcode (omega arith) ∙ omega arith

-- The parts of the code's first look at a frame.
header_fields :
    (fin : Bool) (opcode n : ℕ) (rest : List ℕ)
    → opcode < 16
    → decode_websocket_frame (first_byte fin opcode ∷ (masked_size n ++ rest))
      ≡ decode_checked
          (first_byte fin opcode ∷ (masked_size n ++ rest))
          fin
          opcode
          true
          (length_field n)
unfolding decode_websocket_frame
header_fields fin opcode n rest h = rw (
  second_byte n rest,
  fin_bit fin opcode h,
  opcode_bits fin opcode h,
  flag_set (length_field n) (length_field-lt n),
  low_seven (128 + length_field n) (omega (arith, length_field-lt n)),
  field,
)
  where
    field : (128 + length_field n) % 128 ≡ length_field n
    field = omega (arith, length_field-lt n)

length-masked_size : (n : ℕ) → suc (length (masked_size n)) ≡ 2 + extended_offset (length_field n)
unfolding length_field bytes_le
length-masked_size n = ground arith

masked_size-header : (n : ℕ) → length (masked_size n) + 5 ≡ header_size n
unfolding bytes_le
masked_size-header n = ground arith

header_size-bound : (n : ℕ) → header_size n ≤ 14
header_size-bound n = ground arith

-- The size of a client frame, by parts.
pub length-client_frame :
    (fin : Bool) (opcode k0 k1 k2 k3 : ℕ) (payload : List ℕ)
    → length (client_frame fin opcode (mask_key k0 k1 k2 k3) payload)
      ≡ length payload + header_size (length payload)
unfolding client_frame
length-client_frame fin opcode k0 k1 k2 k3 payload = omega (
  arith,
  length-append (masked_size (length payload)) (key ++ apply_mask key 0 payload),
  length-apply_mask key 0 payload,
  masked_size-header (length payload),
)
  where
    key : List ℕ
    key = mask_key k0 k1 k2 k3

-- The length that the code reads from a client frame is the length of the frame, whatever follows
-- it, for payloads more than 14 bytes below 2^64.
pub get_ws_frame_length-client_frame :
    (fin : Bool) (opcode k0 k1 k2 k3 : ℕ) (payload rest : List ℕ)
    → length payload + 14 < u64_mod
    → get_ws_frame_length (client_frame fin opcode (mask_key k0 k1 k2 k3) payload ++ rest)
      ≡ ok (length (client_frame fin opcode (mask_key k0 k1 k2 k3) payload))
get_ws_frame_length-client_frame fin opcode k0 k1 k2 k3 payload rest h =
    ap get_ws_frame_length shape
    ∙ get_ws_frame_length_lem _ (length payload) _ (omega arith)
    ∙ ap ok (fits ∙ sym (length-client_frame fin opcode k0 k1 k2 k3 payload))
  where
    key : List ℕ
    key = mask_key k0 k1 k2 k3

    shape :
        client_frame fin opcode key payload ++ rest
        ≡ first_byte fin opcode
          ∷ (masked_size (length payload) ++ ((key ++ apply_mask key 0 payload) ++ rest))
    shape =
        unfold client_frame in
        ap (◌∷◌ (first_byte fin opcode)) (append_assoc (masked_size (length payload)) _ rest)

    fits :
        (length payload + header_size (length payload)) % u64_mod
        ≡ length payload + header_size (length payload)
    fits = ground arith

module _ (fin : Bool) (opcode k0 k1 k2 k3 : ℕ) (payload : List ℕ) where
  abbrev key : List ℕ
  key = mask_key k0 k1 k2 k3

  abbrev body : List ℕ
  body = key ++ apply_mask key 0 payload

  abbrev head : ℕ → List ℕ
  head op = first_byte fin op ∷ masked_size (length payload)

  -- A close frame of a client is known by its code, and its payload is dropped.
  pub decode-client_frame_close :
      decode_websocket_frame (client_frame fin 0x8 key payload) ≡ ok (close, [])
  unfolding client_frame decode_checked
  decode-client_frame_close = header_fields fin 0x8 (length payload) body (omega arith)

  unmasked_body :
      length payload + 14 < 2 ^ 31
      → unmask_frame (head opcode ++ body) (extended_offset (length_field (length payload)))
        ≡ ok (apply_mask key 0 (apply_mask key 0 payload))
  unmasked_body fits =
      unmask_frame_lem k0 k1 k2 k3 (head opcode) (apply_mask key 0 payload)
        (extended_offset (length_field (length payload))) (length-masked_size (length payload))
        (omega (
          arith,
          length-apply_mask key 0 payload,
          masked_size-header (length payload),
          length-masked_size (length payload),
          header_size-bound (length payload),
        ))

  checked :
      opcode ≢ 0x8
      → opcode ≢ 0xA
      → All IsByte key
      → All IsByte payload
      → length payload + 14 < 2 ^ 31
      → decode_checked (head opcode ++ body) fin opcode true (length_field (length payload))
        ≡ ok (payload_code fin opcode, payload)
  unfolding decode_checked
  checked h8 hA hk hp fits = rw (
    ne→not-== opcode 0x8 h8,
    ne→not-== opcode 0xA hA,
    unmasked_body fits,
    apply_mask_twice key 0 payload hk hp,
  )

  -- Decoding a client frame of an opcode below 16 but close and pong, masked with a key of
  -- bytes, with a payload more than 14 bytes below 2^31, gives the payload of bytes that the
  -- client masked, with the code of its opcode and its final bit.
  pub decode-client_frame :
      opcode < 16
      → opcode ≢ 0x8
      → opcode ≢ 0xA
      → All IsByte key
      → All IsByte payload
      → length payload + 14 < 2 ^ 31
      → decode_websocket_frame (client_frame fin opcode key payload)
        ≡ ok (payload_code fin opcode, payload)
  unfolding client_frame
  decode-client_frame small h8 hA hk hp fits =
      header_fields fin opcode (length payload) body small ∙ checked h8 hA hk hp fits
