-- ===== src/Ws/Decode.antt =====
-- `decode_websocket_frame` of src/web_server/websockets.tcc: the payload is unmasked in place, from
-- behind the header to the front of the same vector. `char` values are the bytes they hold.
pub mod Unmask
pub mod RoundTrip
use liburing_server.Prelude.{
  ℕ, zero, suc, ◌+◌, ◌-◌, ◌%◌, Bool, not, List, [], ◌∷◌, length, take, get_elem?, set, Outcome, ok,
  access, ◌>>=◌, if◌then◌else◌, ◌==◌, bit_and, bit_xor, ltb, undefined, ◌^◌,
}

-- The first of the returned pair: -1, -3, 3, 2, -2 and 1 in the source.
pub data FrameCode : Type 0 where
  unmasked close pong ping partial final : FrameCode

-- `for(int i = 6+offset; i < data.size(); i++)`, with the rounds left, `i` and the header's size; `i++` at the
-- largest int is undefined.
unfoldable pub unmask_loop : ℕ → ℕ → ℕ → List ℕ → List ℕ → Outcome (List ℕ)
unmask_loop zero i header masking_key frame = ok frame
unmask_loop (suc rounds) i header masking_key frame = do
  byte ← access (get_elem? frame i)
  key ← access (get_elem? masking_key ((i - header) % 4))
  let rest =
      unmask_loop rounds (i + 1) header masking_key (set frame (i - header) (bit_xor byte key))
  if ltb (i + 1) (2 ^ 31) then rest else undefined

-- The size of the extended length. The length itself is computed in the source and not used.
abbrev pub extended_offset : ℕ → ℕ
extended_offset length_field =
    if length_field == 126 then 2 else if length_field == 127 then 8 else 0

-- Reads the key behind the header, unmasks, and drops the header's size at the end.
unfoldable pub unmask_frame : List ℕ → ℕ → Outcome (List ℕ)
unmask_frame frame offset = do
  k0 ← access (get_elem? frame (2 + offset))
  k1 ← access (get_elem? frame (3 + offset))
  k2 ← access (get_elem? frame (4 + offset))
  k3 ← access (get_elem? frame (5 + offset))
  let header = 6 + offset
  done ← unmask_loop (length frame - header) header header (k0 ∷ k1 ∷ k2 ∷ k3 ∷ []) frame
  ok (take (length frame - header) done)

abbrev pub payload_code : Bool → ℕ → FrameCode
payload_code fin opcode = if opcode == 0x09 then ping else if not fin then partial else final

-- A control frame that is answered by its code alone is not unmasked.
unfoldable pub decode_checked : List ℕ → Bool → ℕ → Bool → ℕ → Outcome (FrameCode × List ℕ)
decode_checked frame fin opcode mask length_field =
    if not mask
    then ok (unmasked, [])
    else if opcode == 0x8
    then ok (close, [])
    else if opcode == 0xA
    then ok (pong, [])
    else unmask_frame frame (extended_offset length_field)
      >>= (λ payload. ok (payload_code fin opcode, payload))

unfoldable pub decode_websocket_frame : List ℕ → Outcome (FrameCode × List ℕ)
decode_websocket_frame frame = do
  first ← access (get_elem? frame 0)
  second ← access (get_elem? frame 1)
  let fin = bit_and first 0x80 == 0x80
  let opcode = bit_and first 0xf
  let mask = bit_and second 0x80 == 0x80
  decode_checked frame fin opcode mask (bit_and second 0x7f)
