-- ===== src/Ws/Frame.antt =====
-- Frame headers: `get_ws_frame_length` and `make_ws_frame` of src/web_server/websockets.tcc.
-- A buffer is the list of the bytes that it owns; reading past them is undefined.
pub mod Laws
pub mod Length
use liburing_server.Prelude.{
  ℕ, ◌+◌, ◌%◌, ◌^◌, not, List, [], ◌∷◌, ◌++◌, length, take, drop, get_elem?, set, replicate,
  Outcome, ok, undefined, access, ◌>>=◌, if◌then◌else◌, ◌==◌, ltb, leb, bit_and, bit_or,
}
use liburing_server.Ws.Bytes.{bytes_le, swap_bytes, load_be}

-- The opcodes of header/web_server/common_structs_enums.h.
pub data Opcode : Type 0 where
  text_frame binary_frame close_connection ping pong : Opcode

abbrev pub opcode_value : Opcode → ℕ
opcode_value text_frame = 0x01
opcode_value binary_frame = 0x02
opcode_value close_connection = 0x08
opcode_value ping = 0x09
opcode_value pong = 0xA

abbrev pub u64_mod : ℕ
u64_mod = 2 ^ 64

-- `n` bytes that stand at an offset of a buffer.
unfoldable pub read_bytes : List ℕ → ℕ → ℕ → Outcome (List ℕ)
read_bytes buffer offset n =
    if leb (offset + n) (length buffer) then ok (take n (drop offset buffer)) else undefined

-- The two longer forms of the length: the bytes that hold it are counted too.
unfoldable pub extended_length : List ℕ → ℕ → Outcome ℕ
unfolding read_bytes
extended_length buffer packet_length =
    if packet_length == 126
    then read_bytes buffer 2 2 >>= (λ bs. ok (load_be bs + 2))
    else if packet_length == 127
    then read_bytes buffer 2 8 >>= (λ bs. ok ((load_be bs + 8) % u64_mod))
    else ok packet_length

-- The size of the whole frame that a buffer begins with, a `ulong`.
unfoldable pub get_ws_frame_length : List ℕ → Outcome ℕ
get_ws_frame_length buffer = do
  second ← access (get_elem? buffer 1)
  let packet_length = bit_and second 0x7f
  extended ← extended_length buffer packet_length
  ok ((extended + 6) % u64_mod)

-- Bytes copied over a buffer from an offset on.
unfoldable pub write_bytes : List ℕ → ℕ → List ℕ → List ℕ
write_bytes buffer offset [] = buffer
write_bytes buffer offset (b ∷ bs) = write_bytes (set buffer offset b) (offset + 1) bs

abbrev pub frame_offset : ℕ → ℕ
frame_offset msg_size = if ltb msg_size 126 then 2 else if ltb msg_size 65536 then 2 + 2 else 2 + 8

-- `htons` converts its argument to `ushort` first, and the result fits one.
abbrev pub payload_len_short : ℕ → ℕ
payload_len_short msg_size =
    if ltb msg_size 126
    then 0
    else if ltb msg_size 65536
    then swap_bytes 2 (msg_size % 2 ^ 16)
    else 0

abbrev pub payload_len_long : ℕ → ℕ
payload_len_long msg_size =
    if ltb msg_size 126
    then 0
    else if ltb msg_size 65536
    then 0
    else swap_bytes 8 (msg_size % u64_mod)

abbrev pub write_length : List ℕ → ℕ → List ℕ
write_length frame msg_size =
    if ltb msg_size 126
    then set frame 1 msg_size
    else if not (payload_len_short msg_size == 0)
    then write_bytes (set frame 1 126) 2 (bytes_le 2 (payload_len_short msg_size))
    else write_bytes (set frame 1 127) 2 (bytes_le 8 (payload_len_long msg_size))

-- The new buffer with its flags and its length set, before the payload is copied.
unfoldable pub sized_frame : ℕ → Opcode → List ℕ
unfolding write_bytes bytes_le swap_bytes
sized_frame msg_size opcode =
    write_length
      (set (replicate (frame_offset msg_size + msg_size) 0) 0 (bit_or 128 (opcode_value opcode)))
      msg_size

unfoldable pub make_ws_frame : List ℕ → Opcode → List ℕ
make_ws_frame packet_msg opcode =
    let frame = sized_frame (length packet_msg) opcode in
    if length frame == 2
    then frame
    else write_bytes frame (frame_offset (length packet_msg)) packet_msg
