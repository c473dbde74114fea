-- ===== src/Ws/Reassembly.antt =====
-- The receiving side of `get_ws_frames` (src/web_server/websockets.tcc): a stream of reads is cut
-- into frames. The buffer of a read is all the memory behind its pointer, and may be longer than
-- what was read; what is left of it after a frame is a copy of just that size.
pub mod Whole
pub mod Split
pub mod Faults
use liburing_server.Prelude.{
  ℕ, zero, suc, ◌+◌, ◌-◌, ◌%◌, ◌^◌, Bool, true, false, List, [], ◌∷◌, ◌++◌, length, take, drop,
  Option, none, some, Outcome, ok, undefined, stuck, ◌>>=◌, if◌then◌else◌, ltb, leb, ◌==◌, ℤ, pos,
  negsuc, replicate,
}
use liburing_server.Ws.Frame.{get_ws_frame_length, read_bytes, u64_mod}

-- `receiving_data_info`: the frame that has come in part, and its length, -1 while it is unknown.
pub record ReceivingData : Type 0 where
  pub length : ℤ
  pub buffer : List ℕ

abbrev pub no_receiving_data : ReceivingData
no_receiving_data = record { length = negsuc 0; buffer = [] }

-- A `ulong` stored in an `int`, and an `int` taken for a `size_t`.
abbrev pub to_int : ℕ → ℤ
to_int n = let low = n % 2 ^ 32 in if ltb low (2 ^ 31) then pos low else negsuc (2 ^ 32 - 1 - low)

abbrev pub to_size : ℤ → ℕ
to_size (pos n) = n
to_size (negsuc n) = u64_mod - suc n

abbrev pub is_minus_one : ℤ → Bool
is_minus_one (pos n) = false
is_minus_one (negsuc zero) = true
is_minus_one (negsuc (suc n)) = false

-- The length of a frame of which ten bytes at most are here, from them and the new ones: the ten
-- zeros of `temp_buffer` come behind the pending bytes, and the new bytes in front of both.
unfoldable pub pending_length : List ℕ → List ℕ → Outcome ℤ
pending_length pending mem =
    if ltb 10 (length pending)
    then undefined
    else read_bytes mem 0 (10 - length pending)
      >>= (λ added. get_ws_frame_length (added ++ (pending ++ replicate 10 0)))
      >>= (λ n. ok (to_int n))

-- `none` asks for the connection to be closed: fewer than ten bytes are here in all.
unfoldable pub known_length : ReceivingData → List ℕ → ℕ → Outcome (Option ℤ)
known_length p mem size =
    if is_minus_one p.length
    then (if ltb (length p.buffer + size) 10
        then ok none
        else pending_length p.buffer mem >>= (λ n. ok (some n)))
    else ok (some p.length)

-- What a read leaves: the frames so far, the rest of the buffer, and what is pending.
pub record Progress : Type 0 where
  pub frames : List (List ℕ)
  pub mem : List ℕ
  pub remaining : ℕ
  pub receiving : ReceivingData

-- `remove_first_n_elements` over a pointer: the rest of the buffer, in memory of just its size.
abbrev pub remaining_data : List ℕ → ℕ → List ℕ
remaining_data bytes n = drop n bytes

-- The pending frame takes its bytes, `required` of them, from the front of what was read.
unfoldable pub fill_pending : List ℕ → ℤ → List ℕ → ℕ → Outcome Progress
fill_pending pending frame_length mem size =
    let required = (to_size frame_length + u64_mod - length pending) % u64_mod in
    if ltb required size
    then read_bytes mem 0 size >>= (λ all. ok (record {
      frames = (pending ++ take required all) ∷ [];
      mem = remaining_data all required;
      remaining = size - required;
      receiving = no_receiving_data;
    }))
    else read_bytes mem 0 size >>= (λ all.
      if required == size
      then ok (record {
        frames = (pending ++ all) ∷ [];
        mem = mem;
        remaining = 0;
        receiving = no_receiving_data;
      })
      else ok (record {
        frames = [];
        mem = mem;
        remaining = 0;
        receiving = record { length = frame_length; buffer = pending ++ all };
      }))

-- Whole frames are cut off while more than five bytes remain, and the rest is copied down.
unfoldable pub cut_frames : ℕ → Progress → Outcome Progress
cut_frames zero p = if ltb 5 p.remaining then stuck else ok p
cut_frames (suc fuel) p =
    if ltb 5 p.remaining
    then get_ws_frame_length p.mem >>= (λ packet_length.
      if leb packet_length p.remaining
      then read_bytes p.mem 0 p.remaining >>= (λ all. cut_frames fuel (record p {
        frames = p.frames ++ (take packet_length all ∷ []);
        mem = remaining_data all packet_length;
        remaining = p.remaining - packet_length;
      }))
      else ok p)
    else ok p

-- Only the beginning of a frame is left: it waits for the next read.
unfoldable pub keep_rest : Progress → Outcome Progress
keep_rest p =
    if ltb 0 p.remaining
    then read_bytes p.mem 0 p.remaining >>= (λ rest.
      (if ltb 10 p.remaining
        then get_ws_frame_length p.mem >>= (λ n. ok (to_int n))
        else ok (negsuc 0))
      >>= (λ n. ok (record p { receiving = record { length = n; buffer = rest } })))
    else ok p

-- `fuel` bounds the frames of one read.
unfoldable pub finish_frames : ℕ → Progress → Outcome (Option (List (List ℕ)) × ReceivingData)
finish_frames fuel p = do
  cut ← cut_frames fuel p
  kept ← keep_rest cut
  ok (some kept.frames, kept.receiving)

-- One read of `size` bytes. `none` asks for the connection to be closed.
unfoldable pub receive :
    ℕ → ReceivingData → List ℕ → ℕ → Outcome (Option (List (List ℕ)) × ReceivingData)
receive fuel p mem size =
    if ltb 0 (length p.buffer)
    then known_length p mem size >>= (λ known. elim known [
      | none ↦ ok (none, p)
      | some n ↦ fill_pending p.buffer n mem size >>= finish_frames fuel
    ])
    else finish_frames fuel (record { frames = []; mem = mem; remaining = size; receiving = p })
