-- ===== src/Ws/Reassembly/Faults.antt =====
-- Reads on which `get_ws_frames` goes wrong.
use liburing_server.Prelude.{
  ℕ, zero, suc, ◌+◌, ◌-◌, ◌%◌, ◌^◌, ◌<◌, ◌≤◌, ◌≡◌, refl, sym, ap, ◌∙◌, arith, List, [], ◌∷◌, ◌++◌,
  length, take, some, ok, stuck, lt→ltb, le→leb, le→not-ltb, pos, negsuc, append-nil, replicate,
}
use liburing_server.Prelude.Bits.{low_seven}
use liburing_server.Ws.Bytes.{IsByte, bytes_le}
use liburing_server.Ws.Frame.{get_ws_frame_length, read_bytes, u64_mod}
use liburing_server.Ws.Frame.Length.{masked_size, get_ws_frame_length_lem, extended_short}
use liburing_server.Ws.Reassembly.{
  ReceivingData, no_receiving_data, known_length, pending_length, cut_frames, finish_frames,
  receive,
}
use liburing_server.Ws.Reassembly.Whole.{read_front}

-- A header that states a payload of 2^64 - 14 bytes: with the header the length wraps to 0.
abbrev pub huge : ℕ
huge = u64_mod - 14

measured_zero :
    (b : ℕ) (rest : List ℕ) → get_ws_frame_length (b ∷ (masked_size huge ++ rest)) ≡ ok 0
measured_zero b rest = get_ws_frame_length_lem b huge rest (omega arith)

cut_endless :
    (fuel b n : ℕ) (rest : List ℕ) (done : List (List ℕ)) (p : ReceivingData)
    → n ≡ length (b ∷ (masked_size huge ++ rest))
    → 5 < n
    → cut_frames fuel (record {
      frames = done;
      mem = b ∷ (masked_size huge ++ rest);
      remaining = n;
      receiving = p;
    })
      ≡ stuck
unfolding cut_frames
cut_endless zero b n rest done p h long = rw (lt→ltb 5 n long)
cut_endless (suc fuel) b n rest done p h long =
    rw (lt→ltb 5 n long, measured_zero b rest, le→leb 0 n (omega arith), whole)
      (cut_endless fuel b (n - 0) rest (done ++ ([] ∷ [])) p (omega (arith, h)) (omega arith))
  where
    whole : read_bytes (b ∷ (masked_size huge ++ rest)) 0 n ≡ ok (b ∷ (masked_size huge ++ rest))
    whole =
        ap (λ m. read_bytes m 0 n) (sym (append-nil (b ∷ (masked_size huge ++ rest))))
        ∙ read_front (b ∷ (masked_size huge ++ rest)) [] n h

-- A read, with nothing pending, that begins with the header of a frame whose stated payload is
-- 2^64 - 14 bytes is not finished after any number of rounds of the loop.
pub receive_endless :
    (fuel b : ℕ) (rest : List ℕ)
    → receive fuel no_receiving_data
        (b ∷ (masked_size huge ++ rest))
        (length (b ∷ (masked_size huge ++ rest)))
      ≡ stuck
unfolding receive finish_frames
receive_endless fuel b rest = rw (
    cut_endless fuel b (length (b ∷ (masked_size huge ++ rest))) rest [] no_receiving_data refl
      long)
  where
    long : 5 < length (b ∷ (masked_size huge ++ rest))
    long = unfold bytes_le in omega arith

short_length :
    (a b : ℕ) (rest : List ℕ)
    → IsByte b
    → b % 128 < 126
    → get_ws_frame_length (a ∷ b ∷ rest) ≡ ok (b % 128 + 6)
unfolding get_ws_frame_length
short_length a b rest hb small =
    rw (low_seven b hb, extended_short (b % 128) (a ∷ b ∷ rest) small) (ap ok (omega arith))

two_added :
    (n a b : ℕ) (rest : List ℕ)
    → n ≤ 8
    → 8 ≤ n + length rest
    → read_bytes (a ∷ b ∷ rest) 0 (10 - n) ≡ ok (a ∷ b ∷ take (8 - n) rest)
unfolding read_bytes
two_added n a b rest few enough =
    rw (le→leb (0 + (10 - n)) (suc (suc (length rest))) (omega arith), two)
  where
    two : 10 - n ≡ suc (suc (8 - n))
    two = omega arith

-- With at most eight bytes of a frame pending, its length unknown, and ten bytes or more here in
-- all, the length is taken from the second byte of the next read, where that byte states less
-- than 126, whatever the pending bytes are.
pub known_length_misread :
    (part : List ℕ) (a b : ℕ) (rest : List ℕ)
    → length part ≤ 8
    → 8 ≤ length part + length rest
    → IsByte b
    → b % 128 < 126
    → known_length
        (record { length = negsuc 0; buffer = part })
        (a ∷ b ∷ rest)
        (length (a ∷ b ∷ rest))
      ≡ ok (some (pos (b % 128 + 6)))
unfolding known_length pending_length
known_length_misread part a b rest few enough hb small = rw (
  le→not-ltb (length part + suc (suc (length rest))) 10 (omega arith),
  le→not-ltb 10 (length part) (omega arith),
  two_added (length part) a b rest few enough,
  short_length a b (take (8 - length part) rest ++ (part ++ replicate 10 0)) hb small,
  fits,
  lt→ltb (b % 128 + 6) (2 ^ 31) (omega arith),
)
  where
    fits : (b % 128 + 6) % 2 ^ 32 ≡ b % 128 + 6
    fits = omega arith
