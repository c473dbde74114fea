-- ===== src/Ws/Frame/Length.antt =====
-- What `get_ws_frame_length` answers on the frames that a client sends.
use liburing_server.Prelude.{
  ℕ, suc, ◌+◌, ◌%◌, ◌^◌, ◌<◌, ◌≡◌, ap, ◌∙◌, arith, List, [], ◌∷◌, ◌++◌, length, ok, if◌then◌else◌,
  ltb, lt→ltb, le→not-ltb, le→leb, bit_and, reverse,
}
use liburing_server.Prelude.Bits.{low_seven}
use native.Mathlib.Decide.{dec_lt}
use mathlib.Core.List.{reverse-reverse}
use liburing_server.Ws.Bytes.{
  bytes_le, value_le, load_be, load_be_lem, bytes_le-IsByte, reverse-IsByte, value_le-bytes_le,
}
use liburing_server.Ws.Frame.{get_ws_frame_length, extended_length, u64_mod}

-- RFC 6455, section 5.2: the size of a masked payload, and the whole header up to the mask.
abbrev pub masked_size : ℕ → List ℕ
masked_size n =
    if ltb n 126
    then (128 + n) ∷ []
    else if ltb n 65536
    then (128 + 126) ∷ reverse (bytes_le 2 n)
    else (128 + 127) ∷ reverse (bytes_le 8 n)

-- Bytes in front of the payload: two, the extended length, and the four of the mask.
abbrev pub header_size : ℕ → ℕ
header_size n = if ltb n 126 then 6 else if ltb n 65536 then 8 else 14

load_be-reverse : (k n : ℕ) → n < 256 ^ k → load_be (reverse (bytes_le k n)) ≡ n
load_be-reverse k n h =
    load_be_lem _ (reverse-IsByte (bytes_le k n) (bytes_le-IsByte k n))
    ∙ ap value_le (reverse-reverse (bytes_le k n))
    ∙ value_le-bytes_le k n h

pub extended_short : (n : ℕ) (buffer : List ℕ) → n < 126 → extended_length buffer n ≡ ok n
unfolding extended_length
extended_short n buffer h = ground arith

extended_middle :
    (b c n : ℕ) (rest : List ℕ)
    → n < 65536
    → extended_length (b ∷ c ∷ (reverse (bytes_le 2 n) ++ rest)) 126 ≡ ok (n + 2)
unfolding extended_length bytes_le
extended_middle b c n rest h =
    rw (le→leb 4 (suc (suc (suc (suc (length rest))))) (omega arith))
      (ap (λ v. ok (v + 2)) (load_be-reverse 2 n (omega arith)))

extended_long :
    (b c n : ℕ) (rest : List ℕ)
    → n < u64_mod
    → extended_length (b ∷ c ∷ (reverse (bytes_le 8 n) ++ rest)) 127 ≡ ok ((n + 8) % u64_mod)
unfolding extended_length bytes_le
extended_long b c n rest h =
    rw (le→leb 10 (length (b ∷ c ∷ (reverse (bytes_le 8 n) ++ rest))) (omega arith))
      (ap (λ v. ok ((v + 8) % u64_mod)) (load_be-reverse 8 n (omega arith)))

mask_removed : (n : ℕ) → n < 128 → bit_and (128 + n) 0x7f ≡ n
mask_removed n h = low_seven (128 + n) (omega arith) ∙ omega arith

-- The length of a frame as the code reads it, for every payload size that the header can state.
pub get_ws_frame_length_lem :
    (b n : ℕ) (rest : List ℕ)
    → n < u64_mod
    → get_ws_frame_length (b ∷ (masked_size n ++ rest)) ≡ ok ((n + header_size n) % u64_mod)
unfolding get_ws_frame_length
get_ws_frame_length_lem b n rest h = elim (dec_lt n 126) [
  | yes p ↦
      rw (lt→ltb n 126 p, mask_removed n (omega arith), extended_short n (b ∷ (128 + n) ∷ rest) p)
  | no p ↦ elim (dec_lt n 65536) [
    | yes q ↦
        rw (le→not-ltb n 126 (omega arith), lt→ltb n 65536 q, extended_middle b 254 n rest q)
          (ap ok (omega arith))
    | no q ↦
        rw
          (
            le→not-ltb n 126 (omega arith),
            le→not-ltb n 65536 (omega arith),
            extended_long b 255 n rest h,
          )
          (ap ok (omega arith))
  ]
]
