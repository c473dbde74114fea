-- ===== src/Ws/Reassembly/Split.antt =====
-- A frame that two reads bring: the pending part and the rest of it.
use liburing_server.Prelude.{
  ℕ, ◌+◌, ◌-◌, ◌%◌, ◌^◌, ◌<◌, ◌≡◌, refl, sym, ap, ◌∙◌, arith, List, [], ◌∷◌, ◌++◌, length, some, ok,
  ◌>>=◌, lt→ltb, le→not-ltb, eq→==, pos, append-nil, length-append, take-append, drop-append,
}
use liburing_server.Ws.Reassembly.{
  ReceivingData, no_receiving_data, known_length, fill_pending, finish_frames, receive,
}
use liburing_server.Ws.Reassembly.Whole.{
  AllFrames, IsBeginning, concat, kept, read_front, finish_frames_lem,
}

kept_long :
    (begun : List ℕ) (n : ℕ) (p : ReceivingData)
    → 10 < length begun
    → n < 2 ^ 31
    → kept begun n p ≡ record { length = pos n; buffer = begun }
kept_long [] n p h g = absurd (omega arith)
kept_long (b ∷ bs) n p h g = rw (lt→ltb 10 (length (b ∷ bs)) h, low, lt→ltb n (2 ^ 31) g)
  where
    low : n % 2 ^ 32 ≡ n
    low = omega arith

module _ (begun more : List ℕ) (small : length (begun ++ more) < 2 ^ 31) where
  missing : (length (begun ++ more) + 2 ^ 64 - length begun) % 2 ^ 64 ≡ length more
  missing = omega (arith, length-append begun more)

  fill_all :
      (junk : List ℕ)
      → fill_pending begun (pos (length (begun ++ more))) (more ++ junk) (length more)
        ≡ ok (record {
          frames = (begun ++ more) ∷ [];
          mem = more ++ junk;
          remaining = 0;
          receiving = no_receiving_data;
        })
  unfolding fill_pending
  fill_all junk = rw (
    missing,
    le→not-ltb (length more) (length more) (omega arith),
    read_front more junk (length more) refl,
    eq→== (length more) (length more) refl,
  )

  fill_some :
      (rest junk : List ℕ)
      → 0 < length rest
      → fill_pending begun
          (pos (length (begun ++ more)))
          ((more ++ rest) ++ junk)
          (length (more ++ rest))
        ≡ ok (record {
          frames = (begun ++ more) ∷ [];
          mem = rest;
          remaining = length rest;
          receiving = no_receiving_data;
        })
  unfolding fill_pending
  fill_some rest junk h =
      rw
        (
          missing,
          lt→ltb (length more) (length (more ++ rest)) (omega (arith, length-append more rest)),
          read_front (more ++ rest) junk (length (more ++ rest)) refl,
          take-append more rest,
          drop-append more rest,
        )
        (ap
          (λ k. ok (record {
            frames = (begun ++ more) ∷ [];
            mem = rest;
            remaining = k;
            receiving = no_receiving_data;
          }))
          (omega (arith, length-append more rest)))

  received :
      (fuel : ℕ) (mem : List ℕ) (size : ℕ)
      → 10 < length begun
      → receive fuel (kept begun (length (begun ++ more)) no_receiving_data) mem size
        ≡ (fill_pending begun (pos (length (begun ++ more))) mem size >>= finish_frames fuel)
  unfolding receive known_length
  received fuel mem size hb =
      ap (λ q. receive fuel q mem size)
        (kept_long begun (length (begun ++ more)) no_receiving_data hb small)
      ∙ rw (lt→ltb 0 (length begun) (omega arith))

  rest_some :
      (fs : List (List ℕ)) (n : ℕ) (part junk : List ℕ)
      → 10 < length begun
      → AllFrames fs
      → IsBeginning part n
      → 0 < length (concat fs ++ part)
      → receive
          (length (more ++ (concat fs ++ part)) + 1)
          (kept begun (length (begun ++ more)) no_receiving_data)
          ((more ++ (concat fs ++ part)) ++ junk)
          (length (more ++ (concat fs ++ part)))
        ≡ ok (some ((begun ++ more) ∷ fs), kept part n no_receiving_data)
  rest_some fs n part junk hb hf b h =
      received (length (more ++ rest) + 1) ((more ++ rest) ++ junk) (length (more ++ rest)) hb
      ∙ rw (fill_some rest junk h) (
          ap
            (λ m. finish_frames (length (more ++ rest) + 1) (record {
              frames = (begun ++ more) ∷ [];
              mem = m;
              remaining = length rest;
              receiving = no_receiving_data;
            }))
            (sym (append-nil rest))
          ∙ finish_frames_lem fs ((begun ++ more) ∷ []) (length (more ++ rest) + 1) n part []
              no_receiving_data hf b
              (omega (arith, length-append more rest, length-append (concat fs) part)))
    where
      rest : List ℕ
      rest = concat fs ++ part

  rest_none :
      (n : ℕ) (junk : List ℕ)
      → 10 < length begun
      → IsBeginning [] n
      → receive
          (length (more ++ []) + 1)
          (kept begun (length (begun ++ more)) no_receiving_data)
          ((more ++ []) ++ junk)
          (length (more ++ []))
        ≡ ok (some ((begun ++ more) ∷ []), no_receiving_data)
  rest_none n junk hb b = rw (append-nil more) (
      received (length more + 1) (more ++ junk) (length more) hb
      ∙ rw (fill_all junk) (
          finish_frames_lem [] ((begun ++ more) ∷ []) (length more + 1) n [] (more ++ junk)
            no_receiving_data tt b (omega arith)))

-- With more than ten bytes pending of a frame of below 2^31 bytes, a read of the rest of it, of
-- frames of six bytes or more whose length the code reads right, and of the beginning of another,
-- gives the pending frame and the others in order and keeps the beginning; the loop ends within
-- one round more than the bytes of the read.
pub receive_rest :
    (begun more : List ℕ) (fs : List (List ℕ)) (n : ℕ) (part junk : List ℕ)
    → 10 < length begun
    → length (begun ++ more) < 2 ^ 31
    → AllFrames fs
    → IsBeginning part n
    → receive
        (length (more ++ (concat fs ++ part)) + 1)
        (kept begun (length (begun ++ more)) no_receiving_data)
        ((more ++ (concat fs ++ part)) ++ junk)
        (length (more ++ (concat fs ++ part)))
      ≡ ok (some ((begun ++ more) ∷ fs), kept part n no_receiving_data)
receive_rest begun more [] n [] junk hb small hf b = rest_none begun more small n junk hb b
receive_rest begun more [] n (c ∷ part) junk hb small hf b =
    rest_some begun more small [] n (c ∷ part) junk hb hf b (omega arith)
receive_rest begun more (f ∷ fs) n part junk hb small (hf, hfs) b =
    rest_some begun more small (f ∷ fs) n part junk hb (hf, hfs) b
      (omega (arith, length-append (f ++ concat fs) part, length-append f (concat fs)))
