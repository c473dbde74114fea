-- ===== src/Ws/Reassembly/Whole.antt =====
-- Reads that begin at a frame: whole frames come out as they went in, and the beginning of another
-- waits.
use liburing_server.Prelude.{
  ℕ, zero, suc, ◌+◌, ◌<◌, ◌≤◌, ◌≡◌, refl, sym, ap, ◌∙◌, arith, List, [], ◌∷◌, ◌++◌, length, take,
  some, ok, if◌then◌else◌, ltb, lt→ltb, le→leb, lt→not-leb, ltb→lt, Bool-cases, inl, inr, negsuc,
  append_assoc, append-nil, length-append, take-append, drop-append,
}
use liburing_server.Ws.Frame.{get_ws_frame_length, read_bytes}
use liburing_server.Ws.Reassembly.{
  ReceivingData, no_receiving_data, to_int, cut_frames, keep_rest, finish_frames, receive,
}

-- A frame whose length the code reads right, whatever follows it.
abbrev pub IsFrame : List ℕ → Type 0
IsFrame f = (6 ≤ length f) × ((rest : List ℕ) → get_ws_frame_length (f ++ rest) ≡ ok (length f))

abbrev pub AllFrames : List (List ℕ) → Type 0
AllFrames [] = Unit {0}
AllFrames (f ∷ fs) = IsFrame f × AllFrames fs

abbrev pub concat : List (List ℕ) → List ℕ
concat [] = []
concat (f ∷ fs) = f ++ concat fs

-- The beginning of a frame of `n` bytes. Where the code measures it, it reads `n`.
abbrev pub IsBeginning : List ℕ → ℕ → Type 0
IsBeginning part n =
    (length part < n)
    × ((rest : List ℕ) → 5 < length part → get_ws_frame_length (part ++ rest) ≡ ok n)

pub read_front : (xs junk : List ℕ) (n : ℕ) → n ≡ length xs → read_bytes (xs ++ junk) 0 n ≡ ok xs
unfolding read_bytes
read_front xs junk n h =
    rw (le→leb (0 + n) (length (xs ++ junk)) (omega (arith, length-append xs junk)))
      (ap ok (ap (λ k. take k (xs ++ junk)) h ∙ take-append xs junk))

cut_one :
    (fuel : ℕ) (f rest junk : List ℕ) (done : List (List ℕ)) (p : ReceivingData) (n : ℕ)
    → IsFrame f
    → n ≡ length (f ++ rest)
    → cut_frames
        (suc fuel)
        (record { frames = done; mem = (f ++ rest) ++ junk; remaining = n; receiving = p })
      ≡ cut_frames fuel
          (record { frames = done ++ (f ∷ []); mem = rest; remaining = length rest; receiving = p })
unfolding cut_frames
cut_one fuel f rest junk done p n (long, measured) h =
    rw
      (
        lt→ltb 5 n (omega (arith, length-append f rest)),
        append_assoc f rest junk,
        measured (rest ++ junk),
        le→leb (length f) n (omega (arith, length-append f rest)),
      )
      (rw
        (
          sym (append_assoc f rest junk),
          read_front (f ++ rest) junk n h,
          take-append f rest,
          drop-append f rest,
        )
        (ap
          (λ k.
            cut_frames fuel
              (record { frames = done ++ (f ∷ []); mem = rest; remaining = k; receiving = p }))
          (omega (arith, length-append f rest))))

cut_none :
    (fuel n : ℕ) (part junk : List ℕ) (done : List (List ℕ)) (p : ReceivingData)
    → IsBeginning part n
    → 0 < fuel
    → cut_frames fuel
        (record { frames = done; mem = part ++ junk; remaining = length part; receiving = p })
      ≡ ok (record { frames = done; mem = part ++ junk; remaining = length part; receiving = p })
unfolding cut_frames
cut_none zero n part junk done p b h = absurd (omega arith)
cut_none (suc fuel) n part junk done p (short, measured) h =
    elim (Bool-cases (ltb 5 (length part))) [
      | inl long ↦ rw (long, measured junk (ltb→lt _ _ long), lt→not-leb _ _ short)
      | inr few ↦ rw few
    ]

-- The loop of `get_ws_frames` on whole frames and a beginning: it ends, with just those frames.
pub cut_frames_lem :
    (fs : List (List ℕ)) (fuel n : ℕ) (part junk : List ℕ) (done : List (List ℕ))
    (p : ReceivingData)
    → AllFrames fs
    → IsBeginning part n
    → length (concat fs) < fuel
    → (junk' : List ℕ) × (cut_frames fuel (record {
      frames = done;
      mem = (concat fs ++ part) ++ junk;
      remaining = length (concat fs ++ part);
      receiving = p;
    })
        ≡ ok (record {
          frames = done ++ fs;
          mem = part ++ junk';
          remaining = length part;
          receiving = p;
        }))
cut_frames_lem [] fuel n part junk done p hf b h =
    (junk, rw (append-nil done) (cut_none fuel n part junk done p b h))
cut_frames_lem (f ∷ fs) zero n part junk done p hf b h = absurd (omega arith)
cut_frames_lem (f ∷ fs) (suc fuel) n part junk done p (hf, hfs) b h =
    let rest : List ℕ = concat fs ++ part in
    let (junk', ih) = cut_frames_lem fs fuel n part [] (done ++ (f ∷ [])) p hfs b shorter in
    (
      junk',
      rw (append_assoc f (concat fs) part) (
          cut_one fuel f rest junk done p (length (f ++ rest)) hf refl
          ∙ ap
              (λ m. cut_frames fuel (record {
                frames = done ++ (f ∷ []);
                mem = m;
                remaining = length rest;
                receiving = p;
              }))
              (sym (append-nil rest))
          ∙ ih
          ∙ ap
              (λ fr. ok (record {
                frames = fr;
                mem = part ++ junk';
                remaining = length part;
                receiving = p;
              }))
              (append_assoc done (f ∷ []) fs)),
    )
  where
    shorter : length (concat fs) < fuel
    shorter = omega (arith, length-append f (concat fs))

-- What stays pending of the beginning of a frame.
abbrev pub kept : List ℕ → ℕ → ReceivingData → ReceivingData
kept [] n p = p
kept (b ∷ bs) n p = record {
  length = if ltb 10 (length (b ∷ bs)) then to_int n else negsuc 0;
  buffer = b ∷ bs;
}

keep_rest_lem :
    (part junk : List ℕ) (n : ℕ) (fs : List (List ℕ)) (p : ReceivingData)
    → IsBeginning part n
    → (m : List ℕ) × (keep_rest
          (record { frames = fs; mem = part ++ junk; remaining = length part; receiving = p })
        ≡ ok (record { frames = fs; mem = m; remaining = length part; receiving = kept part n p }))
unfolding keep_rest
keep_rest_lem [] junk n fs p b = (junk, refl)
keep_rest_lem (c ∷ cs) junk n fs p (short, measured) =
    elim (Bool-cases (ltb 10 (length (c ∷ cs)))) [
      | inl long ↦ (
        (c ∷ cs) ++ junk,
        rw (
          lt→ltb 0 (length (c ∷ cs)) (omega arith),
          read_front (c ∷ cs) junk (length (c ∷ cs)) refl,
          long,
          measured junk (omega (arith, ltb→lt _ _ long)),
        ),
      )
      | inr few ↦ (
        (c ∷ cs) ++ junk,
        rw (
          lt→ltb 0 (length (c ∷ cs)) (omega arith),
          read_front (c ∷ cs) junk (length (c ∷ cs)) refl,
          few,
        ),
      )
    ]

-- Whole frames and a beginning, behind the frames that are done.
pub finish_frames_lem :
    (fs done : List (List ℕ)) (fuel n : ℕ) (part junk : List ℕ) (p : ReceivingData)
    → AllFrames fs
    → IsBeginning part n
    → length (concat fs) < fuel
    → finish_frames fuel (record {
      frames = done;
      mem = (concat fs ++ part) ++ junk;
      remaining = length (concat fs ++ part);
      receiving = p;
    })
      ≡ ok (some (done ++ fs), kept part n p)
unfolding finish_frames
finish_frames_lem fs done fuel n part junk p hf b h =
    let (junk', cut) = cut_frames_lem fs fuel n part junk done p hf b h in
    let (m, rest) = keep_rest_lem part junk' n (done ++ fs) p b in rw (cut, rest)

-- A read, with nothing pending, of frames of six bytes or more whose length the code reads right,
-- and of the beginning of another, gives the frames in order and keeps the beginning, with the
-- length of its frame where more than ten bytes of it are there; the loop ends within one round
-- more than the bytes of the read.
pub receive_whole :
    (fs : List (List ℕ)) (n : ℕ) (part junk : List ℕ)
    → AllFrames fs
    → IsBeginning part n
    → receive
        (length (concat fs ++ part) + 1)
        no_receiving_data
        ((concat fs ++ part) ++ junk)
        (length (concat fs ++ part))
      ≡ ok (some fs, kept part n no_receiving_data)
unfolding receive
receive_whole fs n part junk hf b =
    finish_frames_lem fs [] _ n part junk no_receiving_data hf b
      (omega (arith, length-append (concat fs) part))
