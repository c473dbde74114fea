-- ===== src/Central/Config/Reading.antt =====
-- How the configuration file comes into memory, and lines that the code cannot read.
use liburing_server.Prelude.{
  ℕ, zero, suc, ◌+◌, ◌%◌, ◌<◌, ◌^◌, ◌≡◌, ◌≢◌, refl, sym, ap, ◌∙◌, arith, List, [], ◌∷◌, ◌++◌,
  length, set, ok, pos, append_assoc, length-append, length-replicate, replicate, ne→not-==, eq→==,
  lt→ltb, le→leb, set-append,
}
use liburing_server.Tcp.{size_mod}
use liburing_server.Web.Http.{copy_front}
use liburing_server.Ws.Frame.Laws.{write_bytes_lem, replicate-add}
use liburing_server.Central.Config.{ReadResult, got, failed, plus, wrap_int, read_loop, read_config}

plus-pos : (m n : ℕ) → plus (pos m) n ≡ pos (m + n)
plus-pos m zero = ap pos (omega arith)
plus-pos m (suc n) = plus-pos (suc m) n ∙ ap pos (omega arith)

wrap_int-pos : (n : ℕ) → n < 2 ^ 31 → wrap_int (pos n) ≡ pos n
wrap_int-pos n h = rw (low, lt→ltb n (2 ^ 31) h) refl
  where
    low : n % 2 ^ 32 ≡ n
    low = omega arith

copied :
    (chunk mid back : List ℕ)
    → length chunk ≡ length mid
    → copy_front (mid ++ back) chunk ≡ ok (chunk ++ back)
unfolding copy_front
copied chunk mid back h =
    rw (le→leb (length chunk) (length (mid ++ back)) (omega (arith, length-append mid back)))
      (ap ok (write_bytes_lem [] mid back chunk h))

-- One read that is not the last.
read_on :
    (chunk mid back : List ℕ) (results : List ReadResult) (file_size m : ℕ)
    → length chunk ≡ length mid
    → m ≢ file_size
    → m + length chunk < 2 ^ 31
    → read_loop (got chunk ∷ results) file_size (pos m) (mid ++ back)
      ≡ read_loop results file_size (pos (m + length chunk)) (chunk ++ back)
unfolding read_loop
read_on chunk mid back results file_size m h more fits =
    rw
      (
        ne→not-== m file_size more,
        copied chunk mid back h,
        plus-pos m (length chunk),
        wrap_int-pos (m + length chunk) fits,
      )
      refl

read_done :
    (results : List ReadResult) (file_size m : ℕ) (config : List ℕ)
    → m ≡ file_size
    → read_loop results file_size (pos m) config ≡ ok config
unfolding read_loop
read_done [] file_size m config h = rw (eq→== m file_size h) refl
read_done (failed ∷ results) file_size m config h = rw (eq→== m file_size h) refl
read_done (got chunk ∷ results) file_size m config h = rw (eq→== m file_size h) refl

-- The zero at the end of what the loop leaves.
ended :
    (results : List ReadResult) (n : ℕ) (text : List ℕ)
    → n ≡ length text
    → n < 2 ^ 31
    → read_loop results n (pos 0) (replicate (n + 1) 0) ≡ ok (text ++ (0 ∷ []))
    → read_config results n ≡ ok (text ++ (0 ∷ []))
unfolding read_config
ended results n text h small run =
    rw
      (fits, run, lt→ltb n (length (text ++ (0 ∷ []))) (omega (arith, length-append text (0 ∷ []))))
      (ap ok (ap (λ k. set (text ++ (0 ∷ [])) k 0) h ∙ set-append text 0 0 []))
  where
    fits : (n + 1) % size_mod ≡ n + 1
    fits = omega arith

nil_of : (xs : List ℕ) → 0 ≡ length xs → xs ≡ []
nil_of [] e = refl
nil_of (x ∷ xs) e = absurd (omega arith)

pub read_config-once :
    (text : List ℕ) (results : List ReadResult)
    → text ≢ []
    → length text < 2 ^ 31
    → read_config (got text ∷ results) (length text) ≡ ok (text ++ (0 ∷ []))
read_config-once text results some_text small = ended results' (length text) text refl small (
    ap (read_loop results' (length text) (pos 0)) (replicate-add (length text) 1)
    ∙ read_on text (replicate (length text) 0) (0 ∷ []) results (length text) 0
        (sym (length-replicate (length text) 0)) (λ e. some_text (nil_of text e)) (omega arith)
    ∙ read_done results (length text) (0 + length text) (text ++ (0 ∷ [])) (omega arith))
  where
    results' : List ReadResult
    results' = got text ∷ results

-- A file of below 2^31 bytes that comes in two reads, the second not empty and no longer than the
-- first: the second is put over the front of the first, and zeros stand in its own place.
pub read_config_short :
    (lost kept last : List ℕ) (results : List ReadResult)
    → length last ≡ length lost
    → last ≢ []
    → length (lost ++ kept) + length last < 2 ^ 31
    → read_config (got (lost ++ kept) ∷ got last ∷ results) (length (lost ++ kept) + length last)
      ≡ ok ((last ++ (kept ++ replicate (length last) 0)) ++ (0 ∷ []))
read_config_short lost kept last results same some_last small =
    ended results' n (last ++ (kept ++ replicate (length last) 0))
      (omega (
        arith,
        length-append lost kept,
        length-append last (kept ++ replicate (length last) 0),
        length-append kept (replicate (length last) 0),
        length-replicate {A = ℕ} (length last) 0,
      ))
      small
      (ap (read_loop results' n (pos 0)) (
          replicate-add n 1
          ∙ ap (λ l. l ++ (0 ∷ [])) (replicate-add (length (lost ++ kept)) (length last))
          ∙ append_assoc (replicate (length (lost ++ kept)) 0) zeros (0 ∷ []))
        ∙ read_on (lost ++ kept) (replicate (length (lost ++ kept)) 0) (zeros ++ (0 ∷ []))
            (got last ∷ results) n 0 (sym (length-replicate (length (lost ++ kept)) 0))
            (λ e. some_last (nil_of last (omega arith))) (omega arith)
        ∙ ap (read_loop (got last ∷ results) n (pos (0 + length (lost ++ kept))))
            (append_assoc lost kept (zeros ++ (0 ∷ [])))
        ∙ read_on last lost (kept ++ (zeros ++ (0 ∷ []))) results n (0 + length (lost ++ kept)) same
            (λ e. some_last (nil_of last (omega arith))) (omega arith)
        ∙ read_done results n _ _ (omega arith)
        ∙ ap ok (
            ap (◌++◌ last) (sym (append_assoc kept zeros (0 ∷ [])))
            ∙ sym (append_assoc last (kept ++ zeros) (0 ∷ []))))
  where
    zeros : List ℕ
    zeros = replicate (length last) 0

    n : ℕ
    n = length (lost ++ kept) + length last

    results' : List ReadResult
    results' = got (lost ++ kept) ∷ got last ∷ results
