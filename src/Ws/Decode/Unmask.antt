-- ===== src/Ws/Decode/Unmask.antt =====
-- The in-place loop against masking byte by byte, as RFC 6455, section 5.3, states it.
use liburing_server.Prelude.{
  ℕ, zero, suc, ◌+◌, ◌-◌, ◌%◌, ◌<◌, ◌^◌, lt→ltb, ◌≡◌, refl, sym, ap, ap₂, ◌∙◌, arith, List, [], ◌∷◌,
  ◌++◌, length, take, get_elem?, set, All, none, some, ok, ◌>>=◌, bit_xor, append-nil, append_assoc,
  length-append, take-append, get_elem?-append_right, get_elem?-some_of_lt,
}
use liburing_server.Prelude.Bits.{xor_twice}
use liburing_server.Ws.Bytes.{IsByte}
use liburing_server.Ws.Decode.{unmask_loop, unmask_frame}

abbrev pub key_byte : List ℕ → ℕ → ℕ
key_byte key j = elim (get_elem? key (j % 4)) [ none ↦ 0 | some k ↦ k ]

-- Octet `j` of the payload is XORed with octet `j % 4` of the key.
abbrev pub apply_mask : List ℕ → ℕ → List ℕ → List ℕ
apply_mask key j [] = []
apply_mask key j (x ∷ xs) = bit_xor x (key_byte key j) ∷ apply_mask key (j + 1) xs

get_elem?-All :
    (key : List ℕ) (j : ℕ)
    → All IsByte key
    → IsByte (elim (get_elem? key j) [ none ↦ 0 | some k ↦ k ])
get_elem?-All [] j h = omega arith
get_elem?-All (k ∷ key) zero h = h.0
get_elem?-All (k ∷ key) (suc j) h = get_elem?-All key j h.1

key_byte-IsByte : (key : List ℕ) (j : ℕ) → All IsByte key → IsByte (key_byte key j)
key_byte-IsByte key j h = get_elem?-All key (j % 4) h

key_byte_lem :
    (key : List ℕ) (j : ℕ) → length key ≡ 4 → get_elem? key (j % 4) ≡ some (key_byte key j)
key_byte_lem key j h = ground (arith, get_elem?-some_of_lt key (j % 4) (omega arith))

get_elem?-middle :
    (front : List ℕ) (x : ℕ) (back : List ℕ)
    → get_elem? (front ++ (x ∷ back)) (length front) ≡ some x
get_elem?-middle [] x back = refl
get_elem?-middle (y ∷ front) x back = get_elem?-middle front x back

set-middle :
    (front : List ℕ) (x v : ℕ) (back : List ℕ)
    → set (front ++ (x ∷ back)) (length front) v ≡ front ++ (v ∷ back)
set-middle [] x v back = refl
set-middle (y ∷ front) x v back = ap (◌∷◌ y) (set-middle front x v back)

pub length-apply_mask :
    (key : List ℕ) (j : ℕ) (xs : List ℕ) → length (apply_mask key j xs) ≡ length xs
length-apply_mask key j [] = refl
length-apply_mask key j (x ∷ xs) = ap suc (length-apply_mask key (j + 1) xs)

unmask_step :
    (rounds i header x k : ℕ) (key frame : List ℕ)
    → i + 1 < 2 ^ 31
    → get_elem? frame i ≡ some x
    → get_elem? key ((i - header) % 4) ≡ some k
    → unmask_loop (suc rounds) i header key frame
      ≡ unmask_loop rounds (i + 1) header key (set frame (i - header) (bit_xor x k))
unfolding unmask_loop
unmask_step rounds i header x k key frame h e f = rw (e, f, lt→ltb (i + 1) (2 ^ 31) h)

-- `out` is unmasked already, `gap` is as long as the header, and `todo` is still masked.
frame_at_i :
    (out gap todo : List ℕ) (x : ℕ)
    → get_elem? (out ++ (gap ++ (x ∷ todo))) (length out + length gap) ≡ some x
frame_at_i out gap todo x =
    rw (sym (length-append out gap), sym (append_assoc out gap (x ∷ todo)))
      (get_elem?-middle (out ++ gap) x todo)

shift_out :
    (out gap todo : List ℕ) (g x v : ℕ)
    → set (out ++ ((g ∷ gap) ++ (x ∷ todo))) (length out) v
      ≡ (out ++ (v ∷ [])) ++ ((gap ++ (x ∷ [])) ++ todo)
shift_out out gap todo g x v = set-middle out g v (gap ++ (x ∷ todo)) ∙ simp append_assoc

unmask_loop_lem :
    (key todo gap out : List ℕ) (i header : ℕ)
    → length key ≡ 4
    → i ≡ length out + header
    → header ≡ length gap
    → 0 < header
    → i + length todo < 2 ^ 31
    → (gap' : List ℕ) × (unmask_loop (length todo) i header key (out ++ (gap ++ todo))
        ≡ ok (out ++ (apply_mask key (length out) todo ++ gap')))
unmask_loop_lem key [] gap out i header hk hi hh hg hn =
    (gap, unfold unmask_loop in ap (λ l. ok (out ++ l)) (append-nil gap))
unmask_loop_lem key (x ∷ todo) [] out i header hk hi hh hg hn = absurd (omega arith)
unmask_loop_lem key (x ∷ todo) (g ∷ gap) out i header hk hi hh hg hn =
    let v : ℕ = bit_xor x (key_byte key (length out)) in
    let (gap', ih) =
      unmask_loop_lem key todo (gap ++ (x ∷ [])) (out ++ (v ∷ [])) (i + 1) header hk
        (omega (arith, length-append out (v ∷ []))) (omega (arith, length-append gap (x ∷ []))) hg
        (omega arith) in
    (
      gap',
      unmask_step (length todo) i header x (key_byte key (length out)) key
            (out ++ ((g ∷ gap) ++ (x ∷ todo))) (omega arith)
            (ap (get_elem? (out ++ ((g ∷ gap) ++ (x ∷ todo)))) (omega arith)
              ∙ frame_at_i out (g ∷ gap) todo x)
            (ap (λ j. get_elem? key (j % 4)) back ∙ key_byte_lem key (length out) hk)
          ∙ ap (unmask_loop (length todo) (i + 1) header key) (
              ap (λ j. set (out ++ ((g ∷ gap) ++ (x ∷ todo))) j v) back
              ∙ shift_out out gap todo g x v)
          ∙ ih
          ∙ ap ok (
              append_assoc out (v ∷ []) _
              ∙ ap (λ j. out ++ (v ∷ (apply_mask key j todo ++ gap')))
                  (length-append out (v ∷ []) ∙ omega arith)),
    )
  where
    back : i - header ≡ length out
    back = omega arith

module _ (k0 k1 k2 k3 : ℕ) where
  abbrev pub mask_key : List ℕ
  mask_key = k0 ∷ k1 ∷ k2 ∷ k3 ∷ []

  -- The payload behind any header is unmasked, in a frame whose length is an int.
  pub unmask_frame_lem :
      (head body : List ℕ) (offset : ℕ)
      → length head ≡ 2 + offset
      → 6 + offset + length body < 2 ^ 31
      → unmask_frame (head ++ (mask_key ++ body)) offset ≡ ok (apply_mask mask_key 0 body)
  unfolding unmask_frame
  unmask_frame_lem head body offset hh fits =
      rw
        (
          get_elem?-append_right head (mask_key ++ body) (2 + offset) 0 (omega arith),
          get_elem?-append_right head (mask_key ++ body) (3 + offset) 1 (omega arith),
          get_elem?-append_right head (mask_key ++ body) (4 + offset) 2 (omega arith),
          get_elem?-append_right head (mask_key ++ body) (5 + offset) 3 (omega arith),
          rounds,
        )
        (rw (sym (append_assoc head mask_key body)) looped)
    where
      rounds : length (head ++ (mask_key ++ body)) - (6 + offset) ≡ length body
      rounds = omega (arith, length-append head (mask_key ++ body))

      looped :
          (unmask_loop (length body) (6 + offset) (6 + offset) mask_key ((head ++ mask_key) ++ body)
            >>= (λ done. ok (take (length body) done)))
          ≡ ok (apply_mask mask_key 0 body)
      looped =
          let (gap', e) =
            unmask_loop_lem mask_key body (head ++ mask_key) [] (6 + offset) (6 + offset) refl
              (omega arith) (omega (arith, length-append head mask_key)) (omega arith)
              (omega arith) in
          rw e (
            ap (λ n. ok (take n (apply_mask mask_key 0 body ++ gap')))
              (sym (length-apply_mask mask_key 0 body))
            ∙ ap ok (take-append (apply_mask mask_key 0 body) gap'))

-- Masking twice gives the payload back.
pub apply_mask_twice :
    (key : List ℕ) (j : ℕ) (xs : List ℕ)
    → All IsByte key
    → All IsByte xs
    → apply_mask key j (apply_mask key j xs) ≡ xs
apply_mask_twice key j [] hk h = refl
apply_mask_twice key j (x ∷ xs) hk (h, hs) =
    ap₂ ◌∷◌ (xor_twice x (key_byte key j) h (key_byte-IsByte key j hk))
      (apply_mask_twice key (j + 1) xs hk hs)
