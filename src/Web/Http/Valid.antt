-- ===== src/Web/Http/Valid.antt =====
-- Which requests `is_valid_http_req` of src/web_server/web_server.tcc accepts.
use liburing_server.Prelude.{
  ℕ, zero, suc, ◌+◌, ◌/◌, ◌^◌, ◌≤◌, ◌<◌, ◌≡◌, refl, ap, ◌∙◌, arith, Bool, true, false, not, ◌&&◌,
  ◌||◌, List, [], ◌∷◌, length, get_elem?, none, some, ok, ◌>>=◌, if◌then◌else◌, ◌==◌, ltb, bit_and,
  bit_xor, lt→ltb, ltb→lt, Bool-cases, inl, inr, ==_iff, get_elem?-some_of_lt, Option-cases,
}
use liburing_server.Prelude.Bits.{check_up_to, checked}
use liburing_server.Web.Http.{types, check_type, check_types, check_bytes, is_valid_http_req}
use liburing_server.Web.Text.{codes, starts_with}

abbrev bit : ℕ → ℕ → Bool
bit k v = not (bit_and (v / 2 ^ k) 0x1 == 0)

abbrev agree : Bool → Bool → Bool
agree true b = b
agree false b = not b

agree_lem : (a b : Bool) → agree a b ≡ true → a ≡ b
agree_lem a b h = ground arith

cleared_table :
    check_up_to
      (λ j.
        check_up_to
          (λ k.
            check_up_to
              (λ v. agree (bit k (bit_and v (bit_xor 0x1f (2 ^ j)))) (bit k v && not (j == k)))
              32)
          5)
      5
    ≡ true
unfolding check_up_to
cleared_table = refl

small_table :
    check_up_to (λ j. check_up_to (λ v. bit_and v (bit_xor 0x1f (2 ^ j)) / 32 == 0) 32) 5 ≡ true
unfolding check_up_to
small_table = refl

some_bit_table :
    check_up_to (λ v. agree (not (v == 0)) (bit 0 v || bit 1 v || bit 2 v || bit 3 v || bit 4 v)) 32
    ≡ true
unfolding check_up_to
some_bit_table = refl

cleared :
    (j k v : ℕ)
    → j < 5
    → k < 5
    → v < 32
    → bit k (bit_and v (bit_xor 0x1f (2 ^ j))) ≡ bit k v && not (j == k)
cleared j k v hj hk hv =
    agree_lem _ _ (checked _ 32 v (checked _ 5 k (checked _ 5 j cleared_table hj) hk) hv)

small : (j v : ℕ) → j < 5 → v < 32 → bit_and v (bit_xor 0x1f (2 ^ j)) < 32
small j v hj hv = omega (
  arith,
  (==_iff (bit_and v (bit_xor 0x1f (2 ^ j)) / 32) 0).0
      (checked _ 32 v (checked _ 5 j small_table hj) hv),
)

some_bit : (v : ℕ) → v < 32 → not (v == 0) ≡ (bit 0 v || bit 1 v || bit 2 v || bit 3 v || bit 4 v)
some_bit v hv = agree_lem _ _ (checked _ 32 v some_bit_table hv)

-- The byte at `i` does not speak against a type.
abbrev fits : ℕ → List ℕ → ℕ → Bool
fits i type c = elim (get_elem? type i) [ none ↦ true | some t ↦ t == c ]

same_bit : (j k v : ℕ) → (j == k) ≡ true → bit j v ≡ bit k v
same_bit j k v e = ap (λ n. bit n v) ((==_iff j k).0 e)

check_type_lem :
    (i j k : ℕ) (type : List ℕ) (c v : ℕ)
    → j < 5
    → k < 5
    → v < 32
    → (check_type i j type c v < 32)
      × (bit k (check_type i j type c v) ≡ bit k v && (if j == k then fits i type c else true))
unfolding check_type
check_type_lem i j k type c v hj hk hv = elim (Option-cases (get_elem? type i)) [
  | inl m ↦ rw (check_type, m) (hv, ground arith)
  | inr (t, m) ↦
      rw (check_type, m)
        (ground (arith, small j v hj hv), ground (arith, same_bit j k v, cleared j k v hj hk hv))
]

-- The byte at `i` does not speak against the type `k`, of types counted from `j` on.
abbrev fits_type : ℕ → ℕ → ℕ → List (List ℕ) → ℕ → Bool
fits_type i k j [] c = true
fits_type i k j (type ∷ rest) c =
    (if j == k then fits i type c else true) && fits_type i k (j + 1) rest c

and_assoc : (a b c : Bool) → (a && b) && c ≡ a && (b && c)
and_assoc a b c = ground arith

check_types_lem :
    (i j k c v : ℕ) (ts : List (List ℕ))
    → j + length ts ≤ 5
    → k < 5
    → v < 32
    → (check_types i j ts c v < 32)
      × (bit k (check_types i j ts c v) ≡ bit k v && fits_type i k j ts c)
unfolding check_types
check_types_lem i j k c v [] h hk hv = (hv, ground arith)
check_types_lem i j k c v (type ∷ rest) h hk hv =
    let (hv', e) = check_type_lem i j k type c v (omega arith) hk hv in
    let (hv'', e') =
      check_types_lem i (j + 1) k c (check_type i j type c v) rest (omega arith) hk hv' in
    (
      hv'',
      e'
          ∙ ap (λ b. b && fits_type i k (j + 1) rest c) e
          ∙ and_assoc (bit k v) (if j == k then fits i type c else true)
              (fits_type i k (j + 1) rest c),
    )

-- None of the bytes from `i` on speaks against the type `k`.
abbrev all_fit : ℕ → ℕ → ℕ → List ℕ → Bool
all_fit k zero i buff = true
all_fit k (suc rounds) i buff =
    (elim (get_elem? buff i) [ none ↦ false | some c ↦ fits_type i k 0 types c ])
    && all_fit k rounds (i + 1) buff

check_bytes_lem :
    (rounds i v : ℕ) (buff : List ℕ)
    → i + rounds ≤ length buff
    → v < 32
    → (v' : ℕ) × (check_bytes rounds i buff v ≡ ok v')
      × (v' < 32)
      × ((k : ℕ) → k < 5 → bit k v' ≡ bit k v && all_fit k rounds i buff)
unfolding check_bytes
check_bytes_lem zero i v buff h hv = (v, refl, hv, λ k hk. ground arith)
check_bytes_lem (suc rounds) i v buff h hv =
    let (c, e) = get_elem?-some_of_lt buff i (omega arith) in
    let (hv', e0) = check_types_lem i 0 0 c v types (omega arith) (omega arith) hv in
    let (v', run, hv'', bits) =
      check_bytes_lem rounds (i + 1) (check_types i 0 types c v) buff (omega arith) hv' in
    rw e (
      v',
      run,
      hv'',
      λ k hk.
          bits k hk
          ∙ ap (λ b. b && all_fit k rounds (i + 1) buff)
              (check_types_lem i 0 k c v types (omega arith) hk hv).1
          ∙ and_assoc (bit k v) (fits_type i k 0 types c) (all_fit k rounds (i + 1) buff),
    )

-- The text begins with one of some words.
abbrev pub begins_with_any : List (List ℕ) → List ℕ → Bool
begins_with_any [] text = false
begins_with_any (word ∷ words) text = starts_with word text || begins_with_any words text

joined :
    {b0 b1 b2 b3 b4 m0 m1 m2 m3 m4 : Bool}
    → b0 ≡ m0
    → b1 ≡ m1
    → b2 ≡ m2
    → b3 ≡ m3
    → b4 ≡ m4
    → (b0 || b1 || b2 || b3 || b4) ≡ (m0 || (m1 || (m2 || (m3 || (m4 || false)))))
joined e0 e1 e2 e3 e4 = ground arith

module _ (a b c d e f g : ℕ) (rest : List ℕ) where
  abbrev front : List ℕ
  front = a ∷ b ∷ c ∷ d ∷ e ∷ f ∷ g ∷ rest

  get_fits : all_fit 0 7 0 front ≡ starts_with (codes "GET ") front
  unfolding starts_with
  get_fits = ground arith

  post_fits : all_fit 1 7 0 front ≡ starts_with (codes "POST ") front
  unfolding starts_with
  post_fits = ground arith

  put_fits : all_fit 2 7 0 front ≡ starts_with (codes "PUT ") front
  unfolding starts_with
  put_fits = ground arith

  delete_fits : all_fit 3 7 0 front ≡ starts_with (codes "DELETE ") front
  unfolding starts_with
  delete_fits = ground arith

  patch_fits : all_fit 4 7 0 front ≡ starts_with (codes "PATCH ") front
  unfolding starts_with
  patch_fits = ground arith

  all_bytes :
      check_bytes 7 0 front 0x1f >>= (λ valid. ok (not (valid == 0)))
      ≡ ok (begins_with_any types front)
  all_bytes =
      let (v, run, hv, bits) = check_bytes_lem 7 0 0x1f front (omega arith) (omega arith) in
      rw run (
        ap ok (
          some_bit v hv
          ∙ joined (bits 0 (omega arith) ∙ get_fits) (bits 1 (omega arith) ∙ post_fits)
              (bits 2 (omega arith) ∙ put_fits) (bits 3 (omega arith) ∙ delete_fits)
              (bits 4 (omega arith) ∙ patch_fits)))

too_short :
    (buff : List ℕ) (n : ℕ)
    → n < 16
    → is_valid_http_req buff n ≡ ok (not (ltb n 16) && begins_with_any types buff)
unfolding is_valid_http_req
too_short buff n h = rw (lt→ltb n 16 h) refl

-- A read of n bytes, at the front of a buffer of n bytes or more, is taken for an HTTP request if
-- and only if n is 16 or more and the buffer begins with one of the five methods and a space.
pub is_valid_http_req_lem :
    (buff : List ℕ) (n : ℕ)
    → n ≤ length buff
    → is_valid_http_req buff n ≡ ok (not (ltb n 16) && begins_with_any types buff)
is_valid_http_req_lem (a ∷ b ∷ c ∷ d ∷ e ∷ f ∷ g ∷ rest) n h = elim (Bool-cases (ltb n 16)) [
  | inl short ↦ too_short (a ∷ b ∷ c ∷ d ∷ e ∷ f ∷ g ∷ rest) n (ltb→lt n 16 short)
  | inr long ↦ unfold is_valid_http_req in rw long (all_bytes a b c d e f g rest)
]
is_valid_http_req_lem [] n h = too_short [] n (omega arith)
is_valid_http_req_lem (a ∷ []) n h = too_short (a ∷ []) n (omega arith)
is_valid_http_req_lem (a ∷ b ∷ []) n h = too_short (a ∷ b ∷ []) n (omega arith)
is_valid_http_req_lem (a ∷ b ∷ c ∷ []) n h = too_short (a ∷ b ∷ c ∷ []) n (omega arith)
is_valid_http_req_lem (a ∷ b ∷ c ∷ d ∷ []) n h = too_short (a ∷ b ∷ c ∷ d ∷ []) n (omega arith)
is_valid_http_req_lem (a ∷ b ∷ c ∷ d ∷ e ∷ []) n h =
    too_short (a ∷ b ∷ c ∷ d ∷ e ∷ []) n (omega arith)
is_valid_http_req_lem (a ∷ b ∷ c ∷ d ∷ e ∷ f ∷ []) n h =
    too_short (a ∷ b ∷ c ∷ d ∷ e ∷ f ∷ []) n (omega arith)
