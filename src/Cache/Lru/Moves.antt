-- ===== src/Cache/Lru/Moves.antt =====
-- `fetch_slot`: the slot that was fetched goes to the end of the list, and only links change.
use liburing_server.Prelude.{
  ℕ, ◌<◌, ◌≡◌, refl, sym, ap, ◌∙◌, arith, true, false, List, [], ◌∷◌, ◌++◌, length, Option, none,
  some, ok, ◌==◌, lt→ltb, has, has-append, IsSetList, IsSetList-append, IsSetList-parts, All, eq→==,
  Bool-cases, inl, inr, ==_iff,
}
use mathlib.Core.Path.{subst}
use liburing_server.Cache.{Cache, CacheItem, set_next, set_prev, unlink, promote, fetch_slot}
use liburing_server.Cache.Linked.{
  Linked, front_of, back_of, back_of-append, front_of-append, Linked-append, Linked-parts,
  Linked-outside, Linked-set_next, Linked-set_prev,
}

abbrev pub SameContent : CacheItem → CacheItem → Type 0
SameContent a b =
    (b.buffer ≡ a.buffer) × (b.lock_number ≡ a.lock_number) × (b.outdated ≡ a.outdated)

-- Only links have changed.
pub record Relinked (c d : Cache) : Type 0 where
  pub slots : d.slots ≡ c.slots
  pub filepath_to_cache_idx : d.filepath_to_cache_idx ≡ c.filepath_to_cache_idx
  pub cache_idx_to_filepath : d.cache_idx_to_filepath ≡ c.cache_idx_to_filepath
  pub free_idxs : d.free_idxs ≡ c.free_idxs
  pub client_idx_to_cache_idx : d.client_idx_to_cache_idx ≡ c.client_idx_to_cache_idx
  pub content : (i : ℕ) → SameContent (c.cache_buffer i) (d.cache_buffer i)

-- The slots of a list, linked in its order.
abbrev pub IsList : Cache → List ℕ → Type 0
IsList c xs =
    Linked c.cache_buffer none xs none
    × (c.lowest_idx ≡ front_of xs none)
    × (c.highest_idx ≡ back_of none xs)

pub set_next-SameContent :
    (buf : ℕ → CacheItem) (h : ℕ) (n : Option ℕ) (i : ℕ) → SameContent (buf i) (set_next buf h n i)
set_next-SameContent buf h n i = elim (Bool-cases (h == i)) [
  | inl same ↦
      let e = (==_iff h i).0 same in
      rw same
        (ap (λ k. (buf k).buffer) e, ap (λ k. (buf k).lock_number) e, ap (λ k. (buf k).outdated) e)
  | inr other ↦ rw other (refl, refl, refl)
]

pub set_prev-SameContent :
    (buf : ℕ → CacheItem) (h : ℕ) (n : Option ℕ) (i : ℕ) → SameContent (buf i) (set_prev buf h n i)
set_prev-SameContent buf h n i = elim (Bool-cases (h == i)) [
  | inl same ↦
      let e = (==_iff h i).0 same in
      rw same
        (ap (λ k. (buf k).buffer) e, ap (λ k. (buf k).lock_number) e, ap (λ k. (buf k).outdated) e)
  | inr other ↦ rw other (refl, refl, refl)
]

SameContent-trans : (a b c : CacheItem) → SameContent a b → SameContent b c → SameContent a c
SameContent-trans a b c (x, y, z) (x', y', z') = (x' ∙ x, y' ∙ y, z' ∙ z)

-- The last slot of a list that is not empty.
pub last_of :
    (x : ℕ) (xs : List ℕ) → (h : ℕ) × (back_of (some x) xs ≡ some h) × (has h (x ∷ xs) ≡ true)
last_of x [] = (x, refl, ground arith)
last_of x (y ∷ ys) = let (h, e, m) = last_of y ys in (h, e, ground arith)

pub inside_of : (n : ℕ) (xs : List ℕ) (i : ℕ) → All (λ k. k < n) xs → has i xs ≡ true → i < n
inside_of n [] i h m = cc
inside_of n (x ∷ xs) i (here, h) m = elim (Bool-cases (x == i)) [
  | inl same ↦ let e = (==_iff x i).0 same in omega (arith, here, e)
  | inr other ↦ inside_of n xs i h (ground arith)
]

-- `promote` after the slot has been taken out of its place.
promote-IsList :
    (c : Cache) (xs : List ℕ) (y : ℕ) (ys : List ℕ) (i : ℕ)
    → IsList c (xs ++ (y ∷ ys))
    → IsSetList (xs ++ (y ∷ ys))
    → All (λ k. k < c.slots) (y ∷ ys)
    → has i (xs ++ (y ∷ ys)) ≡ false
    → (d : Cache) × (promote c i ≡ ok d) × IsList d (xs ++ ((y ∷ ys) ++ (i ∷ []))) × Relinked c d
unfolding promote
promote-IsList c xs y ys i (l, low, high) unique inside out =
    let (h, last, m) = last_of y ys in
    let top : c.highest_idx ≡ some h = high ∙ back_of-append none xs (y ∷ ys) ∙ last in
    let (u, u', apart) = IsSetList-parts xs (y ∷ ys) unique in
    let (lx, ly) = Linked-parts c.cache_buffer none xs (y ∷ ys) none l in
    let h_out : has h xs ≡ false = ground (arith, apart h) in
    let i_outx : has i xs ≡ false = ground (arith, has-append i xs (y ∷ ys)) in
    let i_outy : has i (y ∷ ys) ≡ false = ground (arith, has-append i xs (y ∷ ys)) in
    let b1 = set_next c.cache_buffer h (some i) in
    let b2 = set_next b1 i none in
    let b3 = set_prev b2 i (some h) in
    let d = record c { cache_buffer = b3; highest_idx = some i } in
    let before : Linked b3 none xs (some y) =
      Linked-outside b2 i (record (b2 i) { prev_item_idx = some h }) none xs (some y) i_outx
        (Linked-outside b1 i (record (b1 i) { next_item_idx = none }) none xs (some y) i_outx
          (Linked-outside c.cache_buffer h (record (c.cache_buffer h) { next_item_idx = some i })
            none xs (some y) h_out lx)) in
    let after : Linked b3 (back_of none xs) (y ∷ ys) (some i) =
      Linked-outside b2 i (record (b2 i) { prev_item_idx = some h }) (back_of none xs) (y ∷ ys)
        (some i) i_outy
        (Linked-outside b1 i (record (b1 i) { next_item_idx = none }) (back_of none xs) (y ∷ ys)
          (some i) i_outy
          (Linked-set_next c.cache_buffer (back_of none xs) y ys none (some i) h u' last ly)) in
    let end : Linked b3 (back_of (some y) ys) (i ∷ []) none =
      rw (last, eq→== i i refl) (refl, refl, tt) in
    (
      d,
      rw (top, lt→ltb h c.slots (inside_of c.slots (y ∷ ys) h inside m)) refl,
      (
        Linked-append b3 none xs ((y ∷ ys) ++ (i ∷ [])) none before
            (Linked-append b3 (back_of none xs) (y ∷ ys) (i ∷ []) none after end),
        low
            ∙ front_of-append xs (y ∷ ys) none
            ∙ sym (front_of-append xs ((y ∷ ys) ++ (i ∷ [])) none),
        sym (back_of-append none xs ((y ∷ ys) ++ (i ∷ [])) ∙ back_of-append (some y) ys (i ∷ [])),
      ),
      record {
        slots = refl;
        filepath_to_cache_idx = refl;
        cache_idx_to_filepath = refl;
        free_idxs = refl;
        client_idx_to_cache_idx = refl;
        content = λ j.
            SameContent-trans (c.cache_buffer j) (b1 j) (b3 j)
              (set_next-SameContent c.cache_buffer h (some i) j)
              (SameContent-trans (b1 j) (b2 j) (b3 j) (set_next-SameContent b1 i none j)
                (set_prev-SameContent b2 i (some h) j));
      },
    )

-- `unlink` of the first slot, and of one behind another.
unlink-IsList :
    (c : Cache) (xs : List ℕ) (i y : ℕ) (ys : List ℕ)
    → IsList c (xs ++ (i ∷ y ∷ ys))
    → IsSetList (xs ++ (i ∷ y ∷ ys))
    → All (λ k. k < c.slots) (xs ++ (i ∷ y ∷ ys))
    → (d : Cache) × (unlink c (back_of none xs) (some y) ≡ ok d)
      × IsList d (xs ++ (y ∷ ys))
      × Relinked c d
unfolding unlink
unlink-IsList c [] i y ys ((prev, next, l), low, high) (out, (out', unique))
      (inside, (inside', rest)) =
    (
      record c { cache_buffer = set_prev c.cache_buffer y none; lowest_idx = some y },
      rw (lt→ltb y c.slots inside') refl,
      (Linked-set_prev c.cache_buffer (some i) none y ys none out' l, refl, high),
      record {
        slots = refl;
        filepath_to_cache_idx = refl;
        cache_idx_to_filepath = refl;
        free_idxs = refl;
        client_idx_to_cache_idx = refl;
        content = set_prev-SameContent c.cache_buffer y none;
      },
    )
unlink-IsList c (x ∷ xs) i y ys (l, low, high) unique inside =
    let (p, last, m) = last_of x xs in
    let (u, (out, (out', u')), apart) = IsSetList-parts (x ∷ xs) (i ∷ y ∷ ys) unique in
    let (lx, (prev, next, ly)) = Linked-parts c.cache_buffer none (x ∷ xs) (i ∷ y ∷ ys) none l in
    let p_out : has p (y ∷ ys) ≡ false = not_behind p i (y ∷ ys) (apart p m) in
    let y_out : has y (x ∷ xs) ≡ false = elim (Bool-cases (has y (x ∷ xs))) [
      | inl there ↦ absurd (true_ne_false (sym (here y i ys) ∙ apart y there))
      | inr fine ↦ fine
    ] in
    let b1 = set_next c.cache_buffer p (some y) in
    let b2 = set_prev b1 y (some p) in
    let y_in : has y ((x ∷ xs) ++ (i ∷ y ∷ ys)) ≡ true =
      either_part y (x ∷ xs) (i ∷ y ∷ ys) (here y i ys) in
    let p_in : has p ((x ∷ xs) ++ (i ∷ y ∷ ys)) ≡ true =
      has-append p (x ∷ xs) (i ∷ y ∷ ys) ∙ rw m refl in
    let before : Linked b2 none (x ∷ xs) (some y) =
      Linked-outside b1 y (record (b1 y) { prev_item_idx = some p }) none (x ∷ xs) (some y) y_out
        (Linked-set_next c.cache_buffer none x xs (some i) (some y) p u last lx) in
    let after : Linked b2 (back_of (some x) xs) (y ∷ ys) none = rw last (
      Linked-set_prev b1 (some i) (some p) y ys none out' (
        Linked-outside c.cache_buffer p (record (c.cache_buffer p) { next_item_idx = some y })
          (some i) (y ∷ ys) none p_out ly)) in
    (
      record c { cache_buffer = b2 },
      rw
          (
            last,
            lt→ltb p c.slots (inside_of c.slots ((x ∷ xs) ++ (i ∷ y ∷ ys)) p inside p_in),
            lt→ltb y c.slots (inside_of c.slots ((x ∷ xs) ++ (i ∷ y ∷ ys)) y inside y_in),
          )
          refl,
      (
        Linked-append b2 none (x ∷ xs) (y ∷ ys) none before after,
        low,
        high
            ∙ back_of-append none (x ∷ xs) (i ∷ y ∷ ys)
            ∙ sym (back_of-append none (x ∷ xs) (y ∷ ys)),
      ),
      record {
        slots = refl;
        filepath_to_cache_idx = refl;
        cache_idx_to_filepath = refl;
        free_idxs = refl;
        client_idx_to_cache_idx = refl;
        content = λ j.
            SameContent-trans (c.cache_buffer j) (b1 j) (b2 j)
              (set_next-SameContent c.cache_buffer p (some y) j)
              (set_prev-SameContent b1 y (some p) j);
      },
    )
  where
    true_ne_false : true ≡ false → ⊥
    true_ne_false e = cc

    not_behind : (a i : ℕ) (ys : List ℕ) → has a (i ∷ ys) ≡ false → has a ys ≡ false
    not_behind a i ys h = ground arith

    either_part : (a : ℕ) (xs ys : List ℕ) → has a ys ≡ true → has a (xs ++ ys) ≡ true
    either_part a xs ys h = ground (arith, has-append a xs ys)

    here : (y i : ℕ) (ys : List ℕ) → has y (i ∷ y ∷ ys) ≡ true
    here y i ys = ground arith

Relinked-trans : (c d e : Cache) → Relinked c d → Relinked d e → Relinked c e
Relinked-trans c d e r s = record {
  slots = s.slots ∙ r.slots;
  filepath_to_cache_idx = s.filepath_to_cache_idx ∙ r.filepath_to_cache_idx;
  cache_idx_to_filepath = s.cache_idx_to_filepath ∙ r.cache_idx_to_filepath;
  free_idxs = s.free_idxs ∙ r.free_idxs;
  client_idx_to_cache_idx = s.client_idx_to_cache_idx ∙ r.client_idx_to_cache_idx;
  content = λ i.
      SameContent-trans (c.cache_buffer i) (d.cache_buffer i) (e.cache_buffer i) (r.content i)
        (s.content i);
}

-- The slot that was fetched, `i`, is the most recent one.
pub fetch_slot-IsList :
    (c : Cache) (xs : List ℕ) (i : ℕ) (ys : List ℕ) (item : CacheItem)
    → IsList c (xs ++ (i ∷ ys))
    → IsSetList (xs ++ (i ∷ ys))
    → All (λ k. k < c.slots) (xs ++ (i ∷ ys))
    → item.prev_item_idx ≡ back_of none xs
    → item.next_item_idx ≡ front_of ys none
    → item.outdated ≡ false
    → (d : Cache) × (fetch_slot c i item
        ≡ ok (some (record { slot = i; size = length item.buffer }), d))
      × IsList d (xs ++ (ys ++ (i ∷ [])))
      × Relinked c d
unfolding fetch_slot
fetch_slot-IsList c xs i [] item is unique inside prev next fresh = (
  c,
  rw (next, fresh) refl,
  is,
  record {
    slots = refl;
    filepath_to_cache_idx = refl;
    cache_idx_to_filepath = refl;
    free_idxs = refl;
    client_idx_to_cache_idx = refl;
    content = λ j. (refl, refl, refl);
  },
)
fetch_slot-IsList c xs i (y ∷ ys) item is unique inside prev next fresh =
    let (d, ran, is', r) = unlink-IsList c xs i y ys is unique inside in
    let (u, (out, u'), apart) = IsSetList-parts xs (i ∷ y ∷ ys) unique in
    let (e, ran', is'', r') =
      promote-IsList d xs y ys i is'
        (IsSetList-append xs (y ∷ ys) u u' (λ a m. ground (arith, apart a m)))
        (subst (λ n. All (λ k. k < n) (y ∷ ys)) (sym r.slots) (All-back xs (i ∷ y ∷ ys) inside).1)
        (ground (arith, has-append i xs (y ∷ ys), apart i)) in
    (e, rw (next, prev, ran, fresh, ran') refl, is'', Relinked-trans c d e r r')
  where
    All-back : (xs ys : List ℕ) → All (λ k. k < c.slots) (xs ++ ys) → All (λ k. k < c.slots) ys
    All-back [] ys h = h
    All-back (x ∷ xs) ys (here, h) = All-back xs ys h
