-- ===== src/Cache/Lru/Fetch.antt =====
-- `fetch_item` on the list of the files of the cache.
use liburing_server.Prelude.{
  false_ne_true, ℕ, ◌<◌, ◌≡◌, ◌≢◌, refl, sym, ap, ◌∙◌, arith, true, false, List, [], ◌∷◌, ◌++◌,
  length, length-append, Option, none, some, ok, if◌then◌else◌, ◌==◌, lt→ltb, increment, has,
  has-append, IsSetList, IsSetList-append, IsSetList-parts, All, All-parts, All-append, Bool-cases,
  inl, inr, ==_iff, eq→==, ne→not-==, put_index,
}
use mathlib.Core.Path.{subst}
use liburing_server.Cache.{Cache, TcpClient, set_item, fetch_item}
use liburing_server.Cache.Linked.{Linked, SameLinks, Linked-frame, Linked-parts, front_of, back_of}
use liburing_server.Cache.Lru.{
  Entry, Place, find, slots_of, assigned, using, locked_once, fetched, Holds, IsBlank, Represents,
}
use liburing_server.Cache.Lru.Moves.{SameContent, IsList, fetch_slot-IsList}
use liburing_server.Cache.Lru.Paths.{
  slots_of-append, Found, find-Found, slot_of-moved, DistinctPaths-moved,
}

-- The cache after the lock, before anything is moved.
abbrev pub with_lock : Cache → ℕ → ℕ → Cache
with_lock c client_idx i = record c {
  cache_buffer =
      set_item c.cache_buffer i
        (record (c.cache_buffer i) { lock_number = increment (c.cache_buffer i).lock_number });
  client_idx_to_cache_idx = put_index c.client_idx_to_cache_idx client_idx (some i);
}

with_lock-SameLinks :
    (c : Cache) (client_idx i j : ℕ)
    → SameLinks (c.cache_buffer j) ((with_lock c client_idx i).cache_buffer j)
with_lock-SameLinks c client_idx i j = elim (Bool-cases (i == j)) [
  | inl hit ↦
      let e = (==_iff i j).0 hit in
      rw hit
        (ap (λ k. (c.cache_buffer k).prev_item_idx) e, ap (λ k. (c.cache_buffer k).next_item_idx) e)
  | inr miss ↦ rw miss (refl, refl)
]

pub slots_inside :
    (c : Cache) (es : List Entry) → All (Holds c) es → All (λ i. i < c.slots) (slots_of es)
slots_inside c [] h = tt
slots_inside c (e ∷ es) (here, h) = (here.0, slots_inside c es h)

-- The content of every other slot is as it was.
abbrev pub Others : Cache → Cache → ℕ → Type 0
Others c d i = (j : ℕ) → i ≢ j → SameContent (c.cache_buffer j) (d.cache_buffer j)

pub held_kept :
    (c d : Cache) (i : ℕ) (xs : List Entry)
    → d.slots ≡ c.slots
    → ((j : ℕ) → i ≢ j → has j d.free_idxs ≡ has j c.free_idxs)
    → ((j : ℕ) → i ≢ j → d.cache_idx_to_filepath j ≡ c.cache_idx_to_filepath j)
    → Others c d i
    → has i (slots_of xs) ≡ false
    → All (Holds c) xs
    → All (Holds d) xs
held_kept c d i [] s f p others out h = tt
held_kept c d i (x ∷ xs) s f p others out ((inside, used, bytes, locks, fresh, path), h) =
    let ne : i ≢ x.slot = λ e. ground arith in
    let (b, l, o) = others x.slot ne in
    (
      (
        omega (arith, inside, s),
        f x.slot ne ∙ used,
        b ∙ bytes,
        l ∙ locks,
        o ∙ fresh,
        p x.slot ne ∙ path,
      ),
      held_kept c d i xs s f p others (ground arith) h,
    )

pub IsBlank-kept :
    (c d : Cache) (i : ℕ)
    → d.slots ≡ c.slots
    → Others c d i
    → has i c.free_idxs ≡ false
    → ((j : ℕ) → has j c.free_idxs ≡ true → IsBlank c j)
    → (j : ℕ) → has j c.free_idxs ≡ true
    → IsBlank d j
IsBlank-kept c d i s others used h j m =
    let (inside, locks, fresh) = h j m in
    let (b, l, o) = others j (λ e. false_ne_true (sym used ∙ ap (λ k. has k c.free_idxs) e ∙ m)) in
    (omega (arith, inside, s), l ∙ locks, o ∙ fresh)

-- The slot of an entry goes to the end, and stays a set with the others.
pub IsSetList-moved :
    (xs : List ℕ) (i : ℕ) (ys : List ℕ)
    → IsSetList (xs ++ (i ∷ ys))
    → IsSetList (xs ++ (ys ++ (i ∷ []))) × (has i xs ≡ false) × (has i ys ≡ false)
IsSetList-moved xs i ys h =
    let (hx, (out, hy), apart) = IsSetList-parts xs (i ∷ ys) h in
    let outside : has i xs ≡ false = elim (Bool-cases (has i xs)) [
      | inl there ↦ absurd (contradiction (sym (here i ys) ∙ apart i there))
      | inr fine ↦ fine
    ] in
    (
      IsSetList-append xs (ys ++ (i ∷ [])) hx
          (IsSetList-append ys (i ∷ []) hy (refl, tt) (λ a m. ground arith))
          (λ a m. has-append a ys (i ∷ []) ∙ same a ys (apart a m)),
      outside,
      out,
    )
  where
    contradiction : true ≡ false → ⊥
    contradiction e = cc

    here : (i : ℕ) (ys : List ℕ) → has i (i ∷ ys) ≡ true
    here i ys = ground arith

    same :
        (a : ℕ) (ys : List ℕ)
        → has a (i ∷ ys) ≡ false
        → (if has a ys then true else has a (i ∷ [])) ≡ false
    same a ys h = ground arith

module _ (c : Cache) (p : List ℕ) (client_idx : ℕ) (client : TcpClient) where
  -- The path is that of the entry `e`.
  fetch_hit :
      (xs : List Entry) (e : Entry) (ys : List Entry)
      → Represents c (xs ++ (e ∷ ys))
      → c.filepath_to_cache_idx p ≡ some e.slot
      → (d : Cache) × (fetch_item c p client_idx client
          ≡ ok (
            some (record { slot = e.slot; size = length e.bytes }),
            d,
            record client { using_file = true },
          ))
        × Represents d (xs ++ (ys ++ (locked_once e ∷ [])))
        × (d.free_idxs ≡ c.free_idxs)
        × (d.client_idx_to_cache_idx ≡ put_index c.client_idx_to_cache_idx client_idx (some e.slot))
        × (d.slots ≡ c.slots)
  unfolding fetch_item
  fetch_hit xs e ys r there =
      let i = e.slot in
      let l = with_lock c client_idx i in
      let joined = slots_of-append xs (e ∷ ys) in
      let (hx, (here, hy)) = All-parts (Holds c) xs (e ∷ ys) r.held in
      let (inside, used, bytes, locks, fresh, path) = here in
      let unique : IsSetList (slots_of xs ++ (i ∷ slots_of ys)) =
        subst IsSetList joined r.distinct in
      let linked : Linked c.cache_buffer none (slots_of xs ++ (i ∷ slots_of ys)) none =
        subst (λ k. Linked c.cache_buffer none k none) joined r.linked in
      let (lx, (prev, next, ly)) =
        Linked-parts c.cache_buffer none (slots_of xs) (i ∷ slots_of ys) none linked in
      let is : IsList l (slots_of xs ++ (i ∷ slots_of ys)) = (
        Linked-frame c.cache_buffer l.cache_buffer none (slots_of xs ++ (i ∷ slots_of ys)) none
            (λ j m. with_lock-SameLinks c client_idx i j) linked,
        r.lowest ∙ ap (λ k. front_of k none) joined,
        r.highest ∙ ap (back_of none) joined,
      ) in
      let (d, ran, is', re) =
        fetch_slot-IsList l (slots_of xs) i (slots_of ys) (c.cache_buffer i) is unique
          (subst (All (λ k. k < c.slots)) joined (slots_inside c (xs ++ (e ∷ ys)) r.held)) prev next
          fresh in
      let (unique', outx, outy) = IsSetList-moved (slots_of xs) i (slots_of ys) unique in
      let others : Others c d i = λ j ne. elsewhere d i j ne (re.content j) in
      let rejoined : slots_of (xs ++ (ys ++ (locked_once e ∷ [])))
          ≡ slots_of xs ++ (slots_of ys ++ (i ∷ [])) =
        slots_of-append xs (ys ++ (locked_once e ∷ []))
        ∙ ap (λ k. slots_of xs ++ k) (slots_of-append ys (locked_once e ∷ [])) in
      let (b, lk, o) = re.content i in
      (
        d,
        rw (fetch_item, there, lt→ltb i c.slots inside, ran)
            (ap
              (λ n.
                ok (some (record { slot = i; size = n }), d, record client { using_file = true }))
              (ap length bytes)),
        record {
          linked = subst (λ k. Linked d.cache_buffer none k none) (sym rejoined) is'.0;
          lowest = is'.1 ∙ ap (λ k. front_of k none) (sym rejoined);
          highest = is'.2 ∙ ap (back_of none) (sym rejoined);
          distinct = subst IsSetList (sym rejoined) unique';
          paths = λ q.
              ap (λ m. m q) re.filepath_to_cache_idx
              ∙ r.paths q
              ∙ sym (slot_of-moved q xs e ys r.once);
          once = DistinctPaths-moved xs e ys r.once;
          held =
              All-append (Holds d) xs (ys ++ (locked_once e ∷ []))
                (held_kept c d i xs re.slots (λ j ne. ap (has j) re.free_idxs)
                  (λ j ne. ap (λ m. m j) re.cache_idx_to_filepath) others outx hx)
                (All-append (Holds d) ys (locked_once e ∷ [])
                  (held_kept c d i ys re.slots (λ j ne. ap (has j) re.free_idxs)
                    (λ j ne. ap (λ m. m j) re.cache_idx_to_filepath) others outy hy)
                  (
                    (
                      omega (arith, inside, re.slots),
                      ap (has i) re.free_idxs ∙ used,
                      b ∙ rw (eq→== i i refl) bytes,
                      lk ∙ rw (eq→== i i refl) (ap increment locks),
                      o ∙ rw (eq→== i i refl) fresh,
                      ap (λ m. m i) re.cache_idx_to_filepath ∙ path,
                    ),
                    tt,
                  ));
          free = λ j m.
              IsBlank-kept c d i re.slots others used r.free j (ap (has j) (sym re.free_idxs) ∙ m);
          unique = subst IsSetList (sym re.free_idxs) r.unique;
          all = omega (
            arith,
            r.all,
            re.slots,
            ap length re.free_idxs,
            length-append xs (e ∷ ys),
            length-append xs (ys ++ (locked_once e ∷ [])),
            length-append ys (locked_once e ∷ []),
          );
        },
        re.free_idxs,
        re.client_idx_to_cache_idx,
        re.slots,
      )
    where
      elsewhere :
          (d : Cache) (i j : ℕ)
          → i ≢ j
          → SameContent ((with_lock c client_idx i).cache_buffer j) (d.cache_buffer j)
          → SameContent (c.cache_buffer j) (d.cache_buffer j)
      elsewhere d i j ne same =
          let item : (with_lock c client_idx i).cache_buffer j ≡ c.cache_buffer j =
            rw (ne→not-== i j ne) refl in
          subst (λ x. SameContent x (d.cache_buffer j)) item same

  -- What a fetch makes of the list, where the path has this place in it.
  abbrev pub Fetches : Option Place → List Entry → Type 0
  Fetches o es =
      (d : Cache) × (fetch_item c p client_idx client ≡ ok ((fetched es o).0, d, using client o))
      × Represents d (fetched es o).1
      × (d.free_idxs ≡ c.free_idxs)
      × (d.client_idx_to_cache_idx ≡ assigned c.client_idx_to_cache_idx client_idx o)
      × (d.slots ≡ c.slots)

  -- Fetch.
  pub fetch_item-Represents : (es : List Entry) → Represents c es → Fetches (find p es) es
  unfolding fetch_item
  fetch_item-Represents es r = of_place (find p es) (find-Found p es)
    where
      of_place : (o : Option Place) → Found p es o → Fetches o es
      of_place none h = (c, rw (fetch_item, r.paths p ∙ h) refl, r, refl, refl, refl)
      of_place (some place) (split, at) =
          fetch_hit place.before place.here place.after (subst (Represents c) split r)
            (r.paths p ∙ at)
