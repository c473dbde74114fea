-- ===== src/Cache/Lru/Insert.antt =====
-- `try_insert_item` on the list of the files of the cache.
use liburing_server.Prelude.{
  ℕ, suc, ◌+◌, ◌<◌, ◌≤◌, ◌≡◌, refl, sym, ap, ◌∙◌, arith, true, false, List, [], ◌∷◌, ◌++◌, length,
  length-append, Option, none, some, ok, if◌then◌else◌, ◌==◌, lt→ltb, ℤ, equals, same_ℤ, has,
  has-erase, erase, erase_absent, IsSetList, IsSetList-erase, IsSetList-append, same_bytes,
  eq_of_same_bytes, All, All-append, Bool-cases, inl, inr, ==_iff, eq→==, ne→not-==, put_index,
  put_path,
}
use mathlib.Core.Path.{subst}
use liburing_server.DataStore.{HashOrder}
use liburing_server.Cache.{
  Cache, CacheItem, blank_item, set_item, set_next, set_prev, evicted, evict_lowest, choose_slot,
  fill_slot, try_insert_item,
}
use liburing_server.Cache.Linked.{
  Linked, front_of, back_of, front_of-append, back_of-append, Linked-append, Linked-outside,
  Linked-set_next, Linked-set_prev,
}
use liburing_server.Cache.Lru.{
  Entry, slots_of, slot_of, fresh_entry, inserted, left, Holds, IsBlank, DistinctPaths, Represents,
}
use liburing_server.Cache.Lru.Moves.{
  SameContent, set_next-SameContent, set_prev-SameContent, last_of, inside_of,
}
use liburing_server.Cache.Lru.Paths.{slots_of-append, slot_of-snoc, DistinctPaths-snoc}
use liburing_server.Cache.Lru.Fetch.{Others, slots_inside, held_kept, IsBlank-kept}

pub length-erase :
    (a : ℕ) (xs : List ℕ) → IsSetList xs → has a xs ≡ true → suc (length (erase a xs)) ≡ length xs
unfolding erase
length-erase a [] u m = cc
length-erase a (x ∷ xs) (out, u) m = elim (Bool-cases (x == a)) [
  | inl hit ↦
      let gone : erase a xs ≡ xs =
        erase_absent a xs (ap (λ k. has k xs) (sym ((==_iff x a).0 hit)) ∙ out) in
      rw (hit, gone) refl
  | inr miss ↦ rw miss (ap suc (length-erase a xs u (ground arith)))
]

-- A slot is ready for a file that is not in the cache: it was free, or has been taken from another file.
record Ready (c : Cache) (es : List Entry) (i : ℕ) : Type 0 where
  linked : Linked c.cache_buffer none (slots_of es) none
  lowest : c.lowest_idx ≡ front_of (slots_of es) (some i)
  highest : c.highest_idx ≡ back_of none (slots_of es)
  distinct : IsSetList (slots_of es)
  paths : (p : List ℕ) → c.filepath_to_cache_idx p ≡ slot_of p es
  once : DistinctPaths es
  held : All (Holds c) es
  free : (j : ℕ) → has j c.free_idxs ≡ true → IsBlank c j
  unique : IsSetList c.free_idxs
  all : length c.free_idxs + suc (length es) ≡ c.slots
  outside : has i (slots_of es) ≡ false
  used : has i c.free_idxs ≡ false
  blank : IsBlank c i

abbrev placed_item : Cache → (ℕ → CacheItem) → ℕ → List ℕ → ℤ → CacheItem
placed_item c buf i bytes watch = record (buf i) {
  watch = watch;
  prev_item_idx = c.highest_idx;
  next_item_idx = none;
  buffer = bytes;
}

-- What `fill_slot` makes of the buffer that its first step gives.
abbrev filled : Cache → (ℕ → CacheItem) → ℕ → List ℕ → List ℕ → ℤ → Cache
filled c buf i p bytes watch = record c {
  cache_buffer = set_item buf i (placed_item c buf i bytes watch);
  filepath_to_cache_idx = put_path c.filepath_to_cache_idx p (some i);
  cache_idx_to_filepath = put_index c.cache_idx_to_filepath i (some p);
  watch_to_cache_idx = (λ w. if same_ℤ watch w then some i else c.watch_to_cache_idx w);
  highest_idx = some i;
}

module _ (c : Cache) (i : ℕ) (p bytes : List ℕ) (watch : ℤ) where
  -- The first step: the last slot of the list, if there is one, is linked to the new one.
  first_step :
      (xs : List ℕ)
      → c.highest_idx ≡ back_of none xs
      → IsSetList xs
      → All (λ k. k < c.slots) xs
      → has i xs ≡ false
      → Linked c.cache_buffer none xs none
      → (buf : ℕ → CacheItem) × (fill_slot c i p bytes watch ≡ ok (filled c buf i p bytes watch))
        × Linked (filled c buf i p bytes watch).cache_buffer none (xs ++ (i ∷ [])) none
        × ((j : ℕ) → SameContent (c.cache_buffer j) (buf j))
  unfolding fill_slot
  first_step [] high unique inside out l = (
    c.cache_buffer,
    rw (fill_slot, high) refl,
    rw (eq→== i i refl, high) (refl, refl, tt),
    λ j. (refl, refl, refl),
  )
  first_step (x ∷ xs) high unique inside out l =
      let (h, last, m) = last_of x xs in
      let buf = set_next c.cache_buffer h (some i) in
      (
        buf,
        rw (fill_slot, high, last, lt→ltb h c.slots (inside_of c.slots (x ∷ xs) h inside m)) refl,
        Linked-append (filled c buf i p bytes watch).cache_buffer none (x ∷ xs) (i ∷ []) none
            (Linked-outside buf i (placed_item c buf i bytes watch) none (x ∷ xs) (some i) out
              (Linked-set_next c.cache_buffer none x xs none (some i) h unique last l))
            (rw (eq→== i i refl) (high, refl, tt)),
        set_next-SameContent c.cache_buffer h (some i),
      )

  fill_slot-Represents :
      (es : List Entry)
      → Ready c es i
      → slot_of p es ≡ none
      → (d : Cache) × (fill_slot c i p bytes watch ≡ ok d)
        × Represents d (es ++ (fresh_entry i p bytes ∷ []))
        × (d.free_idxs ≡ c.free_idxs)
        × (d.client_idx_to_cache_idx ≡ c.client_idx_to_cache_idx)
        × (d.slots ≡ c.slots)
  fill_slot-Represents es r absent =
      let (buf, ran, linked, same) =
        first_step (slots_of es) r.highest r.distinct (slots_inside c es r.held) r.outside
          r.linked in
      let d = filled c buf i p bytes watch in
      let joined = slots_of-append es (fresh_entry i p bytes ∷ []) in
      let others : Others c d i = λ j ne. rw (ne→not-== i j ne) (same j) in
      let (inside, locks, fresh) = r.blank in
      let (b, lk, o) = same i in
      (
        d,
        ran,
        record {
          linked = subst (λ k. Linked d.cache_buffer none k none) (sym joined) linked;
          lowest =
              r.lowest
              ∙ sym
                  (ap (λ k. front_of k none) joined ∙ front_of-append (slots_of es) (i ∷ []) none);
          highest = sym (ap (back_of none) joined ∙ back_of-append none (slots_of es) (i ∷ []));
          distinct = subst IsSetList (sym joined) (
              IsSetList-append (slots_of es) (i ∷ []) r.distinct (refl, tt)
                (λ a m. apart a (slots_of es) m r.outside));
          paths = λ q.
              ap (λ k. if same_bytes p q then some i else k) (r.paths q)
              ∙ sym (slot_of-snoc q es (fresh_entry i p bytes) absent);
          once = DistinctPaths-snoc es (fresh_entry i p bytes) r.once absent;
          held =
              All-append (Holds d) es (fresh_entry i p bytes ∷ [])
                (held_kept c d i es refl (λ j ne. refl) (λ j ne. rw (ne→not-== i j ne) refl) others
                  r.outside r.held)
                (
                  (
                    inside,
                    r.used,
                    rw (eq→== i i refl) refl,
                    rw (eq→== i i refl) (lk ∙ locks),
                    rw (eq→== i i refl) (o ∙ fresh),
                    rw (eq→== i i refl) refl,
                  ),
                  tt,
                );
          free = IsBlank-kept c d i refl others r.used r.free;
          unique = r.unique;
          all = omega (arith, r.all, length-append es (fresh_entry i p bytes ∷ []));
        },
        refl,
        refl,
        refl,
      )
    where
      apart : (a : ℕ) (xs : List ℕ) → has a xs ≡ true → has i xs ≡ false → has a (i ∷ []) ≡ false
      apart a xs m out = ground arith

-- A free slot holds no file.
pub free_elsewhere :
    (c : Cache) (i : ℕ) (es : List Entry)
    → has i c.free_idxs ≡ true
    → All (Holds c) es
    → has i (slots_of es) ≡ false
free_elsewhere c i [] m h = refl
free_elsewhere c i (e ∷ es) m ((inside, used, bytes, locks, fresh, path), hs) =
    elim (Bool-cases (e.slot == i)) [
      | inl hit ↦ absurd (
          true_ne_false
            (sym m ∙ ap (λ k. has k c.free_idxs) (sym ((==_iff e.slot i).0 hit)) ∙ used))
      | inr miss ↦ rw miss (free_elsewhere c i es m hs)
    ]
  where
    true_ne_false : true ≡ false → ⊥
    true_ne_false e = cc

-- `choose_slot` where a slot is free.
abbrev taken : Cache → ℕ → List ℕ → Cache
taken c i free = record c {
  free_idxs = erase i free;
  lowest_idx = elim c.lowest_idx [ none ↦ some i | some l ↦ some l ];
}

lowest_or :
    (i : ℕ) (xs : List ℕ)
    → ◌≡◌ {A = Option ℕ}
        (elim (front_of xs none) [ none ↦ some i | some l ↦ some l ])
        (front_of xs (some i))
lowest_or i [] = refl
lowest_or i (x ∷ xs) = refl

taken-Ready :
    (c : Cache) (es : List Entry) (i : ℕ)
    → Represents c es
    → has i c.free_idxs ≡ true
    → Ready (taken c i c.free_idxs) es i
taken-Ready c es i r m =
    let d = taken c i c.free_idxs in
    let out = free_elsewhere c i es m r.held in
    record {
      linked = r.linked;
      lowest = rw r.lowest (lowest_or i (slots_of es));
      highest = r.highest;
      distinct = r.distinct;
      paths = r.paths;
      once = r.once;
      held =
          held_kept c d i es refl (λ j ne. rw (has-erase i j c.free_idxs, ne→not-== i j ne) refl)
            (λ j ne. refl) (λ j ne. (refl, refl, refl)) out r.held;
      free = λ j g. r.free j (erased_before j c.free_idxs (sym (has-erase i j c.free_idxs) ∙ g));
      unique = IsSetList-erase i c.free_idxs r.unique;
      all = omega (arith, r.all, length-erase i c.free_idxs r.unique m);
      outside = out;
      used = has-erase i i c.free_idxs ∙ rw (eq→== i i refl) refl;
      blank = r.free i m;
    }
  where
    erased_before :
        (j : ℕ) (xs : List ℕ) → (if i == j then false else has j xs) ≡ true → has j xs ≡ true
    erased_before j xs g = ground arith

-- `evict_lowest` where the least recent file is not locked.
without_first :
    (q : List ℕ) (e : Entry) (es : List Entry)
    → slot_of e.filepath es ≡ none
    → (if same_bytes e.filepath q then none else slot_of q (e ∷ es)) ≡ slot_of q es
without_first q e es out = elim (Bool-cases (same_bytes e.filepath q)) [
  | inl hit ↦ rw hit (sym out ∙ ap (λ k. slot_of k es) (eq_of_same_bytes e.filepath q hit))
  | inr miss ↦ rw miss refl
]

evicted-Ready :
    (c : Cache) (e next : Entry) (es : List Entry)
    → Represents c (e ∷ next ∷ es)
    → c.free_idxs ≡ []
    → Ready (evicted c e.slot next.slot) (next ∷ es) e.slot
unfolding evicted
evicted-Ready c e next es r empty =
    let d = evicted c e.slot next.slot in
    let (prev, following, linked) = r.linked in
    let (out, unique) = r.distinct in
    let (absent, once) = r.once in
    let ((inside, used, bytes, locks, fresh, path), held) = r.held in
    let others : Others c d e.slot =
      λ j ne. rw (ne→not-== e.slot j ne) (set_prev-SameContent c.cache_buffer next.slot none j) in
    record {
      linked =
          Linked-outside (set_prev c.cache_buffer next.slot none) e.slot blank_item none
            (next.slot ∷ slots_of es) none out
            (Linked-set_prev c.cache_buffer (some e.slot) none next.slot (slots_of es) none unique.0
              linked);
      lowest = following;
      highest = r.highest;
      distinct = unique;
      paths = λ q. rw (path, r.paths q) (without_first q e (next ∷ es) absent);
      once = once;
      held =
          held_kept c d e.slot (next ∷ es) refl (λ j ne. refl)
            (λ j ne. rw (ne→not-== e.slot j ne) refl) others out held;
      free = IsBlank-kept c d e.slot refl others used r.free;
      unique = r.unique;
      all = omega (arith, r.all);
      outside = out;
      used = used;
      blank = (inside, rw (eq→== e.slot e.slot refl) refl, rw (eq→== e.slot e.slot refl) refl);
    }

module _ (order : HashOrder) (c : Cache) (p bytes : List ℕ) (watch : ℤ) where
  -- What an insertion makes of the list, where `free` are the free slots.
  abbrev pub Inserts : List ℕ → List Entry → Type 0
  Inserts free es =
      (d : Cache) × (try_insert_item order c p bytes watch
        ≡ ok ((inserted order free p bytes es).0, d))
      × Represents d (inserted order free p bytes es).1
      × (d.free_idxs ≡ left order free)
      × (d.client_idx_to_cache_idx ≡ c.client_idx_to_cache_idx)
      × (d.slots ≡ c.slots)

  -- The insertion is its two steps.
  inserts_into :
      (i : ℕ) (mid d : Cache)
      → choose_slot order c c.free_idxs ≡ ok (some i, mid)
      → fill_slot mid i p bytes watch ≡ ok d
      → try_insert_item order c p bytes watch ≡ ok (true, d)
  unfolding try_insert_item
  inserts_into i mid d chosen ran = rw (chosen, ran) refl

  Inserts-free :
      (x : ℕ) (xs : List ℕ) (es : List Entry)
      → c.free_idxs ≡ x ∷ xs
      → Represents c es
      → slot_of p es ≡ none
      → Inserts (x ∷ xs) es
  unfolding choose_slot
  Inserts-free x xs es some_free r absent =
      let i = order.first x xs in
      let ready = taken-Ready c es i r (ap (has i) some_free ∙ order.first-mem x xs) in
      let ready' : Ready (taken c i (x ∷ xs)) es i =
        subst (λ free. Ready (taken c i free) es i) some_free ready in
      let (d, ran, r', same, clients, size) =
        fill_slot-Represents (taken c i (x ∷ xs)) i p bytes watch es ready' absent in
      (
        d,
        inserts_into i (taken c i (x ∷ xs)) d (ap (choose_slot order c) some_free) ran,
        r',
        same,
        clients,
        size,
      )

  Inserts-last :
      (es : List Entry)
      → 2 ≤ c.slots
      → c.free_idxs ≡ []
      → Represents c es
      → slot_of p es ≡ none
      → Inserts [] es
  unfolding try_insert_item choose_slot evict_lowest evicted
  Inserts-last [] two empty r absent = absurd (omega (arith, two, r.all, ap length empty))
  Inserts-last (e ∷ []) two empty r absent = absurd (omega (arith, two, r.all, ap length empty))
  Inserts-last (e ∷ next ∷ es) two empty r absent =
      let (inside, used, bytes_e, locks, fresh, path) = r.held.0 in
      let (inside_next, used_next, bytes_next, locks_next, fresh_next, path_next) = r.held.1.0 in
      let (prev, following, linked) = r.linked in
      elim (Bool-cases (equals e.locks 0)) [
        | inl idle ↦
            let (d, ran, r', same, clients, size) =
              fill_slot-Represents (evicted c e.slot next.slot) e.slot p bytes watch (next ∷ es)
                (evicted-Ready c e next es r empty) (not_first absent) in
            let chosen : evict_lowest c ≡ ok (some e.slot, evicted c e.slot next.slot) =
              rw
                (
                  r.lowest,
                  lt→ltb e.slot c.slots inside,
                  locks,
                  idle,
                  following,
                  lt→ltb next.slot c.slots inside_next,
                )
                refl in
            (
              d,
              rw idle (
                  inserts_into e.slot (evicted c e.slot next.slot) d
                    (ap (choose_slot order c) empty ∙ chosen) ran),
              rw idle r',
              same ∙ empty,
              clients,
              size,
            )
        | inr busy ↦ (
          c,
          rw (empty, r.lowest, lt→ltb e.slot c.slots inside, locks, busy) refl,
          rw busy r,
          empty,
          refl,
          refl,
        )
      ]
    where
      not_first : slot_of p (e ∷ next ∷ es) ≡ none → slot_of p (next ∷ es) ≡ none
      not_first h = ground arith

  -- Insert.
  pub try_insert_item-Represents :
      (es : List Entry)
      → 2 ≤ c.slots
      → Represents c es
      → slot_of p es ≡ none
      → Inserts c.free_idxs es
  try_insert_item-Represents es two r absent = of_free c.free_idxs refl
    where
      of_free : (free : List ℕ) → c.free_idxs ≡ free → Inserts free es
      of_free [] empty = Inserts-last es two empty r absent
      of_free (x ∷ xs) some_free = Inserts-free x xs es some_free r absent
