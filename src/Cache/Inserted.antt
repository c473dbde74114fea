-- ===== src/Cache/Inserted.antt =====
-- What `file_read` of the web server relies on: a file that `try_insert_item` has put into the cache is
-- found by `fetch_item` (src/header/web_server/cache.h).
use liburing_server.Prelude.{
  ℕ, ◌<◌, ◌≡◌, refl, sym, ap, ◌∙◌, Bool, true, false, List, [], ◌∷◌, length, Option, none, some,
  Outcome, ok, undefined, undefined_ne_ok, ◌>>=◌, ran_first, ok-injective, if◌then◌else◌, ◌==◌, ltb,
  lt→ltb, ltb→lt, eq→==, has, ℤ, increment, equals, same_ℤ, put_path, put_index, same_bytes_refl,
  Bool-cases, Option-cases, ==_iff, inl, inr,
}
use mathlib.Core.Path.{subst}
use liburing_server.DataStore.{HashOrder}
use liburing_server.Cache.{
  Cache, CacheItem, TcpClient, valid_idx, set_item, set_next, evicted, evict_lowest, choose_slot,
  fill_slot, try_insert_item, fetch_slot, fetch_item,
}

-- The free slots are slots, and none is marked as outdated.
abbrev pub IsFresh : Cache → Type 0
IsFresh c =
    (i : ℕ) → has i c.free_idxs ≡ true → (i < c.slots) × ((c.cache_buffer i).outdated ≡ false)

-- The fetch finds the file in a slot with its own bytes, and counts the client as using it.
abbrev pub Finds : Cache → List ℕ → List ℕ → ℕ → TcpClient → Type 0
Finds c filepath buff client_idx client =
    (i : ℕ) × (d : Cache) × (fetch_item c filepath client_idx client
      ≡ ok (some (record { slot = i; size = length buff }), d, record client { using_file = true }))
    × ((d.cache_buffer i).buffer ≡ buff)

abbrev filled : Cache → (ℕ → CacheItem) → ℕ → List ℕ → List ℕ → ℤ → Cache
filled c buf i filepath buff watch = record c {
  cache_buffer = set_item buf i (record (buf i) {
    watch = watch;
    prev_item_idx = c.highest_idx;
    next_item_idx = none;
    buffer = buff;
  });
  filepath_to_cache_idx = put_path c.filepath_to_cache_idx filepath (some i);
  cache_idx_to_filepath = put_index c.cache_idx_to_filepath i (some filepath);
  watch_to_cache_idx = (λ w. if same_ℤ watch w then some i else c.watch_to_cache_idx w);
  highest_idx = some i;
}

locked : Cache → ℕ → ℕ → Cache
locked c client_idx i = record c {
  cache_buffer =
      set_item c.cache_buffer i
        (record (c.cache_buffer i) { lock_number = increment (c.cache_buffer i).lock_number });
  client_idx_to_cache_idx = put_index c.client_idx_to_cache_idx client_idx (some i);
}

fetch_slot_highest :
    (c : Cache) (i : ℕ) (item : CacheItem)
    → item.next_item_idx ≡ none
    → item.outdated ≡ false
    → fetch_slot c i item ≡ ok (some (record { slot = i; size = length item.buffer }), c)
unfolding fetch_slot
fetch_slot_highest c i item last fresh = rw (fetch_slot, last, fresh) refl

fetch_highest :
    (c : Cache) (filepath : List ℕ) (client_idx i : ℕ) (client : TcpClient)
    → c.filepath_to_cache_idx filepath ≡ some i
    → i < c.slots
    → (c.cache_buffer i).next_item_idx ≡ none
    → (c.cache_buffer i).outdated ≡ false
    → fetch_item c filepath client_idx client
      ≡ ok (
        some (record { slot = i; size = length (c.cache_buffer i).buffer }),
        locked c client_idx i,
        record client { using_file = true },
      )
unfolding fetch_item locked
fetch_highest c filepath client_idx i client m h last fresh =
    rw
      (
        fetch_item,
        m,
        lt→ltb i c.slots h,
        fetch_slot_highest (locked c client_idx i) i (c.cache_buffer i) last fresh,
      )
      refl

filled-Finds :
    (c : Cache) (buf : ℕ → CacheItem) (i : ℕ) (filepath buff : List ℕ) (watch : ℤ) (client_idx : ℕ)
    (client : TcpClient)
    → i < c.slots
    → (buf i).outdated ≡ false
    → Finds (filled c buf i filepath buff watch) filepath buff client_idx client
unfolding locked
filled-Finds c buf i filepath buff watch client_idx client h fresh = (
  i,
  locked full client_idx i,
  fetch_highest full filepath client_idx i client
        (ap (λ b. if b then some i else c.filepath_to_cache_idx filepath)
          (same_bytes_refl filepath))
        h (rw (eq→== i i refl) refl) (rw (eq→== i i refl) fresh)
      ∙ rw (eq→== i i refl) refl,
  rw (eq→== i i refl) refl,
)
  where
    full : Cache
    full = filled c buf i filepath buff watch

-- What `choose_slot` answers: a slot that is not marked as outdated, or none.
abbrev Chosen : Cache → Option ℕ × Cache → Type 0
Chosen c (none, d) = Unit {0}
Chosen c (some i, d) = (i < d.slots) × ((d.cache_buffer i).outdated ≡ false)

valid_some : (c : Cache) (o : Option ℕ) {i : ℕ} → valid_idx c o ≡ ok i → i < c.slots
valid_some c none e = absurd (undefined_ne_ok e)
valid_some c (some j) {i} e = elim (Bool-cases (ltb j c.slots)) [
  | inl t ↦ subst (λ k. k < c.slots) (ok-injective (sym (rw t refl) ∙ e)) (ltb→lt j c.slots t)
  | inr f ↦ absurd (undefined_ne_ok (sym (rw f refl) ∙ e))
]

choose_slot-Chosen :
    (order : HashOrder) (c : Cache) (free : List ℕ) (r : Option ℕ × Cache)
    → ((i : ℕ) → has i free ≡ true → (i < c.slots) × ((c.cache_buffer i).outdated ≡ false))
    → ok r ≡ choose_slot order c free
    → Chosen c r
unfolding choose_slot evict_lowest evicted
choose_slot-Chosen order c (x ∷ xs) r fresh e =
    subst (Chosen c) (ok-injective (sym e)) (fresh (order.first x xs) (order.first-mem x xs))
choose_slot-Chosen order c [] r fresh e =
    let (low, rest, at) = ran_first (valid_idx c c.lowest_idx) _ e in
    elim (Bool-cases (equals (c.cache_buffer low).lock_number 0)) [
      | inl idle ↦
          let (next, got, in_range) =
            ran_first (valid_idx c (c.cache_buffer low).next_item_idx)
              (λ next. ok (some low, evicted c low next)) (rest ∙ rw idle refl) in
          subst (Chosen c) (ok-injective (sym got))
            (valid_some c c.lowest_idx at, rw (eq→== low low refl) refl)
      | inr busy ↦
          let same : ok r ≡ ok (none, c) = rest ∙ rw busy refl in
          subst (Chosen c) (ok-injective (sym same)) tt
    ]

true_ne_false : true ≡ false → ⊥
true_ne_false e = cc

outdated_kept :
    (buf : ℕ → CacheItem) (h i : ℕ) (n : Option ℕ)
    → (set_next buf h n i).outdated ≡ (buf i).outdated
outdated_kept buf h i n = elim (Bool-cases (h == i)) [
  | inl same ↦ rw same (ap (λ k. (buf k).outdated) ((==_iff h i).0 same))
  | inr other ↦ rw other refl
]

fill_slot-Finds :
    (c : Cache) (i : ℕ) (filepath buff : List ℕ) (watch : ℤ) (client_idx : ℕ) (client : TcpClient)
    (full : Cache)
    → i < c.slots
    → (c.cache_buffer i).outdated ≡ false
    → fill_slot c i filepath buff watch ≡ ok full
    → Finds full filepath buff client_idx client
unfolding fill_slot
fill_slot-Finds c i filepath buff watch client_idx client full inside clean run =
    elim (Option-cases c.highest_idx) [
      | inl m ↦
          let filled_up : fill_slot c i filepath buff watch
              ≡ ok (filled c c.cache_buffer i filepath buff watch) =
            rw m refl in
          subst (λ d. Finds d filepath buff client_idx client) (ok-injective (sym filled_up ∙ run))
            (filled-Finds c c.cache_buffer i filepath buff watch client_idx client inside clean)
      | inr (h, m) ↦ elim (Bool-cases (ltb h c.slots)) [
        | inl t ↦
            let buf = set_next c.cache_buffer h (some i) in
            let filled_up : fill_slot c i filepath buff watch
                ≡ ok (filled c buf i filepath buff watch) =
              rw (m, t) refl in
            subst (λ d. Finds d filepath buff client_idx client)
              (ok-injective (sym filled_up ∙ run))
              (filled-Finds c buf i filepath buff watch client_idx client inside
                (outdated_kept c.cache_buffer h i (some i) ∙ clean))
        | inr f ↦
            let outside : fill_slot c i filepath buff watch ≡ undefined = rw (m, f) refl in
            absurd (undefined_ne_ok (sym outside ∙ run))
      ]
    ]

-- Where every free slot is a slot of the cache and not marked as outdated, a file that
-- try_insert_item has put into the cache is found by the next fetch_item of its path, by any
-- client: in a slot that holds its bytes, with its size, and with the client marked as using a
-- file.
pub try_insert_item-Finds :
    (order : HashOrder) (c d : Cache) (filepath buff : List ℕ) (watch : ℤ) (client_idx : ℕ)
    (client : TcpClient)
    → IsFresh c
    → try_insert_item order c filepath buff watch ≡ ok (true, d)
    → Finds d filepath buff client_idx client
unfolding try_insert_item
try_insert_item-Finds order c d filepath buff watch client_idx client fresh e =
    let (r, rest, at) = ran_first (choose_slot order c c.free_idxs) _ (sym e) in
    inserted r.0 r.1 (choose_slot-Chosen order c c.free_idxs r fresh (sym at)) rest
  where
    inserted :
        (slot : Option ℕ) (u : Cache)
        → Chosen c (slot, u)
        → ◌≡◌ {A = Outcome (Bool × Cache)} (ok (true, d)) (elim slot [
          | none ↦ ok (false, u)
          | some i ↦ fill_slot u i filepath buff watch >>= (λ e. ok (true, e))
        ])
        → Finds d filepath buff client_idx client
    inserted none u h r = absurd (true_ne_false (ap (λ p. p.0) (ok-injective r)))
    inserted (some i) u (inside, clean) r =
        let (full, same, run) = ran_first (fill_slot u i filepath buff watch) _ r in
        subst (λ x. Finds x filepath buff client_idx client)
          (ap (λ p. p.1) (ok-injective (sym same)))
          (fill_slot-Finds u i filepath buff watch client_idx client full inside clean run)
