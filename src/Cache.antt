-- ===== src/Cache.antt =====
-- `web_cache::cache<N>` of src/header/web_server/cache.h: N slots in a doubly linked list, from the
-- least to the most recently used. An index of -1 is `none`; an access outside the array is
-- undefined. A pointer into a slot's buffer is the slot. Calls of inotify are recorded.
pub mod Inserted
mod Linked
pub mod Lru
mod Examples
use liburing_server.Prelude.{
  ℕ, zero, suc, Bool, true, false, List, [], ◌∷◌, length, Option, none, some, Outcome, ok,
  undefined, ◌>>=◌, if◌then◌else◌, ltb, ℤ, pos, increment, decrement, equals, same_ℤ, erase, insert,
  put_path, put_index,
}
use liburing_server.DataStore.{HashOrder}

pub record CacheItem : Type 0 where
  pub buffer : List ℕ
  pub lock_number : ℤ
  pub next_item_idx : Option ℕ
  pub prev_item_idx : Option ℕ
  pub outdated : Bool
  pub watch : ℤ

-- `cache_item()`.
abbrev pub blank_item : CacheItem
blank_item = record {
  buffer = [];
  lock_number = pos 0;
  next_item_idx = none;
  prev_item_idx = none;
  outdated = false;
  watch = pos 0;
}

-- The client of the layer above (`web_server::tcp_client` of common_structs_enums.h).
pub record TcpClient : Type 0 where
  pub last_requested_read_filepath : List ℕ
  pub ws_client_idx : Option ℕ
  pub using_file : Bool

-- `cache_fetch_item` when found: the slot whose buffer is pointed to, and its size.
pub record FetchedItem : Type 0 where
  pub slot : ℕ
  pub size : ℕ

pub record Cache : Type 0 where
  pub slots : ℕ
  pub filepath_to_cache_idx : List ℕ → Option ℕ
  pub cache_idx_to_filepath : ℕ → Option (List ℕ)
  pub cache_buffer : ℕ → CacheItem
  pub free_idxs : List ℕ
  pub client_idx_to_cache_idx : ℕ → Option ℕ
  pub highest_idx : Option ℕ
  pub lowest_idx : Option ℕ
  pub watch_to_cache_idx : ℤ → Option ℕ
  pub removed_watches : List ℤ

-- The constructor: every slot is free.
abbrev pub first_indexes : ℕ → List ℕ
first_indexes zero = []
first_indexes (suc n) = n ∷ first_indexes n

unfoldable pub new_cache : ℕ → Cache
new_cache n = record {
  slots = n;
  filepath_to_cache_idx = λ p. none;
  cache_idx_to_filepath = λ i. none;
  cache_buffer = λ i. blank_item;
  free_idxs = first_indexes n;
  client_idx_to_cache_idx = λ i. none;
  highest_idx = none;
  lowest_idx = none;
  watch_to_cache_idx = λ w. none;
  removed_watches = [];
}

-- `cache_buffer[i]`, where the index may be -1.
abbrev pub valid_idx : Cache → Option ℕ → Outcome ℕ
valid_idx c none = undefined
valid_idx c (some i) = if ltb i c.slots then ok i else undefined

abbrev pub set_item : (ℕ → CacheItem) → ℕ → CacheItem → ℕ → CacheItem
set_item = put_index

abbrev pub set_next : (ℕ → CacheItem) → ℕ → Option ℕ → ℕ → CacheItem
set_next buf i n = set_item buf i (record (buf i) { next_item_idx = n })

abbrev pub set_prev : (ℕ → CacheItem) → ℕ → Option ℕ → ℕ → CacheItem
set_prev buf i p = set_item buf i (record (buf i) { prev_item_idx = p })

abbrev pub erase_watch : (ℤ → Option ℕ) → ℤ → ℤ → Option ℕ
erase_watch m w v = if same_ℤ w v then none else m v

-- The end of both outdated branches of `fetch_item`: the slot is freed. Neither map of paths
-- changes, nor does `highest_idx`.
unfoldable pub drop_outdated : Cache → ℕ → Cache
drop_outdated c i = record c {
  cache_buffer = set_item c.cache_buffer i blank_item;
  free_idxs = insert i c.free_idxs;
  watch_to_cache_idx = erase_watch c.watch_to_cache_idx (c.cache_buffer i).watch;
  removed_watches = (c.cache_buffer i).watch ∷ c.removed_watches;
}

-- `cache_buffer[item.prev_item_idx].next_item_idx = -1`, where there is a previous item.
unfoldable pub cut_after_prev : Cache → Option ℕ → Outcome Cache
cut_after_prev c none = ok c
cut_after_prev c (some p) = do
  p' ← valid_idx c (some p)
  ok (record c { cache_buffer = set_next c.cache_buffer p' none })

-- The item is taken out of its place in the list.
unfoldable pub unlink : Cache → Option ℕ → Option ℕ → Outcome Cache
unlink c (some p) next = do
  p' ← valid_idx c (some p)
  n ← valid_idx c next
  ok (record c { cache_buffer = set_prev (set_next c.cache_buffer p' next) n (some p') })
unlink c none next = do
  n ← valid_idx c next
  ok (record c { cache_buffer = set_prev c.cache_buffer n none; lowest_idx = next })

unfoldable pub promote : Cache → ℕ → Outcome Cache
promote c i = do
  h ← valid_idx c c.highest_idx
  let buf = set_next c.cache_buffer h (some i)
  ok (record c { cache_buffer = set_prev (set_next buf i none) i (some h); highest_idx = some i })

unfoldable pub fetch_slot : Cache → ℕ → CacheItem → Outcome (Option FetchedItem × Cache)
fetch_slot c i item = elim item.next_item_idx [
  | none ↦
      if item.outdated
      then cut_after_prev c item.prev_item_idx >>= (λ d. ok (none, drop_outdated d i))
      else ok (some (record { slot = i; size = length item.buffer }), c)
  | some next ↦ unlink c item.prev_item_idx (some next) >>= (λ d.
      if item.outdated
      then ok (none, drop_outdated d i)
      else promote d i >>= (λ e. ok (some (record { slot = i; size = length item.buffer }), e)))
]

unfoldable pub fetch_item :
    Cache → List ℕ → ℕ → TcpClient → Outcome (Option FetchedItem × Cache × TcpClient)
unfolding fetch_slot
fetch_item c filepath client_idx client = elim (c.filepath_to_cache_idx filepath) [
  | none ↦ ok (none, c, client)
  | some idx ↦ do
    i ← valid_idx c (some idx)
    let item = c.cache_buffer i
    let locked = record c {
      cache_buffer =
          set_item c.cache_buffer i (record item { lock_number = increment item.lock_number });
      client_idx_to_cache_idx = put_index c.client_idx_to_cache_idx client_idx (some i);
    }
    (found, d) ← fetch_slot locked i item
    ok (found, d, record client { using_file = true })
]

-- The slot for a new item, if there is one: a free slot, or that of the lowest item if nobody has
-- it locked.
unfoldable pub evicted : Cache → ℕ → ℕ → Cache
evicted c low next = record c {
  cache_buffer = set_item (set_prev c.cache_buffer next none) low blank_item;
  watch_to_cache_idx = erase_watch c.watch_to_cache_idx (c.cache_buffer low).watch;
  removed_watches = (c.cache_buffer low).watch ∷ c.removed_watches;
  filepath_to_cache_idx =
      put_path c.filepath_to_cache_idx
        (elim (c.cache_idx_to_filepath low) [ none ↦ [] | some p ↦ p ]) none;
  cache_idx_to_filepath = put_index c.cache_idx_to_filepath low none;
  lowest_idx = (c.cache_buffer low).next_item_idx;
}

unfoldable pub evict_lowest : Cache → Outcome (Option ℕ × Cache)
evict_lowest c = valid_idx c c.lowest_idx >>= (λ low.
    if equals (c.cache_buffer low).lock_number 0
    then valid_idx c (c.cache_buffer low).next_item_idx
      >>= (λ next. ok (some low, evicted c low next))
    else ok (none, c))

unfoldable pub choose_slot : HashOrder → Cache → List ℕ → Outcome (Option ℕ × Cache)
choose_slot order c [] = evict_lowest c
choose_slot order c (x ∷ xs) =
    let i = order.first x xs in
    ok (
      some i,
      record c {
        free_idxs = erase i (x ∷ xs);
        lowest_idx = elim c.lowest_idx [ none ↦ some i | some l ↦ some l ];
      },
    )

-- `watch` is what `inotify_add_watch` answers.
unfoldable pub fill_slot : Cache → ℕ → List ℕ → List ℕ → ℤ → Outcome Cache
fill_slot c i filepath buff watch = do
  buf ← elim c.highest_idx [
    | none ↦ ok c.cache_buffer
    | some h ↦ valid_idx c (some h) >>= (λ h'. ok (set_next c.cache_buffer h' (some i)))
  ]
  ok (record c {
    cache_buffer = set_item buf i (record (buf i) {
      watch = watch;
      prev_item_idx = c.highest_idx;
      next_item_idx = none;
      buffer = buff;
    });
    filepath_to_cache_idx = put_path c.filepath_to_cache_idx filepath (some i);
    cache_idx_to_filepath = put_index c.cache_idx_to_filepath i (some filepath);
    watch_to_cache_idx = (λ w. if same_ℤ watch w then some i else c.watch_to_cache_idx w);
    highest_idx = some i;
  })

unfoldable pub try_insert_item : HashOrder → Cache → List ℕ → List ℕ → ℤ → Outcome (Bool × Cache)
try_insert_item order c filepath buff watch = do
  (slot, d) ← choose_slot order c c.free_idxs
  elim slot [
    | none ↦ ok (false, d)
    | some i ↦ do e ← fill_slot d i filepath buff watch; ok (true, e)
  ]

unfoldable pub inotify_event_handler : Cache → ℤ → Cache
inotify_event_handler c watch = elim (c.watch_to_cache_idx watch) [
  | none ↦ c
  | some i ↦
      if ltb i c.slots
      then record c {
        cache_buffer = set_item c.cache_buffer i (record (c.cache_buffer i) { outdated = true });
      }
      else c
]

-- `client_idx_to_cache_idx[client_idx]` of a client that is not in the map is 0.
unfoldable pub finished_with_item : Cache → ℕ → TcpClient → Outcome (Cache × TcpClient)
finished_with_item c client_idx client =
    if client.using_file
    then valid_idx c (some (elim (c.client_idx_to_cache_idx client_idx) [ none ↦ 0 | some k ↦ k ]))
      >>= (λ i. ok (
        record c {
          cache_buffer = set_item c.cache_buffer i (record (c.cache_buffer i) {
            lock_number = decrement (c.cache_buffer i).lock_number;
          });
        },
        record client { using_file = false },
      ))
    else ok (c, client)
