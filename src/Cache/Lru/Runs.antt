-- ===== src/Cache/Lru/Runs.antt =====
-- Clients that fetch files from a cache, store them in it and finish with them, in any order: the
-- calls of src/web_server/web_server.tcc and callbacks.tcc, against the list.
pub mod New
mod Locks
mod Fetched
mod Stored
mod Released
mod Bytes
pub mod InUse
mod Steps
use liburing_server.Prelude.{
  ℕ, ◌+◌, ◌<◌, ◌≤◌, ◌≡◌, refl, sym, ap, ◌∙◌, arith, Bool, true, false, List, [], ◌∷◌, ◌++◌, Option,
  none, some, Outcome, ok, ◌>>=◌, if◌then◌else◌, ◌==◌, ℤ, equals, has, has-append, IsSetList,
  length, zero, suc, put_index, Bool-cases, inl, inr, eq→==, ne→not-==, ==_iff,
}
use mathlib.Core.Path.{subst}
use liburing_server.DataStore.{HashOrder}
use liburing_server.Cache.{
  Cache, TcpClient, FetchedItem, new_cache, first_indexes, fetch_item, try_insert_item,
  finished_with_item,
}
use liburing_server.Cache.Lru.{
  Entry, Place, find, slots_of, slot_of, locked_once, fetched, inserted, replaced, left, assigned,
  using, unlocked, Represents,
}
use liburing_server.Cache.Lru.Paths.{slots_of-append, Found, find-Found}
use liburing_server.Cache.Lru.Fetch.{fetch_item-Represents}
use liburing_server.Cache.Lru.Insert.{try_insert_item-Represents}
use liburing_server.Cache.Lru.Finish.{slots_of-unlocked, finished_with_item-Represents}

pub data CacheRequest : Type 0 where
  fetch : (client_idx : ℕ) (filepath : List ℕ) → CacheRequest
  store : (filepath bytes : List ℕ) (watch : ℤ) → CacheRequest
  finish : (client_idx : ℕ) → CacheRequest

pub data Answer : Type 0 where
  got : (found : Option FetchedItem) → Answer
  stored : (done : Bool) → Answer
  finished : Answer

-- The cache and the clients of the server.
pub record Served : Type 0 where
  pub cache : Cache
  pub clients : ℕ → TcpClient

unfoldable pub serve : HashOrder → CacheRequest → Served → Outcome (Answer × Served)
serve order (fetch k p) s = do
  (found, d, client) ← fetch_item s.cache p k (s.clients k)
  ok (got found, record { cache = d; clients = put_index s.clients k client })
serve order (store p bytes watch) s = do
  (done, d) ← try_insert_item order s.cache p bytes watch
  ok (stored done, record s { cache = d })
serve order (finish k) s = do
  (d, client) ← finished_with_item s.cache k (s.clients k)
  ok (finished, record { cache = d; clients = put_index s.clients k client })

unfoldable pub serve_all : HashOrder → List CacheRequest → Served → Outcome (List Answer × Served)
serve_all order [] s = ok ([], s)
serve_all order (q ∷ qs) s = do
  (a, t) ← serve order q s
  (rest, u) ← serve_all order qs t
  ok (a ∷ rest, u)

-- The same with the list of files.
pub record Files : Type 0 where
  pub files : List Entry
  pub free : List ℕ
  pub slots_of_clients : ℕ → Option ℕ
  pub clients : ℕ → TcpClient

abbrev pub left_by : ℕ → Files → Files
left_by k t = record t {
  files = unlocked (elim (t.slots_of_clients k) [ none ↦ 0 | some i ↦ i ]) t.files;
  clients = put_index t.clients k (record (t.clients k) { using_file = false });
}

abbrev pub answer : HashOrder → CacheRequest → Files → Answer × Files
answer order (fetch k p) t =
    let place = find p t.files in
    (
      got (fetched t.files place).0,
      record t {
        files = (fetched t.files place).1;
        slots_of_clients = assigned t.slots_of_clients k place;
        clients = put_index t.clients k (using (t.clients k) place);
      },
    )
answer order (store p bytes watch) t =
    let r = inserted order t.free p bytes t.files in
    (stored r.0, record t { files = r.1; free = left order t.free })
answer order (finish k) t = (
  finished,
  if (t.clients k).using_file
      then left_by k t
      else record t { clients = put_index t.clients k (t.clients k) },
)

abbrev pub answers : HashOrder → List CacheRequest → Files → List Answer × Files
answers order [] t = ([], t)
answers order (q ∷ qs) t =
    let (a, u) = answer order q t in let (rest, v) = answers order qs u in (a ∷ rest, v)

-- A file is stored only while its path is not in the cache.
abbrev pub IsAllowed : CacheRequest → Files → Type 0
IsAllowed (fetch k p) t = Unit {0}
IsAllowed (store p bytes watch) t = slot_of p t.files ≡ none
IsAllowed (finish k) t = Unit {0}

abbrev pub AreAllowed : HashOrder → List CacheRequest → Files → Type 0
AreAllowed order [] t = Unit {0}
AreAllowed order (q ∷ qs) t = IsAllowed q t × AreAllowed order qs (answer order q t).1

-- A client that is using a file has the slot of one.
abbrev pub HaveSlots : Files → Type 0
HaveSlots t =
    (k : ℕ)
    → (t.clients k).using_file ≡ true
    → (i : ℕ) × (t.slots_of_clients k ≡ some i) × (has i (slots_of t.files) ≡ true)

pub record Refines (s : Served) (t : Files) : Type 0 where
  pub represents : Represents s.cache t.files
  pub free : s.cache.free_idxs ≡ t.free
  pub slots_of_clients : s.cache.client_idx_to_cache_idx ≡ t.slots_of_clients
  pub clients : s.clients ≡ t.clients
  pub several : 2 ≤ s.cache.slots
  pub have_slots : HaveSlots t
