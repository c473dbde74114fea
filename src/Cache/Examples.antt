-- ===== src/Cache/Examples.antt =====
-- A new cache of two slots, and a file that is put into it.
use liburing_server.Prelude.{
  ℕ, ◌≡◌, refl, arith, Bool, true, false, List, [], ◌∷◌, none, some, Outcome, ok, undefined, thrown,
  stuck, has, pos, same_bytes, erase,
}
use liburing_server.DataStore.{HashOrder}
use liburing_server.Cache.{Cache, TcpClient, new_cache, choose_slot, fill_slot, try_insert_item}
use liburing_server.Cache.Lru.{find}
use liburing_server.Cache.Lru.Runs.{
  CacheRequest, fetch, store, finish, got, stored, finished, Served, serve, serve_all, answers,
  Refines,
}
use liburing_server.Cache.Lru.Runs.New.{new_files, new_cache-Refines}
use liburing_server.Cache.Lru.Runs.InUse.{KeepsBytes, serve_all-KeepsBytes}
use liburing_server.Cache.Inserted.{IsFresh, Finds, try_insert_item-Finds}

has_front : (x : ℕ) (xs : List ℕ) → has x (x ∷ xs) ≡ true
has_front x xs = ground arith

abbrev front_first : HashOrder
front_first = record { first = λ x xs. x; first-mem = has_front }

abbrev page : List ℕ
page = 60 ∷ 98 ∷ 62 ∷ []

abbrev path : List ℕ
path = 47 ∷ 97 ∷ []

abbrev client : TcpClient
client = record { last_requested_read_filepath = path; ws_client_idx = none; using_file = false }

abbrev cache_of : Outcome (Bool × Cache) → Cache
cache_of (ok (inserted, c)) = c
cache_of undefined = new_cache 0
cache_of thrown = new_cache 0
cache_of stuck = new_cache 0

abbrev holding : Cache
holding = cache_of (try_insert_item front_first (new_cache 2) path page (pos 1))

new_cache-IsFresh : IsFresh (new_cache 2)
unfolding new_cache
new_cache-IsFresh i e = (ground arith, refl)

try_insert_item-run :
    try_insert_item front_first (new_cache 2) path page (pos 1) ≡ ok (true, holding)
unfolding try_insert_item choose_slot fill_slot new_cache
try_insert_item-run = refl

try_insert_item-Finds_example : Finds holding path page 0 client
try_insert_item-Finds_example =
    try_insert_item-Finds front_first (new_cache 2) holding path page (pos 1) 0 client
      new_cache-IsFresh try_insert_item-run

abbrev other_path : List ℕ
other_path = 47 ∷ 98 ∷ []

abbrev third_path : List ℕ
third_path = 47 ∷ 99 ∷ []

abbrev clients : ℕ → TcpClient
clients k = client

-- Two clients read a file of two, and a third file takes the place of the other one.
abbrev visits : List CacheRequest
visits =
    fetch 0 path
    ∷ store path page (pos 1)
    ∷ store other_path page (pos 2)
    ∷ fetch 0 path
    ∷ fetch 1 path
    ∷ finish 1
    ∷ store third_path page (pos 3)
    ∷ []

new_cache-Refines_example :
    (s : Served) × (serve_all front_first visits (record { cache = new_cache 2; clients = clients })
      ≡ ok (
        got none
            ∷ stored true
            ∷ stored true
            ∷ got (some (record { slot = 1; size = 3 }))
            ∷ got (some (record { slot = 1; size = 3 }))
            ∷ finished
            ∷ stored true
            ∷ [],
        s,
      ))
    × Refines s (answers front_first visits (new_files 2 clients)).1
unfolding find same_bytes erase
new_cache-Refines_example =
    new_cache-Refines front_first 2 clients visits (ground arith) (λ k. refl)
      (tt, (refl, (refl, (tt, (tt, (tt, (refl, tt)))))))

serve_all-KeepsBytes_example :
    (s s' : Served) × (serve_all front_first visits
        (record { cache = new_cache 2; clients = clients })
      ≡ ok ((answers front_first visits (new_files 2 clients)).0, s))
    × (serve front_first (store other_path page (pos 4)) s ≡ ok (stored false, s'))
    × KeepsBytes s s'
unfolding find same_bytes erase
serve_all-KeepsBytes_example =
    serve_all-KeepsBytes front_first 2 clients visits (store other_path page (pos 4)) (ground arith)
      (λ k. refl) (tt, (refl, (refl, (tt, (tt, (tt, (refl, tt))))))) refl
