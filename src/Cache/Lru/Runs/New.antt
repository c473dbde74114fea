-- ===== src/Cache/Lru/Runs/New.antt =====
-- Requests one after the other, from a new cache.
use liburing_server.Prelude.{
  false_ne_true, ℕ, ◌<◌, ◌≤◌, ◌≡◌, refl, sym, ap, ◌∙◌, arith, true, false, List, [], ◌∷◌, none, ok,
  ◌==◌, has, IsSetList, length, zero, suc, Bool-cases, inl, inr, ne→not-==, ==_iff,
}
use liburing_server.DataStore.{HashOrder}
use liburing_server.Cache.{TcpClient, new_cache, first_indexes}
use liburing_server.Cache.Lru.{Represents}
use liburing_server.Cache.Lru.Runs.{
  CacheRequest, Served, serve_all, Files, answer, answers, AreAllowed, Refines,
}
use liburing_server.Cache.Lru.Runs.Steps.{serve-Refines}

pub serve_all-Refines :
    (order : HashOrder) (qs : List CacheRequest) (s : Served) (t : Files)
    → Refines s t
    → AreAllowed order qs t
    → (s' : Served) × (serve_all order qs s ≡ ok ((answers order qs t).0, s'))
      × Refines s' (answers order qs t).1
unfolding serve_all
serve_all-Refines order [] s t r allowed = (s, refl, r)
serve_all-Refines order (q ∷ qs) s t r (here, allowed) =
    let (s', ran, r') = serve-Refines order q s t r here in
    let (s'', ran', r'') = serve_all-Refines order qs s' (answer order q t).1 r' allowed in
    (s'', rw (ran, ran') refl, r'')

-- A new cache has no file.
abbrev pub new_files : ℕ → (ℕ → TcpClient) → Files
new_files n clients = record {
  files = [];
  free = first_indexes n;
  slots_of_clients = λ k. none;
  clients = clients;
}

has-first_indexes : (n i : ℕ) → has i (first_indexes n) ≡ true → i < n
has-first_indexes zero i m = cc
has-first_indexes (suc n) i m = elim (Bool-cases (n == i)) [
  | inl hit ↦ let e = (==_iff n i).0 hit in omega (arith, e)
  | inr miss ↦ omega (arith, has-first_indexes n i (sym (rw miss refl) ∙ m))
]

first_indexes-absent : (n i : ℕ) → n ≤ i → has i (first_indexes n) ≡ false
first_indexes-absent zero i h = refl
first_indexes-absent (suc n) i h =
    rw (ne→not-== n i (λ e. omega (arith, h, e))) (first_indexes-absent n i (omega (arith, h)))

first_indexes-IsSetList : (n : ℕ) → IsSetList (first_indexes n)
first_indexes-IsSetList zero = tt
first_indexes-IsSetList (suc n) =
    (first_indexes-absent n n (omega arith), first_indexes-IsSetList n)

length-first_indexes : (n : ℕ) → length (first_indexes n) ≡ n
length-first_indexes zero = refl
length-first_indexes (suc n) = ap suc (length-first_indexes n)

pub new_cache-Represents : (n : ℕ) → Represents (new_cache n) []
unfolding new_cache
new_cache-Represents n = record {
  linked = tt;
  lowest = refl;
  highest = refl;
  distinct = tt;
  paths = λ p. refl;
  once = tt;
  held = tt;
  free = λ i m. (has-first_indexes n i m, refl, refl);
  unique = first_indexes-IsSetList n;
  all = omega (arith, length-first_indexes n);
}

pub new_cache_start :
    (n : ℕ) (clients : ℕ → TcpClient)
    → 2 ≤ n
    → ((k : ℕ) → (clients k).using_file ≡ false)
    → Refines (record { cache = new_cache n; clients = clients }) (new_files n clients)
unfolding new_cache
new_cache_start n clients two idle = record {
  represents = new_cache-Represents n;
  free = refl;
  slots_of_clients = refl;
  clients = refl;
  several = two;
  have_slots = λ k uses. absurd (false_ne_true (sym (idle k) ∙ uses));
}

-- From a new cache of two slots or more, with clients that use no file, where no file changes on
-- the disk: after any fetches of paths by clients, insertions of files whose path is not in the
-- cache at the time, and ends of the use of a file by clients, in any order, the code has
-- returned each time, with the answers of a list of files in the order of their last use: a fetch
-- finds a file of the list, with its size, and moves it to the end, and an insertion goes into a
-- free slot or into that of the first file, if it has no lock, and fails if it has; and the
-- linked list of the cache, its slots, paths, locks and free slots are those of the list.
pub new_cache-Refines :
    (order : HashOrder) (n : ℕ) (clients : ℕ → TcpClient) (qs : List CacheRequest)
    → 2 ≤ n
    → ((k : ℕ) → (clients k).using_file ≡ false)
    → AreAllowed order qs (new_files n clients)
    → (s : Served) × (serve_all order qs (record { cache = new_cache n; clients = clients })
        ≡ ok ((answers order qs (new_files n clients)).0, s))
      × Refines s (answers order qs (new_files n clients)).1
new_cache-Refines order n clients qs two idle allowed =
    serve_all-Refines order qs (record { cache = new_cache n; clients = clients })
      (new_files n clients) (new_cache_start n clients two idle) allowed
