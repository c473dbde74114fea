-- ===== src/Cache/Lru/Runs/InUse.antt =====
-- The bytes of a file stay where they are while a client is using it.
use liburing_server.Prelude.{
  ℕ, ◌≤◌, ◌≡◌, refl, sym, ap, ◌∙◌, true, false, List, [], ◌∷◌, some, ok, if◌then◌else◌, ◌==◌, has,
  put_index, Bool-cases, inl, inr, ==_iff,
}
use mathlib.Core.Path.{subst}
use liburing_server.DataStore.{HashOrder}
use liburing_server.Cache.{TcpClient, new_cache}
use liburing_server.Cache.Lru.{slots_of}
use liburing_server.Cache.Lru.Runs.{
  CacheRequest, fetch, store, finish, Served, serve, serve_all, Files, left_by, answer, answers,
  IsAllowed, AreAllowed, Refines,
}
use liburing_server.Cache.Lru.Runs.Steps.{serve-Refines}
use liburing_server.Cache.Lru.Runs.New.{new_files, new_cache_start, serve_all-Refines}
use liburing_server.Cache.Lru.Runs.Locks.{Uses, AllCounted, AllCounted-fewer}
use liburing_server.Cache.Lru.Runs.Fetched.{fetch-AllCounted}
use liburing_server.Cache.Lru.Runs.Stored.{store-AllCounted}
use liburing_server.Cache.Lru.Runs.Released.{done, AllCounted-done}
use liburing_server.Cache.Lru.Runs.Bytes.{HasBytes-buffer, HasBytes-held, answer_kept}

serve-AllCounted :
    (order : HashOrder) (q : CacheRequest) (s : Served) (t : Files)
    → Refines s t
    → AllCounted t t.files
    → AllCounted (answer order q t).1 (answer order q t).1.files
serve-AllCounted order (fetch k p) s t r counted =
    fetch-AllCounted order t k p r.represents.distinct counted
serve-AllCounted order (store p bytes watch) s t r counted =
    store-AllCounted order t s.cache p bytes watch r.represents r.free r.have_slots counted
serve-AllCounted order (finish k) s t r counted = elim (Bool-cases (t.clients k).using_file) [
  | inl uses ↦
      let (i, mapped, there) = r.have_slots k uses in
      let left : left_by k t ≡ done t k i = rw mapped refl in
      subst
        (λ b.
          AllCounted (if b then left_by k t else still) (if b then left_by k t else still).files)
        (sym uses)
        (subst (λ u. AllCounted u u.files) (sym left)
          (AllCounted-done t k i t.files (uses, mapped) counted))
  | inr idle ↦
      subst
        (λ b.
          AllCounted (if b then left_by k t else still) (if b then left_by k t else still).files)
        (sym idle)
        (AllCounted-fewer t still t.files
          (λ i j m u. (sym (ap (λ c. c.using_file) (unchanged j)) ∙ u.0, u.1)) counted)
]
  where
    still : Files
    still = record t { clients = put_index t.clients k (t.clients k) }

    unchanged : (j : ℕ) → put_index t.clients k (t.clients k) j ≡ t.clients j
    unchanged j = elim (Bool-cases (k == j)) [
      | inl hit ↦ rw hit (ap t.clients ((==_iff k j).0 hit))
      | inr miss ↦ rw miss refl
    ]

serve_all-AllCounted :
    (order : HashOrder) (qs : List CacheRequest) (s : Served) (t : Files)
    → Refines s t
    → AreAllowed order qs t
    → AllCounted t t.files
    → AllCounted (answers order qs t).1 (answers order qs t).1.files
serve_all-AllCounted order [] s t r allowed counted = counted
serve_all-AllCounted order (q ∷ qs) s t r (here, allowed) counted =
    let (s', ran, r') = serve-Refines order q s t r here in
    serve_all-AllCounted order qs s' (answer order q t).1 r' allowed
      (serve-AllCounted order q s t r counted)

-- What one more request does to the bytes that clients are using.
abbrev pub KeepsBytes : Served → Served → Type 0
KeepsBytes s s' =
    (k i : ℕ)
    → (s.clients k).using_file ≡ true
    → s.cache.client_idx_to_cache_idx k ≡ some i
    → (s'.cache.cache_buffer i).buffer ≡ (s.cache.cache_buffer i).buffer

serve-KeepsBytes :
    (order : HashOrder) (q : CacheRequest) (s s' : Served) (t : Files)
    → Refines s t
    → AllCounted t t.files
    → Refines s' (answer order q t).1
    → KeepsBytes s s'
serve-KeepsBytes order q s s' t r counted r' k i uses mapped =
    let user : Uses t i k = (
      ap (λ m. (m k).using_file) (sym r.clients) ∙ uses,
      ap (λ m. m k) (sym r.slots_of_clients) ∙ mapped,
    ) in
    let (j, mapped', there) = r.have_slots k user.0 in
    let there' : has i (slots_of t.files) ≡ true =
      ap (λ l. has l (slots_of t.files)) (some-injective (sym user.1 ∙ mapped')) ∙ there in
    let b = (s.cache.cache_buffer i).buffer in
    HasBytes-buffer i b s'.cache (answer order q t).1.files r'.represents.held (
      answer_kept i b order q t k user counted
        (HasBytes-held s.cache i t.files there' r.represents.held))
  where
    some-injective : {x y : ℕ} → some x ≡ some y → x ≡ y
    some-injective e = cc

-- From a new cache of two slots or more, with clients that use no file, where no file changes on
-- the disk: after any fetches of paths by clients, insertions of files whose path is not in the
-- cache at the time, and ends of the use of a file by clients, in any order, one more such step
-- returns, and the slot that a client using a file fetched it from has the same bytes after it as
-- before.
pub serve_all-KeepsBytes :
    (order : HashOrder) (n : ℕ) (clients : ℕ → TcpClient) (qs : List CacheRequest)
    (q : CacheRequest)
    → 2 ≤ n
    → ((k : ℕ) → (clients k).using_file ≡ false)
    → AreAllowed order qs (new_files n clients)
    → IsAllowed q (answers order qs (new_files n clients)).1
    → (s s' : Served) × (serve_all order qs (record { cache = new_cache n; clients = clients })
        ≡ ok ((answers order qs (new_files n clients)).0, s))
      × (serve order q s ≡ ok ((answer order q (answers order qs (new_files n clients)).1).0, s'))
      × KeepsBytes s s'
serve_all-KeepsBytes order n clients qs q two idle allowed here =
    let start = new_cache_start n clients two idle in
    let t = (answers order qs (new_files n clients)).1 in
    let (s, ran, r) =
      serve_all-Refines order qs (record { cache = new_cache n; clients = clients })
        (new_files n clients) start allowed in
    let (s', ran', r') = serve-Refines order q s t r here in
    let counted =
      serve_all-AllCounted order qs (record { cache = new_cache n; clients = clients })
        (new_files n clients) start allowed tt in
    (s, s', ran, ran', serve-KeepsBytes order q s s' t r counted r')
