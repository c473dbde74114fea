-- ===== src/DataStore/Raw.antt =====
-- `data_store_raw` of src/header/data_store.h: memory of the heap under an index, with the number of uses
-- left. A pointer is an address or null; what has been given to `free` is recorded.
pub mod Conserves
use liburing_server.Prelude.{
  ℕ, List, [], ◌∷◌, ◌++◌, length, get_elem?, set, Option, none, some, Outcome, ok, access, ◌>>=◌,
  if◌then◌else◌, ℤ, pos, negsuc, decrement, equals, erase, insert,
}
use liburing_server.DataStore.{HashOrder}

pub record RawStore : Type 0 where
  pub data_vec : List (Option ℕ × ℤ)
  pub free_idxs : List ℕ
  pub freed : List (Option ℕ)

abbrev pub new_raw : RawStore
new_raw = record { data_vec = []; free_idxs = []; freed = [] }

unfoldable pub free_raw_item : RawStore → ℕ → Outcome RawStore
free_raw_item s idx = do
  (ptr, uses) ← access (get_elem? s.data_vec idx)
  let left = decrement uses
  ok (
      if equals left 0
      then record {
        data_vec = set s.data_vec idx (none, negsuc 0);
        free_idxs = insert idx s.free_idxs;
        freed = ptr ∷ s.freed;
      }
      else record s { data_vec = set s.data_vec idx (ptr, left) })

-- A free index, or a new one at the end.
unfoldable pub take_raw_index : HashOrder → RawStore → List ℕ → ℕ × RawStore
take_raw_index order s [] =
    (length s.data_vec, record s { data_vec = s.data_vec ++ ((none, pos 0) ∷ []); free_idxs = [] })
take_raw_index order s (x ∷ xs) =
    let idx = order.first x xs in (idx, record s { free_idxs = erase idx (x ∷ xs) })

unfoldable pub insert_raw_item : HashOrder → RawStore → Option ℕ → ℕ → ℕ × RawStore
insert_raw_item order s ptr uses =
    let (idx, t) = take_raw_index order s s.free_idxs in
    (idx, record t { data_vec = set t.data_vec idx (ptr, pos uses) })

-- `ptr` is what `malloc` answers.
unfoldable pub allocate_item : HashOrder → RawStore → Option ℕ → ℕ → (Option ℕ × ℕ) × RawStore
allocate_item order s ptr uses =
    let (idx, t) = take_raw_index order s s.free_idxs in
    ((ptr, idx), record t { data_vec = set t.data_vec idx (ptr, pos uses) })

unfoldable pub get_raw_item : RawStore → ℕ → Outcome (Option ℕ)
get_raw_item s idx = do (ptr, uses) ← access (get_elem? s.data_vec idx); ok ptr
