-- ===== src/DataStore.antt =====
-- `data_store` of src/header/data_store.h: buffers under an index, each with the number of uses left.
-- `A` is a vector of bytes there.
pub mod Uses
pub mod Lifetime
pub mod Raw
mod Examples
use liburing_server.Prelude.{
  ℕ, zero, suc, ◌≡◌, true, List, [], ◌∷◌, ◌++◌, length, get_elem?, set, Outcome, ok, access, ◌>>=◌,
  if◌then◌else◌, ℤ, pos, negsuc, decrement, equals, has, erase, insert, resize,
}

-- `*free_idxs.cbegin()`: which member of a non-empty set comes first is not specified.
pub record HashOrder : Type 0 where
  pub first : ℕ → List ℕ → ℕ
  pub first-mem : (x : ℕ) (xs : List ℕ) → has (first x xs) (x ∷ xs) ≡ true

pub record Store (A : Type 0) : Type 0 where
  pub data_vec : List (A × ℤ)
  pub free_idxs : List ℕ

module _ {A : Type 0} (blank : A) where
  unfoldable pub free_item : Store A → ℕ → Outcome (Store A)
  free_item s idx = do
    (buff, uses) ← access (get_elem? s.data_vec idx)
    let left = decrement uses
    ok (
        if equals left 0
        then record {
          data_vec = set s.data_vec idx (blank, negsuc 0);
          free_idxs = insert idx s.free_idxs;
        }
        else record s { data_vec = set s.data_vec idx (buff, left) })

  module _ (order : HashOrder) where
    -- The start of both allocating methods: a free index, or a new one at the end.
    unfoldable pub take_index : List (A × ℤ) → List ℕ → ℕ × Store A
    take_index data_vec [] =
        (length data_vec, record { data_vec = data_vec ++ ((blank, pos 0) ∷ []); free_idxs = [] })
    take_index data_vec (x ∷ xs) =
        let idx = order.first x xs in
        (idx, record { data_vec = data_vec; free_idxs = erase idx (x ∷ xs) })

    unfoldable pub insert_item : Store A → A → ℕ → ℕ × Store A
    insert_item s buff uses =
        let (idx, t) = take_index s.data_vec s.free_idxs in
        (idx, record t { data_vec = set t.data_vec idx (buff, pos uses) })

  unfoldable pub get_item : Store A → ℕ → Outcome A
  get_item s idx = do (buff, uses) ← access (get_elem? s.data_vec idx); ok buff

-- `data_store::make_item` sizes the buffer of the slot. Its argument `uses` is not stored.
unfoldable pub make_item : HashOrder → Store (List ℕ) → ℕ → ℕ → Outcome (ℕ × Store (List ℕ))
make_item order s size uses = do
  let (idx, t) = take_index [] order s.data_vec s.free_idxs
  (buff, left) ← access (get_elem? t.data_vec idx)
  ok (idx, record t { data_vec = set t.data_vec idx (resize 0 size buff, left) })
