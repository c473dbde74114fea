-- ===== src/DataStore/Examples.antt =====
-- A store with an item in use and a free slot, and the theorems about stores on it.
use liburing_server.Prelude.{
  ℕ, ◌+◌, ◌≡◌, refl, arith, true, List, [], ◌∷◌, none, some, ok, if◌then◌else◌, ◌==◌, pos, negsuc,
  has, insert, erase,
}
use liburing_server.DataStore.{HashOrder, Store, take_index, free_item, insert_item}
use liburing_server.DataStore.Raw.{
  RawStore, new_raw, free_raw_item, take_raw_index, insert_raw_item, allocate_item,
}
use liburing_server.DataStore.Raw.Conserves.{
  RawCall, call, call_all, slots_with, count, given, call_all-given,
}
use liburing_server.DataStore.Uses.{lookup, IsValid, lookup-free_item, lookup-insert_item}
use liburing_server.DataStore.Lifetime.{Op, inserts, frees, run, item_lifetime}

has_here : (x : ℕ) (xs : List ℕ) → has x (x ∷ xs) ≡ true
has_here x xs = ground arith

abbrev first_of_all : HashOrder
first_of_all = record { first = λ x xs. x; first-mem = has_here }

abbrev message : List ℕ
message = 104 ∷ 105 ∷ []

abbrev shop : Store (List ℕ)
shop = record { data_vec = (message, pos 2) ∷ ([], negsuc 0) ∷ []; free_idxs = 1 ∷ [] }

shop-IsValid : IsValid shop
shop-IsValid i e = ground arith

lookup-free_item_example :
    (t : Store (List ℕ)) × (free_item [] shop 0 ≡ ok t)
    × IsValid t
    × ((j : ℕ)
        → lookup t j
          ≡ (if 0 == j then (if 1 == 0 then none else some (message, pos 1)) else lookup shop j))
lookup-free_item_example = lookup-free_item [] shop 0 1 message shop-IsValid refl

lookup-insert_item_example :
    let (idx, t) = insert_item [] first_of_all shop (7 ∷ []) 3 in
    (lookup shop idx ≡ none)
    × IsValid t
    × ((j : ℕ) → lookup t j ≡ (if idx == j then some (7 ∷ [], pos 3) else lookup shop j))
lookup-insert_item_example = lookup-insert_item [] first_of_all shop (7 ∷ []) 3 shop-IsValid

-- One use goes, and another item comes and goes.
abbrev calls : List (Op (List ℕ))
calls = inserts (7 ∷ []) 1 ∷ frees 0 ∷ frees 1 ∷ []

abbrev after : Store (List ℕ)
after = record { data_vec = (message, pos 1) ∷ ([], negsuc 0) ∷ []; free_idxs = 1 ∷ [] }

calls-run : run [] first_of_all shop calls ≡ ok after
unfolding run free_item insert_item take_index insert erase
calls-run = refl

item_lifetime_example :
    (lookup after 0 ≡ some (message, pos 1))
    × ((t' : Store (List ℕ)) × (free_item [] after 0 ≡ ok t') × (lookup t' 0 ≡ none))
item_lifetime_example =
    item_lifetime [] first_of_all shop after calls 0 message shop-IsValid refl calls-run

-- Memory of two uses and of one, whose index is taken again.
abbrev raw_calls : List RawCall
raw_calls =
    RawCall.allocates (some 100) 2
    ∷ RawCall.inserts (some 200) 1
    ∷ RawCall.frees 1
    ∷ RawCall.frees 0
    ∷ RawCall.inserts (some 300) 1
    ∷ RawCall.frees 0
    ∷ []

call_all-given_example :
    (t : RawStore) × (call_all first_of_all raw_calls new_raw ≡ ok t)
    × ((a : ℕ) → slots_with a t.data_vec + count a t.freed ≡ given a raw_calls)
unfolding call free_raw_item take_raw_index insert_raw_item allocate_item
call_all-given_example =
    call_all-given first_of_all raw_calls
      (tt, (tt, (ground arith, (ground arith, (tt, (ground arith, tt))))))
