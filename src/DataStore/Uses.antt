-- ===== src/DataStore/Uses.antt =====
-- The store as a map from indices to the items in use: no item is lost, moved or handed out twice.
use liburing_server.Prelude.{
  ℕ, zero, suc, ◌≡◌, ◌<◌, ◌≢◌, refl, sym, ◌∙◌, arith, true, false, List, [], ◌∷◌, length, get_elem?,
  set, Option, none, some, ok, undefined, if◌then◌else◌, ◌==◌, ℤ, pos, negsuc, decrement, equals,
  has, insert, has-erase, has-insert, length-append, length-set, get_elem?-set, get_elem?-snoc,
  get_elem?-length, lt_of_get_elem?, Bool-cases, Option-cases, ok-injective, undefined_ne_ok, inl,
  inr,
}
use liburing_server.DataStore.{HashOrder, Store, free_item, take_index, insert_item}

module _ {A : Type 0} where
  -- The item at an index, with its uses left, if the index is in use.
  abbrev pub lookup : Store A → ℕ → Option (A × ℤ)
  lookup s i = if has i s.free_idxs then none else get_elem? s.data_vec i

  abbrev pub IsValid : Store A → Type 0
  IsValid s = (i : ℕ) → has i s.free_idxs ≡ true → i < length s.data_vec

  pub used : (s : Store A) (i : ℕ) {x : A × ℤ} → lookup s i ≡ some x → has i s.free_idxs ≡ false
  used s i e = ground arith

  pub stored :
      (s : Store A) (i : ℕ) {x : A × ℤ} → lookup s i ≡ some x → get_elem? s.data_vec i ≡ some x
  stored s i e = ground arith

module _ {A : Type 0} (blank : A) where
  free_item_outside :
      (s : Store A) (j : ℕ) → get_elem? s.data_vec j ≡ none → free_item blank s j ≡ undefined
  unfolding free_item
  free_item_outside s j m = rw m

  pub free_item_step :
      (s : Store A) (idx : ℕ) (buff : A) (uses : ℤ)
      → get_elem? s.data_vec idx ≡ some (buff, uses)
      → free_item blank s idx
        ≡ ok (
            if equals (decrement uses) 0
            then record {
              data_vec = set s.data_vec idx (blank, negsuc 0);
              free_idxs = insert idx s.free_idxs;
            }
            else record s { data_vec = set s.data_vec idx (buff, decrement uses) })
  unfolding free_item
  free_item_step s idx buff uses e = rw e

  -- The last use gone, the index is free, and the other items stand as they did.
  pub released : Store A → ℕ → Store A
  released s idx = record {
    data_vec = set s.data_vec idx (blank, negsuc 0);
    free_idxs = insert idx s.free_idxs;
  }

  pub lookup-released :
      (s : Store A) (idx j : ℕ)
      → idx < length s.data_vec
      → lookup (released s idx) j ≡ (if idx == j then none else lookup s j)
  unfolding released
  lookup-released s idx j h =
      ground (arith, has-insert idx j s.free_idxs, get_elem?-set s.data_vec idx j (blank, negsuc 0))

  pub lookup-written :
      (s : Store A) (idx j : ℕ) (x : A × ℤ)
      → idx < length s.data_vec
      → has idx s.free_idxs ≡ false
      → lookup (record s { data_vec = set s.data_vec idx x }) j
        ≡ (if idx == j then some x else lookup s j)
  lookup-written s idx j x h f = ground (arith, get_elem?-set s.data_vec idx j x)

  released-IsValid :
      (s : Store A) (idx : ℕ) → idx < length s.data_vec → IsValid s → IsValid (released s idx)
  unfolding released
  released-IsValid s idx h v j e =
      ground (arith, has-insert idx j s.free_idxs, v j, length-set s.data_vec idx (blank, negsuc 0))

  written-IsValid :
      (s : Store A) (idx : ℕ) (x : A × ℤ)
      → IsValid s
      → IsValid (record s { data_vec = set s.data_vec idx x })
  written-IsValid s idx x v j e = omega (arith, length-set s.data_vec idx x, v j e)

  -- `free_item` at another index, whatever stands there, leaves an item alone.
  pub free_item_other :
      (s : Store A) (j : ℕ) (t : Store A)
      → IsValid s
      → free_item blank s j ≡ ok t
      → IsValid t × ((i : ℕ) → j ≢ i → lookup t i ≡ lookup s i)
  unfolding released
  free_item_other s j t v e = elim (Option-cases (get_elem? s.data_vec j)) [
    | inl m ↦ absurd (faults m)
    | inr ((buff, uses), m) ↦ elim (Bool-cases (equals (decrement uses) 0)) [
      | inl z ↦
          let same : released s j ≡ t = ok-injective (sym (ended buff uses m z) ∙ e) in
          rw (sym same) (
            released-IsValid s j (lt_of_get_elem? s.data_vec j m) v,
            λ i h. ground (arith, lookup-released s j i (lt_of_get_elem? s.data_vec j m)),
          )
      | inr z ↦
          let same : record s { data_vec = set s.data_vec j (buff, decrement uses) } ≡ t =
            ok-injective (sym (went_on buff uses m z) ∙ e) in
          rw (sym same) (
            written-IsValid s j (buff, decrement uses) v,
            λ i h. ground (
              arith,
              get_elem?-set s.data_vec j i (buff, decrement uses) (lt_of_get_elem? s.data_vec j m),
            ),
          )
    ]
  ]
    where
      faults : get_elem? s.data_vec j ≡ none → ⊥
      faults m = undefined_ne_ok (sym (free_item_outside s j m) ∙ e)

      ended :
          (buff : A) (uses : ℤ)
          → get_elem? s.data_vec j ≡ some (buff, uses)
          → equals (decrement uses) 0 ≡ true
          → free_item blank s j ≡ ok (released s j)
      ended buff uses m z = free_item_step s j buff uses m ∙ rw z

      went_on :
          (buff : A) (uses : ℤ)
          → get_elem? s.data_vec j ≡ some (buff, uses)
          → equals (decrement uses) 0 ≡ false
          → free_item blank s j
            ≡ ok (record s { data_vec = set s.data_vec j (buff, decrement uses) })
      went_on buff uses m z = free_item_step s j buff uses m ∙ rw z

  -- Freeing an item in use of a valid store returns a valid store in which the item has one use
  -- less, or is gone if it had one, and every other index is as it was.
  pub lookup-free_item :
      (s : Store A) (idx n : ℕ) (buff : A)
      → IsValid s
      → lookup s idx ≡ some (buff, pos (suc n))
      → (t : Store A) × (free_item blank s idx ≡ ok t)
        × IsValid t
        × ((j : ℕ)
            → lookup t j
              ≡ (if idx == j then (if n == 0 then none else some (buff, pos n)) else lookup s j))
  unfolding released
  lookup-free_item s idx zero buff v e =
      let here = lt_of_get_elem? s.data_vec idx (stored s idx e) in
      (
        released s idx,
        free_item_step s idx buff (pos 1) (stored s idx e),
        released-IsValid s idx here v,
        λ j. lookup-released s idx j here,
      )
  lookup-free_item s idx (suc n) buff v e =
      let here = lt_of_get_elem? s.data_vec idx (stored s idx e) in
      (
        record s { data_vec = set s.data_vec idx (buff, pos (suc n)) },
        free_item_step s idx buff (pos (suc (suc n))) (stored s idx e) ∙ ground arith,
        written-IsValid s idx (buff, pos (suc n)) v,
        λ j. ground (arith, lookup-written s idx j (buff, pos (suc n)) here (used s idx e)),
      )

  module _ (order : HashOrder) where
    abbrev made : List (A × ℤ) → List ℕ → Store A
    made vec free = record { data_vec = vec; free_idxs = free }

    -- What `take_index` hands out was free or is new.
    abbrev Taken : Store A → ℕ × Store A → Type 0
    Taken s (idx, t) =
        (lookup s idx ≡ none)
        × (idx < length t.data_vec)
        × (has idx t.free_idxs ≡ false)
        × IsValid t
        × ((j : ℕ)
            → (if idx == j then none else lookup t j) ≡ (if idx == j then none else lookup s j))

    take_index-Taken :
        (vec : List (A × ℤ)) (free : List ℕ)
        → IsValid (made vec free)
        → Taken (made vec free) (take_index blank order vec free)
    unfolding take_index
    take_index-Taken vec [] v = (
      get_elem?-length vec,
      omega (arith, length-append vec ((blank, pos 0) ∷ [])),
      refl,
      λ i e. cc,
      λ j. ground (arith, get_elem?-snoc vec (blank, pos 0) j),
    )
    take_index-Taken vec (x ∷ xs) v =
        let mem = order.first-mem x xs in
        let i = order.first x xs in
        (
          rw mem,
          v i mem,
          ground (arith, has-erase i i (x ∷ xs)),
          λ j e. v j (ground (arith, has-erase i j (x ∷ xs))),
          λ j. ground (arith, has-erase i j (x ∷ xs)),
        )

    -- Inserting an item into a valid store gives an index that was not in use, a valid store
    -- with the item and its uses at that index, and every other index as it was.
    pub lookup-insert_item :
        (s : Store A) (buff : A) (uses : ℕ)
        → IsValid s
        → let (idx, t) = insert_item blank order s buff uses in
          (lookup s idx ≡ none)
          × IsValid t
          × ((j : ℕ) → lookup t j ≡ (if idx == j then some (buff, pos uses) else lookup s j))
    unfolding insert_item
    lookup-insert_item s buff uses v =
        let (idx, t) = take_index blank order s.data_vec s.free_idxs in
        let (fresh, inside, owned, valid, others) = take_index-Taken s.data_vec s.free_idxs v in
        (
          fresh,
          written-IsValid t idx (buff, pos uses) valid,
          λ j. ground (arith, lookup-written t idx j (buff, pos uses) inside owned, others j),
        )
