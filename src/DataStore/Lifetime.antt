-- ===== src/DataStore/Lifetime.antt =====
-- How long an item of the store lives, under any sequence of calls; and the slots of `make_item`.
use liburing_server.Prelude.{
  ℕ, suc, ◌+◌, ◌≡◌, sym, ap, ◌∙◌, arith, List, [], ◌∷◌, none, some, Outcome, ok, ◌>>=◌, ran_first,
  ok-injective, if◌then◌else◌, ◌==◌, pos, Bool-cases, inl, inr, ==_iff,
}
use liburing_server.DataStore.{HashOrder, Store, free_item, insert_item}
use liburing_server.DataStore.Uses.{
  lookup, IsValid, lookup-free_item, free_item_other, lookup-insert_item,
}

-- A call of the store, as the threads of the program make them in any order.
pub data Op (A : Type 0) : Type 0 where
  inserts : A → ℕ → Op A
  frees : ℕ → Op A

module _ {A : Type 0} where
  abbrev pub frees_of : ℕ → List (Op A) → ℕ
  frees_of i [] = 0
  frees_of i (inserts buff uses ∷ ops) = frees_of i ops
  frees_of i (frees j ∷ ops) = if j == i then suc (frees_of i ops) else frees_of i ops

module _ {A : Type 0} (blank : A) (order : HashOrder) where
  unfoldable pub run : Store A → List (Op A) → Outcome (Store A)
  run s [] = ok s
  run s (inserts buff uses ∷ ops) = run (insert_item blank order s buff uses).1 ops
  run s (frees i ∷ ops) = free_item blank s i >>= (λ t. run t ops)

  free_kept :
      (s s' : Store A) (i m : ℕ) (buff : A)
      → IsValid s
      → lookup s i ≡ some (buff, pos (suc (suc m)))
      → free_item blank s i ≡ ok s'
      → IsValid s' × (lookup s' i ≡ some (buff, pos (suc m)))
  free_kept s s' i m buff v e f =
      let (u, fu, valid, at) = lookup-free_item blank s i (suc m) buff v e in
      let same : u ≡ s' = ok-injective (sym fu ∙ f) in rw (sym same) (valid, ground (arith, at i))

  -- What an operation does to an item with more uses than the operation takes.
  pub run_keeps :
      (ops : List (Op A)) (s t : Store A) (i n : ℕ) (buff : A)
      → IsValid s
      → lookup s i ≡ some (buff, pos (frees_of i ops + suc n))
      → run s ops ≡ ok t
      → IsValid t × (lookup t i ≡ some (buff, pos (suc n)))
  unfolding run
  run_keeps [] s t i n buff v e r =
      rw (sym (ok-injective r)) (v, e ∙ ap (λ k. some (buff, pos k)) (omega arith))
  run_keeps (inserts b uses ∷ ops) s t i n buff v e r =
      let (fresh, valid, at) = lookup-insert_item blank order s b uses v in
      run_keeps ops (insert_item blank order s b uses).1 t i n buff valid (ground (arith, at i)) r
  run_keeps (frees j ∷ ops) s t i n buff v e r =
      let (s', rest, f) = ran_first (free_item blank s j) (λ u. run u ops) (sym r) in
      elim (Bool-cases (j == i)) [
        | inl hit ↦
            let same : j ≡ i = (==_iff j i).0 hit in
            let (valid, at) =
              free_kept s s' i (frees_of i ops + n) buff v (e ∙ ground arith) (rw (sym same) f) in
            run_keeps ops s' t i n buff valid (at ∙ ground arith) (sym rest)
        | inr miss ↦
            let (valid, others) = free_item_other blank s j s' v f in
            run_keeps ops s' t i n buff valid (others i (ground arith) ∙ ground arith) (sym rest)
      ]

  -- After any calls of the store that run through and free an item one time fewer than it has
  -- uses, the item is in place with its buffer and one use, and the next free of it releases
  -- it.
  pub item_lifetime :
      (s t : Store A) (ops : List (Op A)) (i : ℕ) (buff : A)
      → IsValid s
      → lookup s i ≡ some (buff, pos (frees_of i ops + 1))
      → run s ops ≡ ok t
      → (lookup t i ≡ some (buff, pos 1))
        × ((t' : Store A) × (free_item blank t i ≡ ok t') × (lookup t' i ≡ none))
  item_lifetime s t ops i buff v e r =
      let (valid, last) = run_keeps ops s t i 0 buff v e r in
      let (t', f, valid', at) = lookup-free_item blank t i 0 buff valid last in
      (last, (t', f, ground (arith, at i)))
