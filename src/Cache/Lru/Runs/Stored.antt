-- ===== src/Cache/Lru/Runs/Stored.antt =====
-- A file goes into a slot that no client is using.
use liburing_server.Prelude.{
  ℕ, ◌≤◌, ◌≡◌, refl, sym, ap, ◌∙◌, arith, true, false, false_ne_true, List, [], ◌∷◌, some, ◌==◌, ℤ,
  pos, equals, has, All-append, Bool-cases, inl, inr, ==_iff,
}
use mathlib.Core.Path.{subst}
use liburing_server.DataStore.{HashOrder}
use liburing_server.Cache.{Cache}
use liburing_server.Cache.Lru.{Entry, slots_of, inserted, replaced, Represents}
use liburing_server.Cache.Lru.Insert.{free_elsewhere}
use liburing_server.Cache.Lru.Runs.{store, Files, answer, HaveSlots}
use liburing_server.Cache.Lru.Runs.Locks.{Uses, Counted, AllCounted, AllCounted-fewer}

module _ (order : HashOrder) (t : Files) where
  -- A slot that nobody uses.
  Counted-unused : (u : Files) (i m : ℕ) → ((k : ℕ) → Uses u i k → ⊥) → Counted u i (pos m)
  Counted-unused u i m f [] set users = (m, refl, omega arith)
  Counted-unused u i m f (k ∷ ks) set (here, users) = absurd (f k here)

  used_has_file : HaveSlots t → (i k : ℕ) → Uses t i k → has i (slots_of t.files) ≡ true
  used_has_file have i k (uses, mapped) =
      let (j, mapped', there) = have k uses in
      ap (λ l. has l (slots_of t.files)) (some-injective (sym mapped ∙ mapped')) ∙ there
    where
      some-injective : {x y : ℕ} → some x ≡ some y → x ≡ y
      some-injective e = cc

  -- A client that is using a file has it locked.
  pub locked_if_used :
      (i k : ℕ) (locks : ℤ) → Counted t i locks → Uses t i k → equals locks 0 ≡ true → ⊥
  locked_if_used i k locks counted uses idle =
      let (m, e, enough) = counted (k ∷ []) (refl, tt) (uses, tt) in
      none_left m enough (ap (λ z. equals z 0) (sym e) ∙ idle)
    where
      none_left : (m : ℕ) → 1 ≤ m → (m == 0) ≡ true → ⊥
      none_left m h e = omega (arith, h, (==_iff m 0).0 e)

  pub store-AllCounted :
      (s : Cache) (p bytes : List ℕ) (watch : ℤ)
      → Represents s t.files
      → s.free_idxs ≡ t.free
      → HaveSlots t
      → AllCounted t t.files
      → AllCounted
          (answer order (store p bytes watch) t).1
          (answer order (store p bytes watch) t).1.files
  store-AllCounted s p bytes watch r same have counted =
      AllCounted-fewer t (answer order (store p bytes watch) t).1
        (inserted order t.free p bytes t.files).1 (λ i k m u. u) (of_free t.free same)
    where
      of_files : (es : List Entry) → t.files ≡ es → AllCounted t (replaced p bytes es).1
      of_files [] split = tt
      of_files (e ∷ es) split =
          let (here, counted') = subst (AllCounted t) split counted in
          elim (Bool-cases (equals e.locks 0)) [
            | inl idle ↦ rw idle (
                All-append (λ e. Counted t e.slot e.locks) es _ counted'
                  (
                    Counted-unused t e.slot 0 (λ k u. locked_if_used e.slot k e.locks here u idle),
                    tt,
                  ))
            | inr busy ↦ rw busy (here, counted')
          ]

      of_free :
          (free : List ℕ)
          → s.free_idxs ≡ free
          → AllCounted t (inserted order free p bytes t.files).1
      of_free [] empty = of_files t.files refl
      of_free (x ∷ xs) some_free =
          let i = order.first x xs in
          let absent : has i (slots_of t.files) ≡ false =
            free_elsewhere s i t.files (ap (has i) some_free ∙ order.first-mem x xs) r.held in
          All-append (λ e. Counted t e.slot e.locks) t.files _ counted
            (
              Counted-unused t i 0 (λ k u. false_ne_true (sym absent ∙ used_has_file have i k u)),
              tt,
            )
