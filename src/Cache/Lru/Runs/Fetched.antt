-- ===== src/Cache/Lru/Runs/Fetched.antt =====
-- A fetch counts the client that made it.
use liburing_server.Prelude.{
  ℕ, suc, ◌≡◌, ◌≢◌, refl, sym, ap, ◌∙◌, arith, true, false, List, [], ◌∷◌, ◌++◌, Option, none, some,
  ◌==◌, increment, has, erase, IsSetList, IsSetList-erase, All-append, All-parts, put_index,
  Bool-cases, inl, inr, ne→not-==, ==_iff,
}
use mathlib.Core.Path.{subst}
use liburing_server.DataStore.{HashOrder}
use liburing_server.Cache.Lru.{Place, find, slots_of, locked_once, fetched, assigned, using}
use liburing_server.Cache.Lru.Paths.{slots_of-append, Found, find-Found}
use liburing_server.Cache.Lru.Fetch.{IsSetList-moved}
use liburing_server.Cache.Lru.Runs.{fetch, Files, answer}
use liburing_server.Cache.Lru.Runs.Locks.{
  Uses, Counted, AllCounted, All-erase, length-erase_least, AllCounted-fewer,
}

module _ (order : HashOrder) (t : Files) where
  pub fetch-AllCounted :
      (k : ℕ) (p : List ℕ)
      → IsSetList (slots_of t.files)
      → AllCounted t t.files
      → AllCounted (answer order (fetch k p) t).1 (answer order (fetch k p) t).1.files
  fetch-AllCounted k p unique counted = of_place (find p t.files) (find-Found p t.files)
    where
      after : Option Place → Files
      after o = record t {
        files = (fetched t.files o).1;
        slots_of_clients = assigned t.slots_of_clients k o;
        clients = put_index t.clients k (using (t.clients k) o);
      }

      same : (i j : ℕ) → Uses (after none) i j → Uses t i j
      same i j (uses, mapped) = elim (Bool-cases (k == j)) [
        | inl hit ↦ (
          ap (λ l. (t.clients l).using_file) (sym ((==_iff k j).0 hit)) ∙ sym (rw hit refl) ∙ uses,
          mapped,
        )
        | inr miss ↦ (sym (rw miss refl) ∙ uses, mapped)
      ]

      other : (place : Place) (i j : ℕ) → k ≢ j → Uses (after (some place)) i j → Uses t i j
      other place i j ne (uses, mapped) =
          (sym (rw (ne→not-== k j ne) refl) ∙ uses, sym (rw (ne→not-== k j ne) refl) ∙ mapped)

      elsewhere :
          (place : Place) (i j : ℕ)
          → place.here.slot ≢ i
          → Uses (after (some place)) i j
          → Uses t i j
      elsewhere place i j ne (uses, mapped) = elim (Bool-cases (k == j)) [
        | inl hit ↦ absurd (ne (some-injective (sym (rw hit refl) ∙ mapped)))
        | inr miss ↦ (sym (rw miss refl) ∙ uses, sym (rw miss refl) ∙ mapped)
      ]
        where
          some-injective : {x y : ℕ} → some x ≡ some y → x ≡ y
          some-injective e = cc

      apart : (i j : ℕ) (xs : List ℕ) → has i xs ≡ false → has j xs ≡ true → i ≢ j
      apart i j xs out m e = ground arith

      once_more :
          (place : Place)
          → Counted t place.here.slot place.here.locks
          → Counted (after (some place)) place.here.slot (increment place.here.locks)
      once_more place here ks set users =
          let (m, locks, enough) =
            here (erase k ks) (IsSetList-erase k ks set)
              (All-erase k ks (λ j ne. other place place.here.slot j ne) users) in
          (suc m, ap increment locks, omega (arith, enough, length-erase_least k ks set))

      of_place : (o : Option Place) → Found p t.files o → AllCounted (after o) (fetched t.files o).1
      of_place none h = AllCounted-fewer t (after none) t.files (λ i j m. same i j) counted
      of_place (some place) (split, at) =
          let e = place.here in
          let (hx, (here, hy)) =
            All-parts (λ e. Counted t e.slot e.locks) place.before (e ∷ place.after)
              (subst (AllCounted t) split counted) in
          let (moved, outx, outy) =
            IsSetList-moved (slots_of place.before) e.slot (slots_of place.after) (
              subst IsSetList (ap slots_of split ∙ slots_of-append place.before (e ∷ place.after))
                unique) in
          let u = after (some place) in
          All-append (λ e. Counted u e.slot e.locks) place.before
            (place.after ++ (locked_once e ∷ []))
            (AllCounted-fewer t u place.before
              (λ i j m. elsewhere place i j (apart e.slot i (slots_of place.before) outx m)) hx)
            (All-append (λ e. Counted u e.slot e.locks) place.after (locked_once e ∷ [])
              (AllCounted-fewer t u place.after
                (λ i j m. elsewhere place i j (apart e.slot i (slots_of place.after) outy m)) hy)
              (once_more place here, tt))
