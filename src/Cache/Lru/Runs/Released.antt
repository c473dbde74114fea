-- ===== src/Cache/Lru/Runs/Released.antt =====
-- A client that has finished with a file is counted no longer.
use liburing_server.Prelude.{
  ℕ, zero, suc, ◌≤◌, ◌≡◌, ◌≢◌, ◌⊎◌, refl, sym, ap, ◌∙◌, arith, true, false, false_ne_true, List, [],
  ◌∷◌, length, if◌then◌else◌, ◌==◌, ℤ, pos, decrement, put_index, Bool-cases, inl, inr, eq→==,
  ==_iff,
}
use mathlib.Core.Path.{subst}
use liburing_server.Cache.Lru.{Entry, unlocked}
use liburing_server.Cache.Lru.Runs.{Files}
use liburing_server.Cache.Lru.Runs.Locks.{Uses, Counted, AllCounted, All-mono, All-absent}

module _ (t : Files) (k i : ℕ) where
  abbrev pub done : Files
  done = record t {
    files = unlocked i t.files;
    clients = put_index t.clients k (record (t.clients k) { using_file = false });
  }

  pub still-Uses : (j l : ℕ) → Uses done j l → (k ≢ l) × Uses t j l
  still-Uses j l (uses, mapped) = elim (Bool-cases (k == l)) [
    | inl hit ↦ absurd (false_ne_true (sym (rw hit refl) ∙ uses))
    | inr miss ↦ (λ e. false_ne_true (sym miss ∙ eq→== k l e), (sym (rw miss refl) ∙ uses, mapped))
  ]

  -- The client itself is one of those that the file was locked for.
  Counted-done : (locks : ℤ) → Uses t i k → Counted t i locks → Counted done i (decrement locks)
  Counted-done locks user counted ks set users =
      let (m, e, enough) =
        counted (k ∷ ks) (All-absent (Uses done i) k ks (λ u. (still-Uses i k u).0 refl) users, set)
          (user, All-mono ks (λ l u. (still-Uses i l u).1) users) in
      one_less m e enough
    where
      one_less :
          (m : ℕ)
          → locks ≡ pos m
          → suc (length ks) ≤ m
          → (n : ℕ) × (decrement locks ≡ pos n) × (length ks ≤ n)
      one_less zero e h = absurd (omega (arith, h))
      one_less (suc n) e h = (n, ap decrement e, omega (arith, h))

  pub AllCounted-done :
      (es : List Entry) → Uses t i k → AllCounted t es → AllCounted done (unlocked i es)
  AllCounted-done [] user h = tt
  AllCounted-done (e ∷ es) user (here, h) =
      (of_entry (Bool-cases (e.slot == i)), AllCounted-done es user h)
    where
      of_entry :
          ((e.slot == i) ≡ true) ⊎ ((e.slot == i) ≡ false)
          → Counted done e.slot (if e.slot == i then decrement e.locks else e.locks)
      of_entry (inl hit) =
          let same = (==_iff e.slot i).0 hit in
          rw hit (
            subst (λ j. Counted done j (decrement e.locks)) (sym same)
              (Counted-done e.locks user (subst (λ j. Counted t j e.locks) same here)))
      of_entry (inr miss) =
          rw miss
            (λ ks set users. here ks set (All-mono ks (λ l u. (still-Uses e.slot l u).1) users))
