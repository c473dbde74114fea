-- ===== src/Cache/Lru/Runs/Locks.antt =====
-- The locks of a file count the clients that are using it.
use liburing_server.Prelude.{
  ℕ, suc, ◌≤◌, ◌≡◌, ◌≢◌, refl, sym, ap, ◌∙◌, arith, true, false, false_ne_true, List, [], ◌∷◌,
  length, some, ◌==◌, ℤ, pos, has, erase, erase_absent, IsSetList, All, Bool-cases, inl, inr, eq→==,
  ==_iff,
}
use mathlib.Core.Path.{subst}
use liburing_server.Cache.Lru.{Entry, slots_of}
use liburing_server.Cache.Lru.Insert.{length-erase}
use liburing_server.Cache.Lru.Runs.{Files}

-- The client `k` is using the file in slot `i`.
abbrev pub Uses : Files → ℕ → ℕ → Type 0
Uses t i k = ((t.clients k).using_file ≡ true) × (t.slots_of_clients k ≡ some i)

-- A file has as many locks as there are clients using it, or more.
abbrev pub Counted : Files → ℕ → ℤ → Type 0
Counted t i locks =
    (ks : List ℕ) → IsSetList ks → All (Uses t i) ks → (m : ℕ) × (locks ≡ pos m) × (length ks ≤ m)

abbrev pub AllCounted : Files → List Entry → Type 0
AllCounted t es = All (λ e. Counted t e.slot e.locks) es

pub All-mono : {P Q : ℕ → Type 0} (ks : List ℕ) → ((k : ℕ) → P k → Q k) → All P ks → All Q ks
All-mono [] f h = tt
All-mono (k ∷ ks) f (here, h) = (f k here, All-mono ks f h)

pub All-absent : (P : ℕ → Type 0) (k : ℕ) (ks : List ℕ) → (P k → ⊥) → All P ks → has k ks ≡ false
All-absent P k [] f h = refl
All-absent P k (j ∷ ks) f (here, h) = elim (Bool-cases (j == k)) [
  | inl hit ↦ absurd (f (subst P ((==_iff j k).0 hit) here))
  | inr miss ↦ rw miss (All-absent P k ks f h)
]

pub All-erase :
    {P Q : ℕ → Type 0} (k : ℕ) (ks : List ℕ)
    → ((j : ℕ) → k ≢ j → P j → Q j)
    → All P ks
    → All Q (erase k ks)
unfolding erase
All-erase k [] f h = tt
All-erase k (j ∷ ks) f (here, h) = elim (Bool-cases (j == k)) [
  | inl hit ↦ rw hit (All-erase k ks f h)
  | inr miss ↦
      rw miss (f j (λ e. false_ne_true (sym miss ∙ eq→== j k (sym e))) here, All-erase k ks f h)
]

pub length-erase_least :
    (k : ℕ) (ks : List ℕ) → IsSetList ks → length ks ≤ suc (length (erase k ks))
length-erase_least k ks unique = elim (Bool-cases (has k ks)) [
  | inl there ↦ omega (arith, length-erase k ks unique there)
  | inr absent ↦ omega (arith, ap length (erase_absent k ks absent))
]

-- Fewer clients use the files.
pub AllCounted-fewer :
    (t u : Files) (es : List Entry)
    → ((i k : ℕ) → has i (slots_of es) ≡ true → Uses u i k → Uses t i k)
    → AllCounted t es
    → AllCounted u es
AllCounted-fewer t u [] f h = tt
AllCounted-fewer t u (e ∷ es) f (here, h) = (
  λ ks unique users. here ks unique (All-mono ks (λ k. f e.slot k (ground arith)) users),
  AllCounted-fewer t u es (λ i k m. f i k (ground arith)) h,
)
