-- ===== src/Prelude/Sets.antt =====
-- Sets of indices. A `std::set` is a list in ascending order, an `std::unordered_set` a list
-- without repetition, whose order is that of its iteration.
use Prim.Native.Nat.{ℕ}
use mathlib.Core.Path.{◌≡◌, refl}
use mathlib.Core.Bool.{Bool, true, false}
use mathlib.Core.List.{List, [], ◌∷◌, ◌++◌}
use native.Mathlib.Omega.{arith}
use mathlib.Core.Logic.{inl, inr}
use liburing_server.Prelude.Tests.{◌==◌, ltb, if◌then◌else◌, Bool-cases}

abbrev pub has : ℕ → List ℕ → Bool
has a [] = false
has a (x ∷ xs) = if x == a then true else has a xs

unfoldable pub erase : ℕ → List ℕ → List ℕ
erase a [] = []
erase a (x ∷ xs) = if x == a then erase a xs else x ∷ erase a xs

-- Into an unordered set.
unfoldable pub insert : ℕ → List ℕ → List ℕ
insert a xs = if has a xs then xs else a ∷ xs

-- Into an ordered set.
unfoldable pub insert_sorted : ℕ → List ℕ → List ℕ
insert_sorted a [] = a ∷ []
insert_sorted a (x ∷ xs) =
    if ltb a x then a ∷ x ∷ xs else if x == a then x ∷ xs else x ∷ insert_sorted a xs

pub has-erase : (a b : ℕ) (xs : List ℕ) → has b (erase a xs) ≡ (if a == b then false else has b xs)
unfolding erase
has-erase a b [] = ground arith
has-erase a b (x ∷ xs) = ground (arith, has-erase a b xs)

pub has-insert : (a b : ℕ) (xs : List ℕ) → has b (insert a xs) ≡ (if a == b then true else has b xs)
unfolding insert
has-insert a b xs = ground arith

pub has-insert_sorted :
    (a b : ℕ) (xs : List ℕ) → has b (insert_sorted a xs) ≡ (if a == b then true else has b xs)
unfolding insert_sorted
has-insert_sorted a b [] = ground arith
has-insert_sorted a b (x ∷ xs) = ground (arith, has-insert_sorted a b xs)

-- No index stands twice.
abbrev pub IsSetList : List ℕ → Type 0
IsSetList [] = Unit {0}
IsSetList (x ∷ xs) = (has x xs ≡ false) × IsSetList xs

pub has-append : (a : ℕ) (xs ys : List ℕ) → has a (xs ++ ys) ≡ (if has a xs then true else has a ys)
has-append a [] ys = refl
has-append a (x ∷ xs) ys = ground (arith, has-append a xs ys)

abbrev pub Disjoint : List ℕ → List ℕ → Type 0
Disjoint xs ys = (a : ℕ) → has a xs ≡ true → has a ys ≡ false

pub IsSetList-append :
    (xs ys : List ℕ) → IsSetList xs → IsSetList ys → Disjoint xs ys → IsSetList (xs ++ ys)
IsSetList-append [] ys h g apart = g
IsSetList-append (x ∷ xs) ys (out, h) g apart = (
  rw (has-append x xs ys, out) (apart x (ground arith)),
  IsSetList-append xs ys h g (λ a m. apart a (ground arith)),
)

pub IsSetList-parts :
    (xs ys : List ℕ) → IsSetList (xs ++ ys) → IsSetList xs × IsSetList ys × Disjoint xs ys
IsSetList-parts [] ys g = (tt, g, λ a m. cc)
IsSetList-parts (x ∷ xs) ys (out, g) =
    let (h, h', apart) = IsSetList-parts xs ys g in
    (
      (ground (arith, has-append x xs ys), h),
      h',
      λ a m. ground (arith, has-append x xs ys, apart a),
    )

pub erase_absent : (a : ℕ) (xs : List ℕ) → has a xs ≡ false → erase a xs ≡ xs
unfolding erase
erase_absent a [] h = refl
erase_absent a (x ∷ xs) h = ground (arith, erase_absent a xs)

pub IsSetList-erase : (a : ℕ) (xs : List ℕ) → IsSetList xs → IsSetList (erase a xs)
unfolding erase
IsSetList-erase a [] h = tt
IsSetList-erase a (x ∷ xs) (out, h) = elim (Bool-cases (x == a)) [
  | inl hit ↦ rw hit (IsSetList-erase a xs h)
  | inr miss ↦ rw miss (ground (arith, has-erase a x xs), IsSetList-erase a xs h)
]
