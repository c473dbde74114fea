-- ===== src/Prelude/Paths.antt =====
-- Equality of byte strings, and maps as functions.
use Prim.Native.Nat.{ℕ}
use mathlib.Core.Path.{◌≡◌, refl}
use mathlib.Core.Bool.{Bool, true, false, ◌&&◌}
use mathlib.Core.List.{List, [], ◌∷◌}
use native.Mathlib.Omega.{arith}
use liburing_server.Prelude.Tests.{◌==◌, if◌then◌else◌}

unfoldable pub same_bytes : List ℕ → List ℕ → Bool
same_bytes [] [] = true
same_bytes [] (y ∷ ys) = false
same_bytes (x ∷ xs) [] = false
same_bytes (x ∷ xs) (y ∷ ys) = x == y && same_bytes xs ys

pub same_bytes_refl : (xs : List ℕ) → same_bytes xs xs ≡ true
unfolding same_bytes
same_bytes_refl [] = refl
same_bytes_refl (x ∷ xs) = ground (arith, same_bytes_refl xs)

pub eq_of_same_bytes : (xs ys : List ℕ) → same_bytes xs ys ≡ true → xs ≡ ys
unfolding same_bytes
eq_of_same_bytes [] [] h = refl
eq_of_same_bytes [] (y ∷ ys) h = cc
eq_of_same_bytes (x ∷ xs) [] h = cc
eq_of_same_bytes (x ∷ xs) (y ∷ ys) h = ground (arith, eq_of_same_bytes xs ys)

-- Maps from byte strings and from indices.
abbrev pub put_path {ℓ} : {V : Type ℓ} → (List ℕ → V) → List ℕ → V → List ℕ → V
put_path m k v j = if same_bytes k j then v else m j

abbrev pub put_index {ℓ} : {V : Type ℓ} → (ℕ → V) → ℕ → V → ℕ → V
put_index m k v j = if k == j then v else m j
