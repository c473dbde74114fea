-- ===== src/Ws/Bytes.antt =====
-- Integers in memory, as src/web_server/websockets.tcc reads and writes them through casts of
-- byte pointers. The host is little-endian; `ntohs`, `htons`, `be64toh` and `htobe64` of the C
-- library then reverse the bytes of their argument.
use liburing_server.Prelude.{
  ℕ, zero, suc, ◌+◌, ◌*◌, ◌/◌, ◌%◌, ◌^◌, ◌<◌, ◌≡◌, refl, sym, ap, ap₂, ◌∙◌, arith, List, [], ◌∷◌,
  reverse, length, All, All-append, length-append,
}
use mathlib.Core.List.{reverse-reverse, reverse-cons}
use native.Mathlib.Nat.{pow-suc}

abbrev pub IsByte : ℕ → Type 0
IsByte b = b < 256

-- The `k` bytes of a number, lowest first, and the number that bytes stand for.
unfoldable pub bytes_le : ℕ → ℕ → List ℕ
bytes_le zero v = []
bytes_le (suc k) v = v % 256 ∷ bytes_le k (v / 256)

unfoldable pub value_le : List ℕ → ℕ
value_le [] = 0
value_le (b ∷ bs) = b + 256 * value_le bs

-- A conversion between host and network order on `k` bytes.
unfoldable pub swap_bytes : ℕ → ℕ → ℕ
unfolding bytes_le value_le
swap_bytes k v = value_le (reverse (bytes_le k v))

-- A number read in network order from bytes: the host loads it and swaps it.
unfoldable pub load_be : List ℕ → ℕ
unfolding swap_bytes value_le
load_be bs = swap_bytes (length bs) (value_le bs)

pub length-bytes_le : (k v : ℕ) → length (bytes_le k v) ≡ k
unfolding bytes_le
length-bytes_le zero v = refl
length-bytes_le (suc k) v = ap suc (length-bytes_le k (v / 256))

pub bytes_le-IsByte : (k v : ℕ) → All IsByte (bytes_le k v)
unfolding bytes_le
bytes_le-IsByte zero v = tt
bytes_le-IsByte (suc k) v = (omega arith, bytes_le-IsByte k (v / 256))

pub bytes_le-value_le : (bs : List ℕ) → All IsByte bs → bytes_le (length bs) (value_le bs) ≡ bs
unfolding bytes_le value_le
bytes_le-value_le [] h = refl
bytes_le-value_le (b ∷ bs) (h, hs) =
    ap₂ ◌∷◌ (omega arith)
      (ap (bytes_le (length bs)) (div_step b (value_le bs) h) ∙ bytes_le-value_le bs hs)
  where
    div_step : (b v : ℕ) → b < 256 → (b + 256 * v) / 256 ≡ v
    div_step b v h = omega arith

pub value_le-bytes_le : (k v : ℕ) → v < 256 ^ k → value_le (bytes_le k v) ≡ v
unfolding bytes_le value_le
value_le-bytes_le zero v h = omega arith
value_le-bytes_le (suc k) v h =
    omega (arith, value_le-bytes_le k (v / 256) (omega (arith, pow-suc 256 k)))

pub reverse-IsByte : (xs : List ℕ) → All IsByte xs → All IsByte (reverse xs)
reverse-IsByte [] h = tt
reverse-IsByte (x ∷ xs) (h, hs) =
    rw (reverse-cons x xs) (All-append IsByte (reverse xs) (x ∷ []) (reverse-IsByte xs hs) (h, tt))

pub length-reverse : (xs : List ℕ) → length (reverse xs) ≡ length xs
length-reverse [] = refl
length-reverse (x ∷ xs) =
    ap length (reverse-cons x xs)
    ∙ length-append (reverse xs) (x ∷ [])
    ∙ omega (arith, length-reverse xs)

-- What is stored after a swap are the bytes in the other order.
pub bytes_le-swap_bytes : (k v : ℕ) → bytes_le k (swap_bytes k v) ≡ reverse (bytes_le k v)
unfolding swap_bytes
bytes_le-swap_bytes k v = rw (sym size) at (
    bytes_le-value_le (reverse (bytes_le k v))
      (reverse-IsByte (bytes_le k v) (bytes_le-IsByte k v)))
  where
    size : k ≡ length (reverse (bytes_le k v))
    size = sym (length-reverse (bytes_le k v) ∙ length-bytes_le k v)

-- A load in network order is the value of the bytes, highest first.
pub load_be_lem : (bs : List ℕ) → All IsByte bs → load_be bs ≡ value_le (reverse bs)
unfolding load_be swap_bytes
load_be_lem bs h = ap (λ l. value_le (reverse l)) (bytes_le-value_le bs h)

-- A number stored in network order is read back.
pub load_be-store : (k v : ℕ) → v < 256 ^ k → load_be (bytes_le k (swap_bytes k v)) ≡ v
load_be-store k v h =
    load_be_lem (bytes_le k (swap_bytes k v)) (bytes_le-IsByte k (swap_bytes k v))
    ∙ ap (λ l. value_le (reverse l)) (bytes_le-swap_bytes k v)
    ∙ ap value_le (reverse-reverse (bytes_le k v))
    ∙ value_le-bytes_le k v h
