-- ===== src/Prelude/Bits.antt =====
-- Masks and flags of one byte as arithmetic, checked over every byte by evaluation.
use Prim.Native.Nat.{ℕ, zero, suc, ◌+◌, ◌*◌, ◌/◌, ◌%◌, ◌<◌, bit_and, bit_or, bit_xor}
use native.Mathlib.Omega.{arith}
use liburing_server.Prelude.Tests.{◌==◌, ==_iff}
use mathlib.Core.Bool.{Bool, true, ◌&&◌}
use mathlib.Core.Path.{◌≡◌, refl}

unfoldable pub check_up_to : (ℕ → Bool) → ℕ → Bool
check_up_to p zero = true
check_up_to p (suc n) = check_up_to p n && p n

pub checked : (p : ℕ → Bool) (n x : ℕ) → check_up_to p n ≡ true → x < n → p x ≡ true
unfolding check_up_to
checked p zero x every small = absurd (omega arith)
checked p (suc n) x every small = ground (arith, checked p n x)

low_seven_table : check_up_to (λ x. bit_and x 0x7f == x % 128) 256 ≡ true
unfolding check_up_to
low_seven_table = refl

pub low_seven : (x : ℕ) → x < 256 → bit_and x 0x7f ≡ x % 128
low_seven x h = (==_iff _ _).0 (checked _ 256 x low_seven_table h)

low_four_table : check_up_to (λ x. bit_and x 0xf == x % 16) 256 ≡ true
unfolding check_up_to
low_four_table = refl

pub low_four : (x : ℕ) → x < 256 → bit_and x 0xf ≡ x % 16
low_four x h = (==_iff _ _).0 (checked _ 256 x low_four_table h)

top_bit_table : check_up_to (λ x. bit_and x 0x80 == x / 128 * 128) 256 ≡ true
unfolding check_up_to
top_bit_table = refl

pub top_bit : (x : ℕ) → x < 256 → bit_and x 0x80 ≡ x / 128 * 128
top_bit x h = (==_iff _ _).0 (checked _ 256 x top_bit_table h)

set_top_bit_table : check_up_to (λ x. bit_or 128 x == x + 128) 128 ≡ true
unfolding check_up_to
set_top_bit_table = refl

pub set_top_bit : (x : ℕ) → x < 128 → bit_or 128 x ≡ x + 128
set_top_bit x h = (==_iff _ _).0 (checked _ 128 x set_top_bit_table h)

-- Masking twice with the same key byte gives the byte back; every pair of bytes is tried.
xor_twice_table : check_up_to (λ k. check_up_to (λ x. bit_xor (bit_xor x k) k == x) 256) 256 ≡ true
unfolding check_up_to
xor_twice_table = refl

pub xor_twice : (x k : ℕ) → x < 256 → k < 256 → bit_xor (bit_xor x k) k ≡ x
xor_twice x k h g = (==_iff _ _).0 (
    checked _ 256 x
      (checked (λ k'. check_up_to (λ y. bit_xor (bit_xor y k') k' == y) 256) 256 k xor_twice_table
        g)
      h)

xor_byte_table : check_up_to (λ k. check_up_to (λ x. bit_xor x k / 256 == 0) 256) 256 ≡ true
unfolding check_up_to
xor_byte_table = refl

pub xor_byte : (x k : ℕ) → x < 256 → k < 256 → bit_xor x k < 256
xor_byte x k h g = omega (
  arith,
  (==_iff (bit_xor x k / 256) 0).0 (
      checked (λ y. bit_xor y k / 256 == 0) 256 x
        (checked (λ k'. check_up_to (λ y. bit_xor y k' / 256 == 0) 256) 256 k xor_byte_table g) h),
)
