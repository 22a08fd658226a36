-- ===== src/Tests/Numbers.antt =====
-- Integers as volumes. A quotient is rounded towards zero; divisors are positive here.
use Prim.Native.Nat.{◌/◌}
use stx_ceilometer.Prelude.{◌+◌, ◌≡◌, Bool, true, false, arith, string_eq, leb}
use stx_ceilometer.Prelude.Int.{
  ℤ, pos, pos_part, neg_part, sub_ℕ, ◌+ℤ◌, ◌-ℤ◌, ◌*ℤ◌, ltb_ℤ, leb_ℤ, int_laws, -ℤ_parts,
}
use stx_ceilometer.Sample.{Arithmetic}

abbrev pub quotient : ℤ → ℤ → ℤ
quotient a b = sub_ℕ (pos_part a / pos_part b) (neg_part a / pos_part b)

abbrev pub is_zero_ℤ : ℤ → Bool
is_zero_ℤ a = leb (pos_part a + neg_part a) 0

abbrev pub integers : Arithmetic ℤ
integers = record {
  zero = pos 0;
  one = pos 1;
  add = ◌+ℤ◌;
  sub = ◌-ℤ◌;
  mul = ◌*ℤ◌;
  div = quotient;
  lt = ltb_ℤ;
  le = leb_ℤ;
  is_zero = is_zero_ℤ;
  of_ℕ = pos;
}

pub integers-restore : (a b : ℤ) → b +ℤ (a -ℤ b) ≡ a
integers-restore a b = omega int_laws

pub integers-irreflexive : (n : ℤ) → ltb_ℤ n n ≡ false
integers-irreflexive n = ground arith

pub integers-difference : (a b : ℤ) → leb_ℤ b a ≡ true → ltb_ℤ (a -ℤ b) (pos 0) ≡ false
integers-difference a b h = ground (arith, -ℤ_parts a b)
