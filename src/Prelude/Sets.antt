-- ===== src/Prelude/Sets.antt =====
-- Lists of strings as sets.
use stx_ceilometer.Prelude.{refl}
use Prim.Native.Nat.{suc, ◌≤◌}
use Prim.Native.String.{String}
use mathlib.Core.Path.{◌≡◌, sym, ap, ◌∙◌}
use mathlib.Core.Bool.{Bool, true, false, not, ◌&&◌}
use mathlib.Core.List.{List, [], ◌∷◌}
use mathlib.Core.Logic.{◌↔◌, inl, inr}
use native.Mathlib.Omega.{arith}
use stx_ceilometer.Prelude.Tests.{◌==◌, ==_iff, ==_refl, string_eq, nat_eq, Bool-cases}
use stx_ceilometer.Prelude.Lists.{length, contains, All, IsUnique, filter}

without : String → List String → List String
without x ys = filter (λ y. not (x == y)) ys

contains-without :
    (x y : String) (ys : List String) → contains (without x ys) y ≡ (contains ys y && not (x == y))
unfolding without
contains-without x y [] = refl
contains-without x y (z ∷ zs) =
    ground (arith, contains-without x y zs, ==_iff z y, ==_iff x y, ==_iff x z)

length-without_le : (x : String) (ys : List String) → length (without x ys) ≤ length ys
unfolding without
length-without_le x [] = omega arith
length-without_le x (y ∷ ys) = ground (arith, length-without_le x ys)

length-without :
    (x : String) (ys : List String) → contains ys x ≡ true → suc (length (without x ys)) ≤ length ys
unfolding without
length-without x [] h = cc
length-without x (y ∷ ys) h =
    ground (arith, length-without x ys, length-without_le x ys, ==_iff x y, ==_iff y x)

-- A list without repetition is no longer than one that contains it.
length_le :
    (xs ys : List String) → IsUnique xs → All (λ x. contains ys x ≡ true) xs → length xs ≤ length ys
length_le [] ys u h = omega arith
length_le (x ∷ xs) ys u h =
    let shorter = length-without x ys h.0 in
    let rest = length_le xs (without x ys) u.1 (All-without xs u.0 h.1) in omega arith
  where
    All-without :
        (zs : List String)
        → contains zs x ≡ false
        → All (λ z. contains ys z ≡ true) zs
        → All (λ z. contains (without x ys) z ≡ true) zs
    All-without [] fresh k = tt
    All-without (z ∷ zs) fresh k =
        let here = contains-without x z ys in
        (ground (arith, ==_iff z x, ==_iff x z, k.0), All-without zs (ground arith) k.1)

pub All-lookup :
    (p : String → Bool) (xs : List String) (x : String)
    → All (λ y. p y ≡ true) xs
    → contains xs x ≡ true
    → p x ≡ true
All-lookup p [] x h k = cc
All-lookup p (y ∷ ys) x h k = elim (Bool-cases (y == x)) [
  | inl same ↦ ap p (sym ((==_iff y x).0 same)) ∙ h.0
  | inr other ↦ All-lookup p ys x h.1 (ground arith)
]

pub All-of :
    {P : String → Type 0} (xs : List String)
    → ((x : String) → contains xs x ≡ true → P x)
    → All P xs
All-of [] f = tt
All-of (x ∷ xs) f =
    let own = ==_refl x in (f x (ground arith), All-of xs (λ y there. f y (ground arith)))

-- Of two lists without repetition, one part of the other, the lengths agree just if the other is
-- part of the one too.
pub same_length_iff :
    (xs ys : List String)
    → IsUnique xs
    → IsUnique ys
    → All (λ x. contains ys x ≡ true) xs
    → ((length xs == length ys) ≡ true) ↔ All (λ y. contains xs y ≡ true) ys
same_length_iff xs ys u v h = (
  λ same. All-of ys (λ y there. missing y same there),
  λ all_there.
      let up = length_le xs ys u h in
      let down = length_le ys xs v all_there in (==_iff (length xs) (length ys)).1 (omega arith),
)
  where
    missing :
        (y : String) → (length xs == length ys) ≡ true → contains ys y ≡ true → contains xs y ≡ true
    missing y same there = elim (Bool-cases (contains xs y)) [
      | inl found ↦ found
      | inr absent ↦
          let longer = length_le (y ∷ xs) ys (absent, u) (there, h) in
          let equal = (==_iff (length xs) (length ys)).0 same in absurd (omega arith)
    ]
