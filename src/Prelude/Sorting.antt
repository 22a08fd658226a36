-- ===== src/Prelude/Sorting.antt =====
-- The order of strings, and `sorted` by a key that is one.
use Prim.Native.Nat.{ℕ, Ordering, compare as compare_nat}
use Prim.Native.Char.{Char, code}
use Prim.Native.String.{String, compare, then as first_of}
use Prim.Native.String.compare.{nil-nil, nil-cons, cons-nil, cons-cons}
use text.Mathlib.Text.{is_le}
use mathlib.Core.Path.{◌≡◌, refl, sym, ap, ◌∙◌}
use mathlib.Core.Bool.{Bool, true, false, ◌&&◌, ◌||◌}
use mathlib.Core.List.{List, [], ◌∷◌}
use mathlib.Core.Logic.{inl, inr}
use native.Mathlib.Omega.{arith}
use stx_ceilometer.Prelude.Tests.{Bool-cases, if◌then◌else◌, ltb, nat_beq}
use stx_ceilometer.Prelude.Lists.{All, filter}

-- Python's `<=` of two strings.
abbrev pub str_le : String → String → Bool
str_le s t = is_le (compare s t)

heads_lem :
    (m n : ℕ) (o : Ordering)
    → is_le (first_of (compare_nat m n) o) ≡ (ltb m n || (nat_beq m n && is_le o))
heads_lem m n o =
    elim (compare_nat m n)
      as (λ c. is_le (first_of c o) ≡ (
        elim c [ Ordering.lt ↦ true | _ ↦ false ]
        || (elim c [ Ordering.eq ↦ true | _ ↦ false ] && is_le o))) [
          | Ordering.lt ↦ refl
          | Ordering.eq ↦ refl
          | Ordering.gt ↦ refl
        ]

str_le_lem :
    (c d : Char) (s t : String)
    → str_le (String.◌∷◌ c s) (String.◌∷◌ d t)
      ≡ (ltb (code c) (code d) || (nat_beq (code c) (code d) && str_le s t))
str_le_lem c d s t = ap is_le (λ i. cons-cons c d s t i) ∙ heads_lem (code c) (code d) (compare s t)

str_le_empty : (t : String) → str_le String.[] t ≡ true
str_le_empty String.[] = ap is_le (λ i. nil-nil i)
str_le_empty (String.◌∷◌ d t) = ap is_le (λ i. nil-cons d t i)

str_le-cons : (c : Char) (s : String) → str_le (String.◌∷◌ c s) String.[] ≡ false
str_le-cons c s = ap is_le (λ i. cons-nil c s i)

str_le_trans : (s t u : String) → str_le s t ≡ true → str_le t u ≡ true → str_le s u ≡ true
str_le_trans String.[] t u h k = str_le_empty u
str_le_trans (String.◌∷◌ c s) String.[] u h k = let never = str_le-cons c s in cc
str_le_trans (String.◌∷◌ c s) (String.◌∷◌ d t) String.[] h k = let never = str_le-cons d t in cc
str_le_trans (String.◌∷◌ c s) (String.◌∷◌ d t) (String.◌∷◌ e u) h k =
    let later = str_le_trans s t u in
    let first = sym (str_le_lem c d s t) ∙ h in
    let second = sym (str_le_lem d e t u) ∙ k in str_le_lem c e s u ∙ ground arith

str_le_total : (s t : String) → str_le s t ≡ false → str_le t s ≡ true
str_le_total String.[] t h = let always = str_le_empty t in cc
str_le_total (String.◌∷◌ c s) String.[] h = str_le_empty (String.◌∷◌ c s)
str_le_total (String.◌∷◌ c s) (String.◌∷◌ d t) h =
    let later = str_le_total s t in
    let first = sym (str_le_lem c d s t) ∙ h in str_le_lem d c t s ∙ ground arith

module _ {A : Type 0} (key : A → String) where
  -- `sorted(xs, key=…)` is stable: an insertion sort in which equal keys keep their order.
  unfoldable pub insert_sorted : A → List A → List A
  insert_sorted a [] = a ∷ []
  insert_sorted a (x ∷ xs) = if str_le (key a) (key x) then a ∷ x ∷ xs else x ∷ insert_sorted a xs

  unfoldable pub sorted : List A → List A
  unfolding insert_sorted
  sorted [] = []
  sorted (x ∷ xs) = insert_sorted x (sorted xs)

  abbrev pub IsBelow : A → List A → Type 0
  IsBelow a xs = All (λ x. str_le (key a) (key x) ≡ true) xs

  abbrev pub IsSorted : List A → Type 0
  IsSorted [] = Unit
  IsSorted (x ∷ xs) = IsBelow x xs × IsSorted xs

  IsBelow-trans :
      (a b : A) (xs : List A) → str_le (key a) (key b) ≡ true → IsBelow b xs → IsBelow a xs
  IsBelow-trans a b [] le h = tt
  IsBelow-trans a b (x ∷ xs) le h =
      (str_le_trans (key a) (key b) (key x) le h.0, IsBelow-trans a b xs le h.1)

  IsBelow-insert :
      (b a : A) (xs : List A)
      → str_le (key b) (key a) ≡ true
      → IsBelow b xs
      → IsBelow b (insert_sorted a xs)
  unfolding insert_sorted
  IsBelow-insert b a [] le h = (le, tt)
  IsBelow-insert b a (x ∷ xs) le h = elim (Bool-cases (str_le (key a) (key x))) [
    | inl first ↦ rw first (le, h)
    | inr later ↦ rw later (h.0, IsBelow-insert b a xs le h.1)
  ]

  pub insert_sorted-IsSorted : (a : A) (xs : List A) → IsSorted xs → IsSorted (insert_sorted a xs)
  unfolding insert_sorted
  insert_sorted-IsSorted a [] h = (tt, tt)
  insert_sorted-IsSorted a (x ∷ xs) h = elim (Bool-cases (str_le (key a) (key x))) [
    | inl first ↦ rw first ((first, IsBelow-trans a x xs first h.0), h)
    | inr later ↦ rw later (
      IsBelow-insert x a xs (str_le_total (key a) (key x) later) h.0,
      insert_sorted-IsSorted a xs h.1,
    )
  ]

  insert_sorted-IsBelow : (a : A) (xs : List A) → IsBelow a xs → insert_sorted a xs ≡ a ∷ xs
  unfolding insert_sorted
  insert_sorted-IsBelow a [] h = refl
  insert_sorted-IsBelow a (x ∷ xs) h = rw (h.0) refl

  IsBelow-filter : (p : A → Bool) (a : A) (xs : List A) → IsBelow a xs → IsBelow a (filter p xs)
  IsBelow-filter p a [] h = tt
  IsBelow-filter p a (x ∷ xs) h = elim (Bool-cases (p x)) [
    | inl kept ↦ rw kept (h.0, IsBelow-filter p a xs h.1)
    | inr gone ↦ rw gone (IsBelow-filter p a xs h.1)
  ]

  -- Insertion commutes with a filter that keeps what is inserted.
  pub filter-insert_sorted :
      (p : A → Bool) (a : A) (xs : List A)
      → p a ≡ true
      → IsSorted xs
      → filter p (insert_sorted a xs) ≡ insert_sorted a (filter p xs)
  unfolding insert_sorted
  filter-insert_sorted p a [] keep h = rw keep refl
  filter-insert_sorted p a (x ∷ xs) keep h = elim (Bool-cases (str_le (key a) (key x))) [
    | inl first ↦
        let below =
          insert_sorted-IsBelow a (filter p (x ∷ xs))
            (IsBelow-filter p a (x ∷ xs) (first, IsBelow-trans a x xs first h.0)) in
        rw first rw keep (sym below)
    | inr later ↦ let rest = filter-insert_sorted p a xs keep h.1 in ground arith
  ]
