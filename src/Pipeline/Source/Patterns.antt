-- ===== src/Pipeline/Source/Patterns.antt =====
-- Which lists of names a source of ceilometer/pipeline.py accepts, and which names it supports.
use Prim.Native.Char.{code}
use stx_ceilometer.Prelude.{
  ℕ, String, ◌≡◌, refl, Bool, true, false, not, ◌&&◌, ◌↔◌, some, List, [], ◌∷◌, arith, any,
  is_empty, contains, index_error, ok, raise, if◌then◌else◌, string_eq,
}
use stx_ceilometer.Pipeline.Source.{
  rest, is_bang, is_plain, some_first, check_patterns, check_source_filtering, any_result,
  starts_bang, denies, allows,
}

abbrev pub is_blank : String → Bool
is_blank String.[] = true
is_blank (String.◌∷◌ c s) = false

abbrev pub starts_plain : String → Bool
starts_plain String.[] = false
starts_plain (String.◌∷◌ c s) = is_plain (code c)

abbrev first_is : (ℕ → Bool) → String → Bool
first_is test String.[] = false
first_is test (String.◌∷◌ c s) = test (code c)

some_first_lem :
    (test : ℕ → Bool) (xs : List String)
    → some_first test xs
      ≡ (if any is_blank xs then raise index_error else ok (any (first_is test) xs))
unfolding some_first
some_first_lem test [] = refl
some_first_lem test (String.[] ∷ xs) = refl
some_first_lem test (String.◌∷◌ c s ∷ xs) = ground (arith, some_first_lem test xs)

-- A list of names that `check_source_filtering` lets pass.
pub record IsAccepted (names : List String) : Type 0 where
  pub nonempty : is_empty names ≡ false
  pub no_blank : any is_blank names ≡ false
  pub not_mixed : (any starts_plain names && any starts_bang names) ≡ false
  pub not_overlaid : (contains names "*" && any starts_plain names) ≡ false

any-first_is-bang : (xs : List String) → any (first_is is_bang) xs ≡ any starts_bang xs
any-first_is-bang [] = refl
any-first_is-bang (String.[] ∷ xs) = any-first_is-bang xs
any-first_is-bang (String.◌∷◌ c s ∷ xs) = ground (arith, any-first_is-bang xs)

any-first_is-plain : (xs : List String) → any (first_is is_plain) xs ≡ any starts_plain xs
any-first_is-plain [] = refl
any-first_is-plain (String.[] ∷ xs) = any-first_is-plain xs
any-first_is-plain (String.◌∷◌ c s ∷ xs) = ground (arith, any-first_is-plain xs)

-- The checks, as one condition on the list.
check_patterns_iff :
    (xs : List String)
    → (check_patterns xs ≡ ok tt) ↔ (
        (any is_blank xs ≡ false)
        × ((any starts_plain xs && any starts_bang xs) ≡ false)
        × ((contains xs "*" && any starts_plain xs) ≡ false))
unfolding check_patterns
check_patterns_iff xs =
    simp (some_first_lem, any-first_is-bang, any-first_is-plain)
      (let p = any starts_plain xs in
        let b = any starts_bang xs in
        let c = contains xs "*" in let e = any is_blank xs in ground arith)

-- The check passes exactly the lists that are not empty, hold no empty string, do not name both
-- included and excluded meters, and do not name included meters beside the wildcard.
pub check_source_filtering_iff :
    (names : List String) → (check_source_filtering (some names) ≡ ok tt) ↔ IsAccepted names
unfolding check_source_filtering
check_source_filtering_iff [] = ground arith
check_source_filtering_iff (x ∷ xs) = ground (arith, check_patterns_iff (x ∷ xs))

-- Without an empty string the two generators of `is_supported` raise nothing.
pub any_result-denies :
    (fnmatch : String → String → Bool) (name : String) (xs : List String)
    → any is_blank xs ≡ false
    → any_result (denies fnmatch name) xs
      ≡ ok (any (λ x. starts_bang x && fnmatch name (rest x)) xs)
unfolding any_result denies
any_result-denies fnmatch name [] h = refl
any_result-denies fnmatch name (String.[] ∷ xs) h = cc
any_result-denies fnmatch name (String.◌∷◌ c s ∷ xs) h =
    ground (arith, any_result-denies fnmatch name xs)

pub any_result-allows :
    (fnmatch : String → String → Bool) (name : String) (xs : List String)
    → any is_blank xs ≡ false
    → any_result (allows fnmatch name) xs ≡ ok (any (λ x. not (starts_bang x) && fnmatch name x) xs)
unfolding any_result allows
any_result-allows fnmatch name [] h = refl
any_result-allows fnmatch name (String.[] ∷ xs) h = cc
any_result-allows fnmatch name (String.◌∷◌ c s ∷ xs) h =
    ground (arith, any_result-allows fnmatch name xs)
