-- ===== src/Meter/Expansion.antt =====
-- Which samples the definitions of ceilometer/meter/notifications.py make of several values.
use stx_ceilometer.Prelude.{
  ℕ, zero, suc, ◌<◌, String, ◌≡◌, refl, sym, ap, ◌∙◌, subst, true, inl, inr, Option, some, List, [],
  ◌∷◌, map, arith, ok, >>=-eq-ok, if◌then◌else◌, Bool-cases, Option-cases, ◌==◌, ==_iff, length,
  contains, string_eq, is_empty, nat_eq, ◌⊎◌,
}
use stx_ceilometer.Prelude.{require, map_result, map_result-ok, type_error, Result-cases, get_elem?}
use stx_ceilometer.Prelude.Dict
use stx_ceilometer.Declarative.{Parsed, single, several}
use stx_ceilometer.Meter.{
  column, columns, zip_samples, all_attributes, samples_of, expand, head, tail, cycle,
}

some-injective {ℓ} : {A : Type ℓ} {a b : A} → some a ≡ some b → a ≡ b
some-injective h = cc

module _ {V : Type 0} where
  abbrev pub nth : ℕ → List (Option V) → Option V
  nth zero ws = head ws
  nth (suc j) ws = nth j (tail ws)

  -- The i-th value of an attribute of n samples: its own, or the one that all samples share.
  abbrev pub value_at : ℕ → ℕ → List (Option V) → Option V
  value_at n i vs = if length vs == n then nth i vs else head vs

  columns-parts :
      (lookup : List String) (n : ℕ) (sample : List (String × Parsed V)) (name : String)
      (names : List String) (cs : List (String × List (Option V)))
      → columns lookup n sample (name ∷ names) ≡ ok (some cs)
      → (v : Parsed V) × (c : List (Option V)) × (rest : List (String × List (Option V)))
        × (Dict.get sample name ≡ some v)
        × (column lookup n name v ≡ ok (some c))
        × (columns lookup n sample names ≡ ok (some rest))
        × (cs ≡ (name, c) ∷ rest)
  unfolding columns
  columns-parts lookup n sample name names cs made =
      let (v, got, made1) = >>=-eq-ok (require type_error (Dict.get sample name)) _ made in
      let (here, fits, made2) = >>=-eq-ok (column lookup n name v) _ made1 in
      let found : Dict.get sample name ≡ some v = ground arith in
      elim (Option-cases here) [
        | inl nothing ↦ ground arith
        | inr (c, some_c) ↦ elim (Result-cases (columns lookup n sample names)) [
          | inl (e, failed) ↦ ground arith
          | inr (others, below) ↦ elim (Option-cases others) [
            | inl none_left ↦ ground arith
            | inr (rest, some_rest) ↦
                (v, c, rest, found, fits ∙ ap ok some_c, below ∙ ap ok some_rest, ground arith)
          ]
        ]
      ]

  -- A column that was made for a name is found under the name.
  columns-get :
      (lookup : List String) (n : ℕ) (sample : List (String × Parsed V)) (names : List String)
      (cs : List (String × List (Option V))) (a : String) (vs : List (Option V))
      → columns lookup n sample names ≡ ok (some cs)
      → contains names a ≡ true
      → Dict.get sample a ≡ some (several vs)
      → (c : List (Option V)) × (Dict.get cs a ≡ some c)
        × (column lookup n a (several vs) ≡ ok (some c))
  unfolding columns Dict.get
  columns-get lookup n sample [] cs a vs made there found = cc
  columns-get lookup n sample (name ∷ names) cs a vs made there found =
      let (v, c, rest, got, fits, below, same) = columns-parts lookup n sample name names cs made in
      elim (Bool-cases (name == a)) [
        | inl this ↦
            let key = (==_iff name a).0 this in
            let value : v ≡ several vs = ground arith in
            (
              c,
              rw (same, this) refl,
              subst (λ k. column lookup n k (several vs) ≡ ok (some c)) key
                  (subst (λ w. column lookup n name w ≡ ok (some c)) value fits),
            )
        | inr another ↦
            let (c', listed, fits') =
              columns-get lookup n sample names rest a vs below (ground arith) found in
            (c', rw (same, another) listed, fits')
      ]

  nth-cycle : (n i : ℕ) (v : Option V) → i < n → nth i (cycle n v) ≡ v
  nth-cycle zero i v h = ground arith
  nth-cycle (suc n) zero v h = refl
  nth-cycle (suc n) (suc i) v h = nth-cycle n i v (omega arith)

  column-nth :
      (lookup : List String) (n i : ℕ) (a : String) (vs c : List (Option V))
      → column lookup n a (several vs) ≡ ok (some c)
      → i < n
      → nth i c ≡ (if length vs == n then nth i vs else head vs)
  unfolding column
  column-nth lookup n i a vs c made h = elim (Bool-cases (length vs == n)) [
    | inl every ↦ ground arith
    | inr one ↦ let same = nth-cycle n i (head vs) h in ground arith
  ]

  -- A sample of zip.
  zip_samples-get :
      (n i : ℕ) (cs : List (String × List (Option V))) (s : List (String × Parsed V)) (a : String)
      (c : List (Option V))
      → get_elem? (zip_samples n cs) i ≡ some s
      → Dict.get cs a ≡ some c
      → Dict.get s a ≡ some (single (nth i c))
  unfolding zip_samples
  zip_samples-get zero i cs s a c h found = cc
  zip_samples-get (suc n) zero cs s a c h found =
      let row = Dict.get-map (λ (v : List (Option V)). single (head v)) cs a found in
      ap (λ r. Dict.get r a) (sym (some-injective h)) ∙ row
  zip_samples-get (suc n) (suc i) cs s a c h found =
      zip_samples-get n i (map (λ e. (e.0, tail e.1)) cs) s a (tail c) h
        (Dict.get-map tail cs a found)

  zip_samples_bound :
      (n i : ℕ) (cs : List (String × List (Option V))) (s : List (String × Parsed V))
      → get_elem? (zip_samples n cs) i ≡ some s
      → i < n
  unfolding zip_samples
  zip_samples_bound zero i cs s h = cc
  zip_samples_bound (suc n) zero cs s h = omega arith
  zip_samples_bound (suc n) (suc i) cs s h =
      let less = zip_samples_bound n i (map (λ e. (e.0, tail e.1)) cs) s h in omega arith

  -- Either nothing is yielded, or the rows of columns for all attributes.
  expand-parts :
      (lookup : List String) (sample : List (String × Parsed V)) (names : List (Option V))
      (ss : List (List (String × Parsed V)))
      → Dict.get sample "name" ≡ some (several names)
      → expand lookup sample ≡ ok ss
      → (ss ≡ [])
        ⊎ ((cs : List (String × List (Option V))) × (columns lookup
                (length names)
                sample
                all_attributes
              ≡ ok (some cs))
            × (zip_samples (length names) cs ≡ ss))
  unfolding expand
  expand-parts lookup sample names ss named made = elim (Bool-cases (is_empty names)) [
    | inl empty ↦ inl (ground arith)
    | inr filled ↦
        let made' : map_result (samples_of (length names))
              (columns lookup (length names) sample all_attributes)
            ≡ ok ss =
          ground arith in
        let (o, below, same) =
          map_result-ok (samples_of (length names))
            (columns lookup (length names) sample all_attributes) made' in
        elim (Option-cases o) [
          | inl none_fit ↦ inl (sym same ∙ ap (samples_of (length names)) none_fit)
          | inr (cs, fit) ↦
              inr (cs, below ∙ ap ok fit, sym (ap (samples_of (length names)) fit) ∙ same)
        ]
  ]

  -- Where a definition that looks up several values expands to samples, each of them has under each
  -- attribute its own value, in the order of the values of the notification, or the one value that
  -- all samples share.
  pub expand-get :
      (lookup : List String) (sample : List (String × Parsed V)) (names vs : List (Option V))
      (ss : List (List (String × Parsed V))) (i : ℕ) (s : List (String × Parsed V)) (a : String)
      → Dict.get sample "name" ≡ some (several names)
      → expand lookup sample ≡ ok ss
      → get_elem? ss i ≡ some s
      → contains all_attributes a ≡ true
      → Dict.get sample a ≡ some (several vs)
      → Dict.get s a ≡ some (single (value_at (length names) i vs))
  expand-get lookup sample names vs ss i s a named made listed there found =
      elim (expand-parts lookup sample names ss named made) [
        | inl nothing ↦ ground arith
        | inr (cs, below, zipped) ↦
            let (c, column_of_a, fits) =
              columns-get lookup (length names) sample all_attributes cs a vs below there found in
            let listed' = ap (λ l. get_elem? l i) zipped ∙ listed in
            zip_samples-get (length names) i cs s a c listed' column_of_a
            ∙ ap (λ v. some (single v))
                (column-nth lookup (length names) i a vs c fits
                  (zip_samples_bound (length names) i cs s listed'))
      ]

  length-zip_samples :
      (n : ℕ) (cs : List (String × List (Option V))) → length (zip_samples n cs) ≡ n
  unfolding zip_samples
  length-zip_samples zero cs = refl
  length-zip_samples (suc n) cs = ap suc (length-zip_samples n (map (λ c. (c.0, tail c.1)) cs))

  -- A notification with values of several samples yields as many samples as it has names, or none;
  -- and none if it has another number of values of an attribute that is looked up.
  pub length-expand :
      (lookup : List String) (sample : List (String × Parsed V)) (names vs : List (Option V))
      (ss : List (List (String × Parsed V))) (a : String)
      → Dict.get sample "name" ≡ some (several names)
      → expand lookup sample ≡ ok ss
      → contains all_attributes a ≡ true
      → contains lookup a ≡ true
      → Dict.get sample a ≡ some (several vs)
      → (ss ≡ []) ⊎ ((length ss ≡ length names) × (length vs ≡ length names))
  unfolding column
  length-expand lookup sample names vs ss a named made there looked found =
      elim (expand-parts lookup sample names ss named made) [
        | inl nothing ↦ inl nothing
        | inr (cs, below, zipped) ↦
            let (c, column_of_a, fits) =
              columns-get lookup (length names) sample all_attributes cs a vs below there found in
            let many = sym (ap length zipped) ∙ length-zip_samples (length names) cs in
            elim (Bool-cases (length vs == length names)) [
              | inl all_found ↦ inr (many, (==_iff (length vs) (length names)).0 all_found)
              | inr missing ↦ ground arith
            ]
      ]
