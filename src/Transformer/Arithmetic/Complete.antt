-- ===== src/Transformer/Arithmetic/Complete.antt =====
-- When ceilometer/transformer/arithmetic.py has all the meters of an expression.
use stx_ceilometer.Prelude.{
  or_else, contains-append, IsUnique-snoc, All-append, suc, String, ◌≡◌, refl, sym, ap, ◌∙◌, subst,
  Bool, true, ◌&&◌, ◌||◌, ◌↔◌, inl, inr, List, [], ◌∷◌, ◌++◌, map, arith, if◌then◌else◌, Bool-cases,
  ◌==◌, ==_iff, length, contains, All, IsUnique, string_eq, nat_eq, any,
}
use stx_ceilometer.Prelude.Sets.{All-of, All-lookup, same_length_iff}
use stx_ceilometer.Prelude.Dict
use stx_ceilometer.Sample.{Sample}
use stx_ceilometer.Transformer.Arithmetic.{
  Target, ArithmeticTransformer, arithmetic, set_of, cached, update_cache, handle_sample,
  check_requirements,
}

abbrev keys : {X : Type 0} → List (String × X) → List String
keys d = map (λ entry. entry.0) d

keys-put :
    {X : Type 0} (d : List (String × X)) (k : String) (v : X)
    → keys (Dict.put d k v) ≡ (if contains (keys d) k then keys d else keys d ++ k ∷ [])
unfolding Dict.put
keys-put [] k v = refl
keys-put ((j, w) ∷ d) k v =
    let rest = keys-put d k v in
    elim (Bool-cases (j == k)) [ inl same ↦ ground arith | inr other ↦ ground arith ]

length-keys : {X : Type 0} (d : List (String × X)) → length (keys d) ≡ length d
length-keys [] = refl
length-keys (x ∷ d) = ap suc (length-keys d)

contains-keys-put :
    {X : Type 0} (d : List (String × X)) (k m : String) (v : X)
    → contains (keys (Dict.put d k v)) m ≡ (contains (keys d) m || k == m)
contains-keys-put d k m v =
    let put = keys-put d k v in
    let last = contains-append (keys d) (k ∷ []) m in
    elim (Bool-cases (contains (keys d) k)) [
      | inl known ↦
          let kept : keys (Dict.put d k v) ≡ keys d = put ∙ rw known refl in
          elim (Bool-cases (k == m)) [
            | inl same ↦
                let here = ap (contains (keys d)) (sym ((==_iff k m).0 same)) in
                rw kept ground arith
            | inr other ↦ rw kept ground arith
          ]
      | inr fresh ↦
          let grown : keys (Dict.put d k v) ≡ keys d ++ k ∷ [] = put ∙ rw fresh refl in
          rw grown ground arith
    ]

set_of-IsUnique : (xs : List String) → IsUnique (set_of xs)
unfolding set_of
set_of-IsUnique [] = tt
set_of-IsUnique (x ∷ xs) = elim (Bool-cases (contains (set_of xs) x)) [
  | inl known ↦ rw known (set_of-IsUnique xs)
  | inr fresh ↦ rw fresh (fresh, set_of-IsUnique xs)
]

module _ {N D : Type 0} where
  -- The names under which the samples of a resource are cached are required ones, each once.
  abbrev pub IsPartial : ArithmeticTransformer N D → String → Type 0
  IsPartial t rid =
      IsUnique (keys (cached t rid))
      × All (λ m. contains t.required_meters m ≡ true) (keys (cached t rid))

  -- The name that a sample has in the expression, and whether a sample gives a meter of a resource.
  abbrev pub gives : List (String × String) → String → String → Sample N D → Bool
  gives names rid m s = s.resource_id == rid && or_else (Dict.get names s.name) "" == m

  abbrev pub handle_all : List (Sample N D) → ArithmeticTransformer N D → ArithmeticTransformer N D
  handle_all [] t = t
  handle_all (s ∷ ss) t = handle_all ss (handle_sample s t)

  IsPartial-put :
      (required : List String) (d : List (String × Sample N D)) (k : String) (s : Sample N D)
      → contains required k ≡ true
      → IsUnique (keys d) × All (λ m. contains required m ≡ true) (keys d)
      → IsUnique (keys (Dict.put d k s))
        × All (λ m. contains required m ≡ true) (keys (Dict.put d k s))
  IsPartial-put required d k s wanted (u, h) =
      let same = keys-put d k s in
      elim (Bool-cases (contains (keys d) k)) [
        | inl known ↦
            let kept : keys (Dict.put d k s) ≡ keys d = same ∙ rw known refl in rw kept (u, h)
        | inr fresh ↦
            let grown : keys (Dict.put d k s) ≡ keys d ++ k ∷ [] = same ∙ rw fresh refl in
            rw grown (
              IsUnique-snoc (keys d) k u fresh,
              All-append (λ m. contains required m ≡ true) (keys d) (k ∷ []) h (wanted, tt),
            )
      ]

  abbrev name_in : ArithmeticTransformer N D → Sample N D → String
  name_in t s = or_else (Dict.get t.escaped_names s.name) ""

  handle_sample-cached :
      (s : Sample N D) (t : ArithmeticTransformer N D) (rid : String)
      → cached (handle_sample s t) rid ≡ (
          if contains t.required_meters (name_in t s) && s.resource_id == rid
          then Dict.put (cached t rid) (name_in t s) s
          else cached t rid)
  unfolding handle_sample update_cache
  handle_sample-cached s t rid =
      let written =
        Dict.get-put t.cache s.resource_id rid
          (Dict.put (cached t s.resource_id) (name_in t s) s) in
      let name = ==_iff s.resource_id rid in
      elim (Bool-cases (contains t.required_meters (name_in t s))) [
        | inl wanted ↦ elim (Bool-cases (s.resource_id == rid)) [
          | inl own ↦
              let equal = (==_iff s.resource_id rid).0 own in
              let moved = ap (λ r. Dict.put (cached t r) (name_in t s) s) equal in ground arith
          | inr other ↦ ground arith
        ]
        | inr unused ↦ ground arith
      ]

  handle_sample-fixed :
      (s : Sample N D) (t : ArithmeticTransformer N D)
      → ((handle_sample s t).required_meters ≡ t.required_meters)
        × ((handle_sample s t).escaped_names ≡ t.escaped_names)
  unfolding handle_sample update_cache
  handle_sample-fixed s t = ground arith

  handle_sample-IsPartial :
      (s : Sample N D) (t : ArithmeticTransformer N D) (rid : String)
      → IsPartial t rid
      → IsPartial (handle_sample s t) rid
  handle_sample-IsPartial s t rid h =
      let same = handle_sample-cached s t rid in
      let (required, names) = handle_sample-fixed s t in
      elim (Bool-cases (contains t.required_meters (name_in t s) && s.resource_id == rid)) [
        | inl own ↦
            let wanted : contains t.required_meters (name_in t s) ≡ true = ground arith in
            let here : cached (handle_sample s t) rid ≡ Dict.put (cached t rid) (name_in t s) s =
              same ∙ rw own refl in
            rw (required, here)
              (IsPartial-put t.required_meters (cached t rid) (name_in t s) s wanted h)
        | inr other ↦
            let here : cached (handle_sample s t) rid ≡ cached t rid = same ∙ rw other refl in
            rw (required, here) h
      ]

  handle_sample-keys :
      (s : Sample N D) (t : ArithmeticTransformer N D) (rid m : String)
      → contains t.required_meters m ≡ true
      → contains (keys (cached (handle_sample s t) rid)) m
        ≡ (contains (keys (cached t rid)) m || gives t.escaped_names rid m s)
  handle_sample-keys s t rid m wanted =
      let put = contains-keys-put (cached t rid) (name_in t s) m s in
      ap (λ d. contains (keys d) m) (handle_sample-cached s t rid)
      ∙ elim (Bool-cases (name_in t s == m)) [
        | inl named ↦
            let equal = (==_iff (name_in t s) m).0 named in
            let known : contains t.required_meters (name_in t s) ≡ true =
              ap (contains t.required_meters) equal ∙ wanted in
            ground arith
        | inr other ↦ ground arith
      ]

  handle_all-keys :
      (ss : List (Sample N D)) (t : ArithmeticTransformer N D) (rid m : String)
      → contains t.required_meters m ≡ true
      → contains (keys (cached (handle_all ss t) rid)) m
        ≡ (contains (keys (cached t rid)) m || any (gives t.escaped_names rid m) ss)
  handle_all-keys [] t rid m wanted = ground arith
  handle_all-keys (s ∷ ss) t rid m wanted =
      let (required, names) = handle_sample-fixed s t in
      let first = handle_sample-keys s t rid m wanted in
      let still : contains (handle_sample s t).required_meters m ≡ true = rw required wanted in
      let rest = handle_all-keys ss (handle_sample s t) rid m still in
      let later = ap (λ l. any (gives l rid m) ss) names in ground arith

  handle_all-IsPartial :
      (ss : List (Sample N D)) (t : ArithmeticTransformer N D) (rid : String)
      → IsPartial t rid
      → IsPartial (handle_all ss t) rid
  handle_all-IsPartial [] t rid h = h
  handle_all-IsPartial (s ∷ ss) t rid h =
      handle_all-IsPartial ss (handle_sample s t) rid (handle_sample-IsPartial s t rid h)

  handle_all-required_meters :
      (ss : List (Sample N D)) (t : ArithmeticTransformer N D)
      → (handle_all ss t).required_meters ≡ t.required_meters
  handle_all-required_meters [] t = refl
  handle_all-required_meters (s ∷ ss) t =
      handle_all-required_meters ss (handle_sample s t) ∙ (handle_sample-fixed s t).0

  -- After any samples since its creation, a transformer has the requirements for a resource just if
  -- for each required name one of the samples is of that resource and of a meter of that name. The
  -- code compares two numbers: that of the cached samples and that of the required names.
  pub check_requirements_iff :
      (keywords : List String) (target : Target) (ss : List (Sample N D)) (rid : String)
      → (check_requirements (handle_all ss (arithmetic {N = N} {D = D} keywords target)) rid ≡ true)
        ↔ All
            (λ m.
              any (gives (arithmetic {N = N} {D = D} keywords target).escaped_names rid m) ss
              ≡ true)
            (arithmetic {N = N} {D = D} keywords target).required_meters
  unfolding check_requirements arithmetic Dict.get
  check_requirements_iff keywords target ss rid =
      let t : ArithmeticTransformer N D = arithmetic keywords target in
      let (unique, part) = handle_all-IsPartial ss t rid (tt, tt) in
      let required = t.required_meters in
      let there = keys (cached (handle_all ss t) rid) in
      let fixed = handle_all-required_meters ss t in
      let known : All (λ m. contains required m ≡ true) there =
        subst (λ l. All (λ m. contains l m ≡ true) there) fixed part in
      let counted =
        same_length_iff there required unique
          (set_of-IsUnique (map (λ entry. entry.1) t.escaped_names)) known in
      let size = length-keys (cached (handle_all ss t) rid) in
      let count : check_requirements (handle_all ss t) rid ≡ (length there == length required) =
        ap (λ n. n == length (handle_all ss t).required_meters) (sym size)
        ∙ ap (λ l. length there == length l) fixed in
      (
        λ complete. All-of required (λ m wanted.
            sym (handle_all-keys ss t rid m wanted)
            ∙ All-lookup (contains there) required m (counted.0 (sym count ∙ complete)) wanted),
        λ given.
            count
            ∙ counted.1 (
                All-of required (λ m wanted.
                  handle_all-keys ss t rid m wanted
                  ∙ All-lookup (λ n. any (gives t.escaped_names rid n) ss) required m given
                      wanted)),
      )
