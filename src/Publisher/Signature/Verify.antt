-- ===== src/Publisher/Signature/Verify.antt =====
-- Signed messages of ceilometer/publisher/utils.py are accepted.
use mathlib.Core.List.{flatten}
use stx_ceilometer.Prelude.{
  String, ◌≡◌, refl, ap, ◌∙◌, Bool, true, false, not, inl, inr, none, some, List, [], ◌∷◌, ◌++◌,
  map, arith, ok, if◌then◌else◌, Bool-cases, ◌==◌, ==_iff, ==_refl, All, string_eq, filter,
}
use stx_ceilometer.Prelude.Sorting.{
  insert_sorted, str_le, IsSorted, insert_sorted-IsSorted, filter-insert_sorted,
}
use stx_ceilometer.Utils.{
  Value, scalar, Fields, end, field, get_field, put_field, keypairs_of, groups, recursive_keypairs,
}
use stx_ceilometer.Publisher.Signature.{
  Texts, signature_name, is_ascii, signed_text, compute_signature, old_signature, verify_signature,
  sign,
}

module _ {V : Type 0} (texts : Texts V) (hmac : String → String → String) where
  abbrev Group : Type 0
  Group = String × List (String × Value V)

  -- The pairs of the items of a dict, one group for each item.
  abbrev all_pairs : List Group → List (String × Value V)
  all_pairs gs = flatten (map (λ group. group.1) gs)

  abbrev is_other : Group → Bool
  is_other g = not (g.0 == signature_name)

  -- A group of the name of signatures holds one pair, which is the signature.
  abbrev IsSigned : Group → Type 0
  IsSigned g = (v : Value V) × (g.0 ≡ signature_name → g.1 ≡ (signature_name, v) ∷ [])

  signed_text-append :
      (ps qs rs : List (String × Value V))
      → signed_text texts hmac qs ≡ signed_text texts hmac rs
      → signed_text texts hmac (ps ++ qs) ≡ signed_text texts hmac (ps ++ rs)
  unfolding signed_text
  signed_text-append [] qs rs h = h
  signed_text-append ((name, v) ∷ ps) qs rs h =
      let later = signed_text-append ps qs rs h in ground arith

  signed_text-others :
      (gs : List Group)
      → All IsSigned gs
      → signed_text texts hmac (all_pairs gs)
        ≡ signed_text texts hmac (all_pairs (filter is_other gs))
  unfolding signed_text flatten
  signed_text-others [] h = refl
  signed_text-others ((name, ps) ∷ gs) ((v, only), h) =
      let later = signed_text-others gs h in
      elim (Bool-cases (name == signature_name)) [
        | inl own ↦
            let here : ps ≡ (signature_name, v) ∷ [] = only ((==_iff name signature_name).0 own) in
            rw own (ap (λ l. signed_text texts hmac (l ++ all_pairs gs)) here ∙ later)
        | inr other ↦
            rw other (signed_text-append ps (all_pairs gs) (all_pairs (filter is_other gs)) later)
      ]

  abbrev name_of : Group → String
  name_of g = g.0

  groups-IsSorted : (fs : Fields V) → IsSorted name_of (groups texts.encode fs)
  unfolding groups
  groups-IsSorted end = tt
  groups-IsSorted (field k v fs) =
      insert_sorted-IsSorted name_of (k, keypairs_of texts.encode k v) (groups texts.encode fs)
        (groups-IsSorted fs)

  All-insert_sorted :
      (P : Group → Type 0) (g : Group) (gs : List Group)
      → P g
      → All P gs
      → All P (insert_sorted name_of g gs)
  unfolding insert_sorted
  All-insert_sorted P g [] own h = (own, tt)
  All-insert_sorted P g (x ∷ xs) own h = elim (Bool-cases (str_le (name_of g) (name_of x))) [
    | inl first ↦ rw first (own, h)
    | inr later ↦ rw later (h.0, All-insert_sorted P g xs own h.1)
  ]

  -- Writing a signature adds its group, and no other.
  groups-put_field :
      (fs : Fields V) (v : V)
      → get_field fs signature_name ≡ none
      → (filter is_other (groups texts.encode (put_field fs signature_name (scalar v)))
          ≡ groups texts.encode fs)
        × All IsSigned (groups texts.encode (put_field fs signature_name (scalar v)))
  unfolding groups keypairs_of get_field put_field insert_sorted
  groups-put_field end v h = (refl, ((scalar v, λ e. refl), tt))
  groups-put_field (field k w fs) v h = elim (Bool-cases (k == signature_name)) [
    | inl own ↦ ground arith
    | inr other ↦
        let absent : get_field fs signature_name ≡ none = ground arith in
        let (rest, signed) = groups-put_field fs v absent in
        let g : Group = (k, keypairs_of texts.encode k w) in
        let gs = groups texts.encode (put_field fs signature_name (scalar v)) in
        let kept : is_other g ≡ true = ground arith in
        let sorted_groups = groups-IsSorted (put_field fs signature_name (scalar v)) in
        rw other (
          filter-insert_sorted name_of is_other g gs kept sorted_groups
              ∙ ap (insert_sorted name_of g) rest,
          All-insert_sorted IsSigned g gs (w, λ e. let equal = (==_iff k signature_name).1 e in cc)
              signed,
        )
  ]

  -- A signature is not part of what is signed.
  compute_signature-put_field :
      (message : Fields V) (secret : String) (v : V)
      → get_field message signature_name ≡ none
      → compute_signature texts hmac (put_field message signature_name (scalar v)) secret
        ≡ compute_signature texts hmac message secret
  unfolding compute_signature recursive_keypairs
  compute_signature-put_field message secret v h =
      let (rest, signed) = groups-put_field message v h in
      let gs = groups texts.encode (put_field message signature_name (scalar v)) in
      let same : signed_text texts hmac (all_pairs gs)
          ≡ signed_text texts hmac (all_pairs (groups texts.encode message)) =
        signed_text-others gs signed ∙ ap (λ l. signed_text texts hmac (all_pairs l)) rest in
      ap (λ t. if secret == "" then "" else hmac secret t) same

  get_field-put_field :
      (fs : Fields V) (k : String) (v : Value V) → get_field (put_field fs k v) k ≡ some v
  unfolding get_field put_field
  get_field-put_field end k v = let same = ==_refl k in ground arith
  get_field-put_field (field j w fs) k v = let rest = get_field-put_field fs k v in ground arith

  compute_signature-ascii :
      (message : Fields V) (secret : String)
      → ((s t : String) → is_ascii (hmac s t) ≡ true)
      → (secret == "") ≡ false
      → is_ascii (compute_signature texts hmac message secret) ≡ true
  unfolding compute_signature
  compute_signature-ascii message secret ascii set =
      rw set (ascii secret (signed_text texts hmac (recursive_keypairs texts.encode message)))

  old_signature-text :
      (t : String)
      → texts.as_text (texts.of_string t) ≡ some t
      → is_ascii t ≡ true
      → old_signature texts hmac (scalar (texts.of_string t)) ≡ ok (some t)
  unfolding old_signature
  old_signature-text t back ascii = ground arith

  -- What is verified of a stored text.
  verify_signature-stored :
      (compare : String → Value V → Bool) (message : Fields V) (secret : String) (v : Value V)
      (t : String)
      → (secret == "") ≡ false
      → get_field message signature_name ≡ some v
      → old_signature texts hmac v ≡ ok (some t)
      → verify_signature texts hmac compare message secret
        ≡ ok (compute_signature texts hmac message secret == t)
  unfolding verify_signature
  verify_signature-stored compare message secret v t set stored old = ground arith

  -- A message without a signature, once signed, is accepted under the same secret, be it empty or
  -- not, where the digest is ASCII and a text that was made a value is read back.
  pub sign-verify_signature :
      (compare : String → Value V → Bool) (message : Fields V) (secret : String)
      → ((s t : String) → is_ascii (hmac s t) ≡ true)
      → ((s : String) → texts.as_text (texts.of_string s) ≡ some s)
      → get_field message signature_name ≡ none
      → verify_signature texts hmac compare (sign texts hmac message secret) secret ≡ ok true
  unfolding verify_signature sign
  sign-verify_signature compare message secret ascii reads h =
      let digest = compute_signature texts hmac message secret in
      let signed = put_field message signature_name (scalar (texts.of_string digest)) in
      let stored = get_field-put_field message signature_name (scalar (texts.of_string digest)) in
      let same = compute_signature-put_field message secret (texts.of_string digest) h in
      let back = reads digest in
      elim (Bool-cases (secret == "")) [
        | inl empty ↦ rw empty refl
        | inr set ↦
            let ascii_digest = compute_signature-ascii message secret ascii set in
            verify_signature-stored compare signed secret (scalar (texts.of_string digest)) digest
              set stored (old_signature-text digest back ascii_digest)
            ∙ ap (λ t. ok (t == digest)) same
            ∙ ap ok (==_refl digest)
      ]
