-- ===== src/Tests/Signatures.antt =====
-- Signatures of messages, with a digest that says whether anything was hashed.
use stx_ceilometer.Prelude.{
  String, ◌≡◌, refl, true, false, some, ok, string_eq, ◌==◌, if◌then◌else◌, Bool-cases, inl, inr,
  [], ◌∷◌,
}
use mathlib.Core.List.{flatten}
use stx_ceilometer.Prelude.Sorting.{insert_sorted}
use stx_ceilometer.Utils.{scalar, dict, Fields, end, field, get_field, recursive_keypairs, groups}
use stx_ceilometer.Publisher.Signature.{Texts, is_ascii, sign, verify_signature}
use stx_ceilometer.Publisher.Signature.Verify.{sign-verify_signature}

abbrev texts : Texts String
texts = record { encode = λ s. s; text = λ v. "x"; of_string = λ s. s; as_text = λ s. some s }

abbrev hmac : String → String → String
hmac secret t = if t == "" then "00" else "ff"

hmac_ascii : (s t : String) → is_ascii (hmac s t) ≡ true
unfolding is_ascii
hmac_ascii s t = elim (Bool-cases (t == "")) [
  | inl empty ↦ rw empty refl
  | inr filled ↦ rw filled refl
]

abbrev message : Fields String
message = field "name" (scalar "cpu") (field "metadata" (dict (field "host" (scalar "a") end)) end)

sign-verify_signature_example :
    verify_signature texts hmac (λ s v. false) (sign texts hmac message "secret") "secret" ≡ ok true
unfolding get_field
sign-verify_signature_example =
    sign-verify_signature texts hmac (λ s v. false) message "secret" hmac_ascii (λ s. refl) refl

-- The pairs of a message are sorted by name.
pairs_sorted :
    recursive_keypairs (λ s. s) message
    ≡ ("metadata:host", scalar "a") ∷ ("name", scalar "cpu") ∷ []
unfolding recursive_keypairs groups insert_sorted flatten
pairs_sorted = refl
