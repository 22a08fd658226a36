-- ===== src/Publisher/Signature.antt =====
-- ceilometer/publisher/utils.py: signatures of messages. `hmac` is the hexadecimal HMAC-SHA256 of a
-- text under a secret: since `update` adds to what was hashed before, the texts are joined.
pub mod Verify
use Prim.Native.Char.{code}
use Prim.Native.String.{◌++◌ as concat}
use stx_ceilometer.Prelude.{
  ℕ, zero, suc, ◌+◌, ◌-◌, ◌*◌, ◌≤◌, ◌<◌, String, ◌≡◌, ◌≢◌, refl, sym, ap, ◌∙◌, subst, Bool, true,
  false, not, ◌&&◌, ◌||◌, ◌↔◌, ◌⊎◌, inl, inr, Option, none, some, List, [], ◌∷◌, ◌++◌, map,
  append-nil, append_assoc, arith, Result, ok, raise, Exception, ◌>>=◌, ◌>>◌, >>=-eq-ok,
  if◌then◌else◌, Bool-cases, Option-cases, ◌==◌, ==_iff, ==_refl, length, contains, All, IsUnique,
  string_eq, ltb, leb, any, all, filter, is_empty,
}
use stx_ceilometer.Prelude.{unicode_encode_error}
use stx_ceilometer.Sample.{Sample}
use stx_ceilometer.Utils.{
  Value, scalar, sequence, dict, Fields, end, field, get_field, put_field, recursive_keypairs,
}

abbrev pub signature_name : String
signature_name = "message_signature"

-- What the functions use of Python's values: the text of one, the value of a text, and the text
-- where a value is one.
pub record Texts (V : Type 0) : Type 0 where
  pub encode : V → V
  pub text : Value V → String
  pub of_string : String → V
  pub as_text : V → Option String

-- Every character is ASCII.
unfoldable pub is_ascii : String → Bool
is_ascii String.[] = true
is_ascii (String.◌∷◌ c s) = ltb (code c) 128 && is_ascii s

module _ {V : Type 0} (texts : Texts V) (hmac : String → String → String) where
  -- What is hashed of the pairs: names and values, without an existing signature.
  unfoldable pub signed_text : List (String × Value V) → String
  signed_text [] = ""
  signed_text ((name, v) ∷ pairs) =
      if name == signature_name
      then signed_text pairs
      else concat name (concat (texts.text v) (signed_text pairs))

  -- `compute_signature`
  unfoldable pub compute_signature : Fields V → String → String
  unfolding signed_text
  compute_signature message secret =
      if secret == ""
      then ""
      else hmac secret (signed_text (recursive_keypairs texts.encode message))

  -- The value that is compared: a text must be ASCII.
  old_signature : Value V → Result (Option String)
  unfolding is_ascii
  old_signature (sequence vs) = ok none
  old_signature (dict fs) = ok none
  old_signature (scalar v) = elim (texts.as_text v) [
    | none ↦ ok none
    | some t ↦ if is_ascii t then ok (some t) else raise unicode_encode_error
  ]

  -- `verify_signature`; what is no text is compared by `compare`.
  unfoldable pub verify_signature : (String → Value V → Bool) → Fields V → String → Result Bool
  unfolding compute_signature old_signature
  verify_signature compare message secret =
      let stored : Value V = elim (get_field message signature_name) [
        | none ↦ scalar (texts.of_string "")
        | some v ↦ v
      ] in
      if secret == ""
      then ok true
      else old_signature stored >>= λ old. ok (elim old [
        | none ↦ compare (compute_signature message secret) stored
        | some t ↦ compute_signature message secret == t
      ])

  -- `msg['message_signature'] = compute_signature(msg, secret)`
  unfoldable pub sign : Fields V → String → Fields V
  unfolding compute_signature
  sign message secret =
      put_field message signature_name (scalar (texts.of_string (compute_signature message secret)))

  -- `message_from_event`, of what `serialize` gives
  unfoldable pub message_from_event : Fields V → String → Fields V
  unfolding sign
  message_from_event serialized secret = sign serialized secret

  abbrev optional : V → Option String → Value V
  optional nothing none = scalar nothing
  optional nothing (some s) = scalar (texts.of_string s)

  -- `meter_message_from_counter`, with `None` and `sample.id`
  unfoldable pub meter_message_from_counter : V → String → Sample V (Value V) → String → Fields V
  unfolding sign
  meter_message_from_counter nothing id s secret =
      let string : String → Value V = λ t. scalar (texts.of_string t) in
      sign
        (field "source" (string s.source) (
          field "counter_name" (string s.name) (
            field "counter_type" (string s.type) (
              field "counter_unit" (string s.unit) (
                field "counter_volume" (scalar s.volume) (
                  field "user_id" (optional nothing s.user_id) (
                    field "project_id" (optional nothing s.project_id) (
                      field "resource_id" (string s.resource_id) (
                        field "timestamp" (string s.timestamp) (
                          field "resource_metadata" s.resource_metadata (
                            field "message_id" (string id) (
                              field "monotonic_time"
                                (elim s.monotonic_time [
                                  | none ↦ scalar nothing
                                  | some t ↦ scalar t
                                ])
                                end))))))))))))
        secret
