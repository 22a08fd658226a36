-- ===== src/Publisher/CsvFile/Rows.antt =====
-- ceilometer/publisher/csvfile.py: the cells of a sample's row. The text of a value is a parameter.
use Prim.Native.String.{◌++◌ as concat}
use stx_ceilometer.Prelude.{
  ℕ, suc, ◌+◌, String, ◌≡◌, refl, Option, none, some, List, [], ◌∷◌, ◌++◌, map, arith,
  if◌then◌else◌, ◌==◌, length, string_eq, length-append,
}
use stx_ceilometer.Prelude.Dict

mutual
  -- A value of metadata: None, a dict, or another value.
  pub data Value (V : Type 0) : Type 0 where
    nothing : Value V
    scalar : V → Value V
    dict : Fields V → Value V

  pub data Fields (V : Type 0) : Type 0 where
    end : Fields V
    field : String → Value V → Fields V → Fields V

abbrev pub ordered_keys : List String
ordered_keys =
    "project_id" ∷ "user_id" ∷ "name" ∷ "resource_id" ∷ "timestamp" ∷ "volume" ∷ "unit" ∷ "type"
    ∷ "source" ∷ "id" ∷ []

module _ {V : Type 0} (text : Value V → String) where
  -- `aggregate(k, v)`: nothing is written for None.
  unfoldable pub aggregate : String → Value V → String
  aggregate k nothing = concat k (concat "::" "")
  aggregate k v = concat k (concat "::" (text v))

  abbrev pub nested_key : String → String → String
  nested_key prefix k = if prefix == "" then k else concat prefix (concat "__" k)

  -- `convert_to_list(some_dict, prefix)`
  unfoldable mutual
    pub convert_to_list : Fields V → String → List String
    convert_to_list end prefix = []
    convert_to_list (field k v fs) prefix =
        convert_value v (nested_key prefix k) ++ convert_to_list fs prefix

    pub convert_value : Value V → String → List String
    convert_value (dict fs) key = convert_to_list fs key
    convert_value nothing key = aggregate key nothing ∷ []
    convert_value (scalar v) key = aggregate key (scalar v) ∷ []

  -- The dict of a sample: its attributes, and its metadata, where they are not None.
  unfoldable pub convert_to_ordered_list : List (String × Value V) → Option (Fields V) → List String
  unfolding convert_to_list
  convert_to_ordered_list attributes metadata =
      map (λ k. aggregate k (elim (Dict.get attributes k) [ none ↦ nothing | some v ↦ v ]))
        ordered_keys
      ++ elim metadata [ none ↦ [] | some fs ↦ convert_to_list fs "resource_metadata" ]

  -- The leaves of nested dicts.
  unfoldable pub leaves : Fields V → ℕ
  leaves end = 0
  leaves (field k nothing fs) = suc (leaves fs)
  leaves (field k (scalar v) fs) = suc (leaves fs)
  leaves (field k (dict gs) fs) = leaves gs + leaves fs

  length-convert_to_list :
      (fs : Fields V) (prefix : String) → length (convert_to_list fs prefix) ≡ leaves fs
  unfolding leaves convert_to_list
  length-convert_to_list end prefix = refl
  length-convert_to_list (field k nothing fs) prefix =
      omega (arith, length-convert_to_list fs prefix)
  length-convert_to_list (field k (scalar v) fs) prefix =
      omega (arith, length-convert_to_list fs prefix)
  length-convert_to_list (field k (dict gs) fs) prefix = omega (
    arith,
    length-append (convert_to_list gs (nested_key prefix k)) (convert_to_list fs prefix),
    length-convert_to_list gs (nested_key prefix k),
    length-convert_to_list fs prefix,
  )

  -- A row of a sample has ten cells, whatever the sample lacks, and one more for each leaf of its
  -- metadata.
  length-convert_to_ordered_list :
      (attributes : List (String × Value V)) (fs : Fields V)
      → length (convert_to_ordered_list attributes (some fs)) ≡ 10 + leaves fs
  unfolding convert_to_ordered_list
  length-convert_to_ordered_list attributes fs =
      omega (arith, length-convert_to_list fs "resource_metadata")
