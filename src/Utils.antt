-- ===== src/Utils.antt =====
-- ceilometer/utils.py: nested dicts as lists of pairs. A dict is the list of its entries, and the
-- encoding of a text is a parameter.
use Prim.Native.Char.{code}
use Prim.Native.String.{◌++◌ as concat, slice}
use mathlib.Core.List.{flatten}
use stx_ceilometer.Prelude.{
  leb, ◌&&◌, ◌-◌, String, Option, none, some, List, [], ◌∷◌, map, if◌then◌else◌, ◌==◌, string_eq,
}
use stx_ceilometer.Prelude.Sorting.{str_le, insert_sorted}

-- `s.lower()`, of the letters of ASCII
unfoldable pub lower : String → String
lower String.[] = String.[]
lower (String.◌∷◌ c s) =
    let rest = lower s in
    if leb 65 (code c) && leb (code c) 90
    then concat (slice "abcdefghijklmnopqrstuvwxyz" (code c - 65) (code c - 64)) rest
    else String.◌∷◌ c rest

-- A value of a message: a dict, a tuple or list, or another value.
mutual
  pub data Value (V : Type 0) : Type 0 where
    scalar : V → Value V
    sequence : Values V → Value V
    dict : Fields V → Value V

  pub data Values (V : Type 0) : Type 0 where
    nil : Values V
    item : Value V → Values V → Values V

  pub data Fields (V : Type 0) : Type 0 where
    end : Fields V
    field : String → Value V → Fields V → Fields V

-- `d.get(k)`
unfoldable pub get_field : {V : Type 0} → Fields V → String → Option (Value V)
get_field end k = none
get_field (field j v fs) k = if j == k then some v else get_field fs k

-- `d[k] = v`
unfoldable pub put_field : {V : Type 0} → Fields V → String → Value V → Fields V
put_field end k v = field k v end
put_field (field j w fs) k v = if j == k then field j v fs else field j w (put_field fs k v)

-- One round of the loop over the sorted items of a dict.
abbrev insert_field : {V : Type 0} → String → Value V → Fields V → Fields V
insert_field k v end = field k v end
insert_field k v (field j w fs) =
    if str_le k j then field k v (field j w fs) else field j w (insert_field k v fs)

abbrev pub separator : String
separator = ":"

module _ {V : Type 0} (encode : V → V) where
  -- `decode_unicode`
  unfoldable mutual
    pub decode_value : Value V → Value V
    decode_value (scalar v) = scalar (encode v)
    decode_value (sequence vs) = sequence (decode_values vs)
    decode_value (dict fs) = dict (decode_fields fs)

    pub decode_values : Values V → Values V
    decode_values nil = nil
    decode_values (item v vs) = item (decode_value v) (decode_values vs)

    pub decode_fields : Fields V → Fields V
    decode_fields end = end
    decode_fields (field k v fs) = insert_field k (decode_value v) (decode_fields fs)

  -- What `recursive_keypairs` yields for the items of a dict, which it sorts by name.
  unfoldable mutual
    pub keypairs_of : String → Value V → List (String × Value V)
    keypairs_of name (scalar v) = (name, scalar v) ∷ []
    keypairs_of name (sequence vs) = (name, sequence (decode_values vs)) ∷ []
    keypairs_of name (dict fs) =
        map (λ pair. (concat name (concat separator pair.0), pair.1))
          (flatten (map (λ group. group.1) (groups fs)))

    pub groups : Fields V → List (String × List (String × Value V))
    groups end = []
    groups (field name v fs) =
        insert_sorted (λ group. group.0) (name, keypairs_of name v) (groups fs)

  -- `recursive_keypairs`
  unfoldable pub recursive_keypairs : Fields V → List (String × Value V)
  unfolding groups
  recursive_keypairs fs = flatten (map (λ group. group.1) (groups fs))
