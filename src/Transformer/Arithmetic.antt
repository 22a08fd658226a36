-- ===== src/Transformer/Arithmetic.antt =====
-- ceilometer/transformer/arithmetic.py: `ArithmeticTransformer`. An expression is the list of the
-- pieces that `meter_name_re` cuts it into. The keywords of Python, eval, and the test for NaN with
-- float are parameters.
pub mod Complete
use Prim.Native.Char.{code}
use Prim.Native.String.{◌++◌ as concat}
use text.Mathlib.Text.{starts_with}
use stx_ceilometer.Prelude.{
  or_else, ℕ, zero, suc, ◌+◌, ◌-◌, ◌*◌, ◌≤◌, ◌<◌, String, ◌≡◌, ◌≢◌, refl, sym, ap, ◌∙◌, subst, Bool,
  true, false, not, ◌&&◌, ◌||◌, ◌↔◌, ◌⊎◌, inl, inr, Option, none, some, List, [], ◌∷◌, ◌++◌, map,
  append-nil, append_assoc, arith, Result, ok, raise, Exception, ◌>>=◌, ◌>>◌, >>=-eq-ok,
  if◌then◌else◌, Bool-cases, Option-cases, ◌==◌, ==_iff, ==_refl, length, contains, All, IsUnique,
  string_eq, nat_eq, ltb, leb, any, all, filter, is_empty,
}
use stx_ceilometer.Prelude.{key_error, require}
use stx_ceilometer.Prelude.Dict
use stx_ceilometer.Sample.{Sample, derive}

-- Text, or the name of a meter in `$(…)`.
pub data Piece : Type 0 where
  plain_text : String → Piece
  meter_name : String → Piece

unfoldable pub has_dot : String → Bool
has_dot String.[] = false
has_dot (String.◌∷◌ c s) = code c == 46 || has_dot s

-- `name.replace('.', '_')`
unfoldable pub replace_dot : String → String
replace_dot String.[] = String.[]
replace_dot (String.◌∷◌ c s) =
    if code c == 46 then concat "_" (replace_dot s) else String.◌∷◌ c (replace_dot s)

unfoldable pub ends_with : String → String → Bool
ends_with String.[] t = String.[] == t
ends_with (String.◌∷◌ c s) t = String.◌∷◌ c s == t || ends_with s t

-- `Replacer.escape`
unfoldable pub escape : List String → String → String
unfolding has_dot replace_dot ends_with
escape keywords name =
    let plain = replace_dot name in
    if has_dot name || ends_with plain "ESC" || contains keywords plain
    then concat "_" (concat plain "_ESC")
    else plain

-- The pieces that follow start with a parameter access.
abbrev accesses : List Piece → Bool
accesses [] = false
accesses (plain_text s ∷ rest) = starts_with s "."
accesses (meter_name name ∷ rest) = false

-- `parse_expr`: the escaped expression.
unfoldable pub escaped_expr : List String → List Piece → String
unfolding escape
escaped_expr keywords [] = ""
escaped_expr keywords (plain_text s ∷ rest) = concat s (escaped_expr keywords rest)
escaped_expr keywords (meter_name name ∷ rest) =
    let later = escaped_expr keywords rest in
    concat (escape keywords name) (if accesses rest then later else concat ".volume" later)

-- `parse_expr`: the escaped names of the meters.
unfoldable pub escaped_map :
    List String → List (String × String) → List Piece → List (String × String)
unfolding escape
escaped_map keywords names [] = names
escaped_map keywords names (plain_text s ∷ rest) = escaped_map keywords names rest
escaped_map keywords names (meter_name name ∷ rest) =
    escaped_map keywords (Dict.put names name (escape keywords name)) rest

-- `set(xs)`
unfoldable pub set_of : List String → List String
set_of [] = []
set_of (x ∷ xs) = let rest = set_of xs in if contains rest x then rest else x ∷ rest

pub record Target : Type 0 where
  pub expr : List Piece
  pub name : Option String
  pub unit : Option String
  pub type : Option String

abbrev pub Cache : (N D : Type 0) → Type 0
Cache N D = List (String × List (String × Sample N D))

-- `latest_timestamp` is set whenever the cache holds a sample; "" stands for None before.
pub record ArithmeticTransformer (N D : Type 0) : Type 0 where
  pub target : Target
  pub expr_escaped : String
  pub escaped_names : List (String × String)
  pub required_meters : List String
  pub reference_meter : Option String
  pub cache : Cache N D
  pub latest_timestamp : String

abbrev first_of : List String → Option String
first_of [] = none
first_of (x ∷ xs) = some x

-- `__init__`: without a meter there is no reference.
unfoldable pub arithmetic : {N D : Type 0} → List String → Target → ArithmeticTransformer N D
unfolding escaped_expr escaped_map set_of
arithmetic keywords target =
    let names = escaped_map keywords [] target.expr in
    let meters = map (λ entry. entry.1) names in
    record {
      target = target;
      expr_escaped = escaped_expr keywords target.expr;
      escaped_names = names;
      required_meters = set_of meters;
      reference_meter = first_of meters;
      cache = [];
      latest_timestamp = "";
    }

module _ {N D : Type 0} where
  -- The cached samples of a resource, of which a `defaultdict` holds none at first.
  abbrev pub cached : ArithmeticTransformer N D → String → List (String × Sample N D)
  cached t rid = or_else (Dict.get t.cache rid) []

  -- `_update_cache`
  unfoldable pub update_cache : Sample N D → ArithmeticTransformer N D → ArithmeticTransformer N D
  update_cache s t =
      let name = or_else (Dict.get t.escaped_names s.name) "" in
      if contains t.required_meters name
      then record t {
        cache = Dict.put t.cache s.resource_id (Dict.put (cached t s.resource_id) name s);
      }
      else t

  -- `handle_sample`, which returns nothing.
  unfoldable pub handle_sample : Sample N D → ArithmeticTransformer N D → ArithmeticTransformer N D
  unfolding update_cache
  handle_sample s t = record (update_cache s t) { latest_timestamp = s.timestamp }

  -- `_check_requirements`, which `flush` calls only for a transformer with meters; without any the
  -- source has no cache.
  unfoldable pub check_requirements : ArithmeticTransformer N D → String → Bool
  check_requirements t rid = length (cached t rid) == length t.required_meters

  module _ (eval : String → List (String × Sample N D) → Result N) (checked : N → Result N)
      (source_default : String) where
    -- `_calculate`: an exception gives None.
    abbrev try_calculate : ArithmeticTransformer N D → String → Result (Sample N D)
    try_calculate t rid = do
      volume ← eval t.expr_escaped (cached t rid)
      number ← checked volume
      meter ← require key_error t.reference_meter
      reference ← require key_error (Dict.get (cached t rid) meter)
      ok (
          derive source_default (or_else t.target.name reference.name)
            (or_else t.target.type reference.type) (or_else t.target.unit reference.unit) number
            (record reference { timestamp = t.latest_timestamp }))

    unfoldable pub calculate : ArithmeticTransformer N D → String → Option (Sample N D)
    calculate t rid = elim (try_calculate t rid) [ ok s ↦ some s | raise e ↦ none ]

    -- The loop of `flush` over a copy of the cache.
    unfoldable pub flush_resources :
        List String
        → ArithmeticTransformer N D
        → List (Option (Sample N D)) × ArithmeticTransformer N D
    unfolding check_requirements calculate
    flush_resources [] t = ([], t)
    flush_resources (rid ∷ rids) t =
        if check_requirements t rid
        then (let (samples, t') =
              flush_resources rids (record t { cache = Dict.remove t.cache rid }) in
            (calculate t rid ∷ samples, t'))
        else flush_resources rids t

    unfoldable pub flush :
        ArithmeticTransformer N D → List (Option (Sample N D)) × ArithmeticTransformer N D
    unfolding flush_resources
    flush t =
        if is_empty t.required_meters
        then ([], t)
        else flush_resources (map (λ entry. entry.0) t.cache) t
