-- ===== src/Api/ComplexQuery/Traversal.antt =====
-- What a traversal of a filter of ceilometer/api/controllers/v2/query.py keeps, and what filters select.
use stx_ceilometer.Prelude.{
  String, ◌≡◌, refl, sym, ap, ◌∙◌, subst, Bool, true, false, not, ◌&&◌, ◌||◌, Option, none, some,
  Result, ok, >>=-eq-ok, if◌then◌else◌, ◌==◌, string_eq, ok-injective,
}
use stx_ceilometer.Utils.{lower}
use stx_ceilometer.Api.ComplexQuery.{
  Operand, Filter, junction, negation, leaf, Filters, end, operand, traverse_postorder,
  traverse_operands, with_operator,
}

module _ {V : Type 0} where
  -- What the fields and values of all comparisons of a filter satisfy.
  unfoldable mutual
    pub Every : (String → Operand V → Type 0) → Filter V → Type 0
    Every P (junction op fs) = Each P fs
    Every P (negation op f) = Every P f
    Every P (leaf op field value) = P field value

    pub Each : (String → Operand V → Type 0) → Filters V → Type 0
    Each P end = Unit {0}
    Each P (operand f fs) = Every P f × Each P fs

  -- Rows that a filter selects, for the comparisons that hold of a row.
  unfoldable mutual
    pub selects : (String → String → Operand V → Bool) → Filter V → Bool
    selects holds (junction op fs) =
        let each = selects_all holds fs in
        let some_one = selects_any holds fs in if lower op == "and" then each else some_one
    selects holds (negation op f) = not (selects holds f)
    selects holds (leaf op field value) = holds op field value

    pub selects_all : (String → String → Operand V → Bool) → Filters V → Bool
    selects_all holds end = true
    selects_all holds (operand f fs) = selects holds f && selects_all holds fs

    pub selects_any : (String → String → Operand V → Bool) → Filters V → Bool
    selects_any holds end = false
    selects_any holds (operand f fs) = selects holds f || selects_any holds fs

  -- No filter selects all rows.
  abbrev pub selects_given : (String → String → Operand V → Bool) → Option (Filter V) → Bool
  selects_given holds none = true
  selects_given holds (some f) = selects holds f

  mutual
    unfolding Every

    pub Every-trivial : (f : Filter V) → Every (λ field value. Unit {0}) f
    Every-trivial (junction op fs) = Each-trivial fs
    Every-trivial (negation op f) = Every-trivial f
    Every-trivial (leaf op field value) = tt

    pub Each-trivial : (fs : Filters V) → Each (λ field value. Unit {0}) fs
    Each-trivial end = tt
    Each-trivial (operand f fs) = (Every-trivial f, Each-trivial fs)

  pub Every-with_operator :
      (P : String → Operand V → Type 0) (op : String) (f : Filter V)
      → Every P (with_operator op f)
      → Every P f
  unfolding Every
  Every-with_operator P op (junction o fs) h = h
  Every-with_operator P op (negation o f) h = h
  Every-with_operator P op (leaf o field value) h = h

  -- A visitor whose result satisfies P on each node only if the node satisfies Q.
  module _ (P Q : String → Operand V → Type 0) (visitor : Filter V → Result (Filter V))
      (at_leaf : (op field : String) (value : Operand V) (g : Filter V)
        → visitor (leaf op field value) ≡ ok g
        → Every P g
        → Q field value)
      (at_negation : (op : String) (f g : Filter V)
        → visitor (negation op f) ≡ ok g
        → Every P g
        → Every P f)
      (at_junction : (op : String) (fs : Filters V) (g : Filter V)
        → visitor (junction op fs) ≡ ok g
        → Every P g
        → Each P fs) where
    mutual
      unfolding traverse_postorder Every

      pub Every-traverse_postorder :
          (f g : Filter V) → traverse_postorder visitor f ≡ ok g → Every P g → Every Q f
      Every-traverse_postorder (junction op fs) g made h =
          let (fs', below, here) =
            >>=-eq-ok (traverse_operands visitor fs) (λ r. visitor (junction op r)) made in
          Each-traverse_operands fs fs' below (at_junction op fs' g here h)
      Every-traverse_postorder (negation op f) g made h =
          let (f', below, here) =
            >>=-eq-ok (traverse_postorder visitor f) (λ r. visitor (negation op r)) made in
          Every-traverse_postorder f f' below (at_negation op f' g here h)
      Every-traverse_postorder (leaf op field value) g made h = at_leaf op field value g made h

      Each-traverse_operands :
          (fs gs : Filters V) → traverse_operands visitor fs ≡ ok gs → Each P gs → Each Q fs
      Each-traverse_operands end gs made h = tt
      Each-traverse_operands (operand f fs) gs made h =
          let (f', first, made') = >>=-eq-ok (traverse_postorder visitor f) _ made in
          let (fs', rest, made'') = >>=-eq-ok (traverse_operands visitor fs) _ made' in
          let (here, there) = subst (Each P) (sym (ok-injective made'')) h in
          (Every-traverse_postorder f f' first here, Each-traverse_operands fs fs' rest there)

  -- A visitor that changes nothing.
  module _ (visitor : Filter V → Result (Filter V))
      (keeps : (f g : Filter V) → visitor f ≡ ok g → g ≡ f) where
    mutual
      unfolding traverse_postorder Every

      pub traverse_postorder_same : (f g : Filter V) → traverse_postorder visitor f ≡ ok g → g ≡ f
      traverse_postorder_same (junction op fs) g made =
          let (fs', below, here) =
            >>=-eq-ok (traverse_operands visitor fs) (λ r. visitor (junction op r)) made in
          keeps (junction op fs') g here ∙ ap (junction op) (traverse_operands_same fs fs' below)
      traverse_postorder_same (negation op f) g made =
          let (f', below, here) =
            >>=-eq-ok (traverse_postorder visitor f) (λ r. visitor (negation op r)) made in
          keeps (negation op f') g here ∙ ap (negation op) (traverse_postorder_same f f' below)
      traverse_postorder_same (leaf op field value) g made = keeps (leaf op field value) g made

      traverse_operands_same : (fs gs : Filters V) → traverse_operands visitor fs ≡ ok gs → gs ≡ fs
      traverse_operands_same end gs made = sym (ok-injective made)
      traverse_operands_same (operand f fs) gs made =
          let (f', first, made') = >>=-eq-ok (traverse_postorder visitor f) _ made in
          let (fs', rest, made'') = >>=-eq-ok (traverse_operands visitor fs) _ made' in
          let one = traverse_postorder_same f f' first in
          let others = traverse_operands_same fs fs' rest in
          sym (ok-injective made'') ∙ rw (one, others) refl
