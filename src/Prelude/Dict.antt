-- ===== src/Prelude/Dict.antt =====
-- Python's `dict` as an association list in the order of first insertion.
use mathlib.Core.Path.{◌≡◌, refl}
use mathlib.Core.Option.{Option, none, some}
use mathlib.Core.List.{List, [], ◌∷◌, map}
use native.Mathlib.Omega.{arith}
use mathlib.Core.Path.{sym, subst}
use mathlib.Core.Logic.{inl, inr}
use stx_ceilometer.Prelude.Lists.{All}
use stx_ceilometer.Prelude.Tests.{Bool-cases, Eq, ◌==◌, ==_iff, if◌then◌else◌}

module _ {ℓ κ} {K : Type ℓ} {V : Type κ} ⦃e : Eq K⦄ where
  -- `d.get(k)`
  unfoldable pub get : List (K × V) → K → Option V
  get [] k = none
  get ((j, v) ∷ d) k = if j == k then some v else get d k

  -- `d[k] = v`
  unfoldable pub put : List (K × V) → K → V → List (K × V)
  put [] k v = (k, v) ∷ []
  put ((j, w) ∷ d) k v = if j == k then (j, v) ∷ d else (j, w) ∷ put d k v

  -- `d.pop(k)`, for a dict that holds each key once
  unfoldable pub remove : List (K × V) → K → List (K × V)
  remove [] k = []
  remove ((j, w) ∷ d) k = if j == k then remove d k else (j, w) ∷ remove d k

  pub get-put :
      (d : List (K × V)) (k j : K) (v : V)
      → get (put d k v) j ≡ (if k == j then some v else get d j)
  unfolding get put
  get-put [] k j v = refl
  get-put ((i, w) ∷ d) k j v = ground (arith, ==_iff i k, ==_iff i j, ==_iff k j, get-put d k j v)

  pub get-remove :
      (d : List (K × V)) (k j : K) → get (remove d k) j ≡ (if k == j then none else get d j)
  unfolding get remove
  get-remove [] k j = ground arith
  get-remove ((i, w) ∷ d) k j = ground (arith, ==_iff i k, ==_iff i j, ==_iff k j, get-remove d k j)

  -- A property of the entries of a dict survives a write that has it.
  pub All-put {μ} :
      (P : K × V → Type μ) (d : List (K × V)) (k : K) (v : V)
      → All P d
      → P (k, v)
      → All P (put d k v)
  unfolding put
  All-put P [] k v h p = (p, tt)
  All-put P ((j, w) ∷ d) k v h p = elim (Bool-cases (j == k)) [
    | inl same ↦ let e = (==_iff j k).0 same in rw same (subst (λ i. P (i, v)) (sym e) p, h.1)
    | inr other ↦ rw other (h.0, All-put P d k v h.1 p)
  ]

  pub All-get {μ} :
      (P : K × V → Type μ) (d : List (K × V)) (k : K) (v : V)
      → All P d
      → get d k ≡ some v
      → P (k, v)
  unfolding get
  All-get P [] k v h e = cc
  All-get P ((j, w) ∷ d) k v h e = elim (Bool-cases (j == k)) [
    | inl same ↦
        let key = (==_iff j k).0 same in
        let value : w ≡ v = ground arith in
        subst (λ x. P (k, x)) value (subst (λ i. P (i, w)) key h.0)
    | inr other ↦ All-get P d k v h.1 (ground arith)
  ]

-- A dict whose values are changed.
pub get-map {ℓ κ μ} :
    {K : Type ℓ} {V : Type κ} {W : Type μ} ⦃e : Eq K⦄ (f : V → W) (d : List (K × V)) (k : K) {v : V}
    → get d k ≡ some v
    → get (map (λ x. (x.0, f x.1)) d) k ≡ some (f v)
unfolding get
get-map f [] k {v} h = cc
get-map f ((j, w) ∷ d) k {v} h = elim (Bool-cases (j == k)) [
  | inl same ↦ ground arith
  | inr other ↦ let found : get d k ≡ some v = ground arith in rw other (get-map f d k found)
]
