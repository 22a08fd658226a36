-- ===== src/Agent/Polling/Dedupe.antt =====
-- Which candidates a pollster of ceilometer/agent/manager.py polls.
use stx_ceilometer.Prelude.{
  ◌≡◌, refl, not, ◌&&◌, ◌||◌, List, [], ◌∷◌, ◌++◌, arith, ==_iff, contains, IsUnique, string_eq,
}
use stx_ceilometer.Prelude.{Eq, contains-append}
use stx_ceilometer.Agent.Polling.{select}

module _ {R : Type 0} ⦃e : Eq R⦄ where
  pub select-history :
      (black xs history : List R) (r : R)
      → contains (select black history xs).1 r ≡ (contains history r || contains xs r)
  unfolding select
  select-history black [] history r = ground arith
  select-history black (x ∷ xs) history r = ground (
    arith,
    select-history black xs history r,
    select-history black xs (history ++ x ∷ []) r,
    contains-append history (x ∷ []) r,
    ==_iff x r,
  )

  -- A resource is polled just if it is among the candidates, and is neither in the history nor in the
  -- blacklist.
  pub select-contains :
      (black xs history : List R) (r : R)
      → contains (select black history xs).0 r
        ≡ (contains xs r && not (contains history r || contains black r))
  unfolding select
  select-contains black [] history r = refl
  select-contains black (x ∷ xs) history r = ground (
    arith,
    select-contains black xs history r,
    select-contains black xs (history ++ x ∷ []) r,
    contains-append history (x ∷ []) r,
    ==_iff x r,
  )

  pub select-IsUnique : (black xs history : List R) → IsUnique (select black history xs).0
  unfolding select
  select-IsUnique black [] history = tt
  select-IsUnique black (x ∷ xs) history = ground (
    arith,
    select-IsUnique black xs history,
    select-IsUnique black xs (history ++ x ∷ []),
    select-contains black xs (history ++ x ∷ []) x,
    contains-append history (x ∷ []) x,
    ==_iff x x,
  )
