-- ===== src/Publisher/Gnocchi/Posting/Cached.antt =====
-- When ceilometer/publisher/gnocchi.py updates a resource.
use stx_ceilometer.Prelude.{
  zero, suc, String, ◌≡◌, ◌≢◌, refl, ap, ◌∙◌, Bool, true, false, inl, inr, some, List, arith, ok,
  if◌then◌else◌, Bool-cases, ==_refl, string_eq, nat_eq,
}
use stx_ceilometer.Prelude.Int.{ℤ, pos, negsuc, int_beq}
use stx_ceilometer.Publisher.Gnocchi.Posting.{Client, differs, update_locked, if_not_cached}

int_beq_refl : (n : ℤ) → int_beq n n ≡ true
int_beq_refl (pos n) = ==_refl n
int_beq_refl (negsuc n) = ==_refl n

module _ {N V W : Type 0} (client : Client N V W) where
  differs-same : (h : ℤ) → h ≢ pos 0 → differs client (some h) h ≡ false
  differs-same (pos zero) nonzero = absurd (nonzero refl)
  differs-same (pos (suc n)) nonzero = rw (int_beq_refl (pos (suc n))) refl
  differs-same (negsuc n) nonzero = rw (int_beq_refl (negsuc n)) refl

  module _ (type rid : String) (extra : List (String × V))
      (quiet : (v : W) → (client.cache_get rid v).1 ≡ v)
      (reads : (v : W) (h : ℤ) → (client.cache_get rid (client.cache_set rid h v)).0 ≡ some h)
      (nonzero : client.hash extra ≢ pos 0) where
    -- What the cache says of the resource differs from the hash.
    abbrev is_stale : W → Bool
    is_stale w = differs client (client.cache_get rid w).0 (client.hash extra)

    locked_fresh :
        (w : W)
        → is_stale w ≡ false
        → update_locked client type rid extra (client.hash extra) w ≡ (ok tt, w)
    unfolding update_locked
    locked_fresh w fresh = ground (arith, quiet w)

    locked_stale :
        (w : W)
        → is_stale w ≡ true
        → (update_locked client type rid extra (client.hash extra) w).0 ≡ ok tt
        → (update_locked client type rid extra (client.hash extra) w).1
          ≡ client.cache_set rid
              (client.hash extra)
              (client.update type rid extra (client.cache_get rid w).1).1
    unfolding update_locked
    locked_stale w stale done = ground arith

    set_fresh : (w : W) → is_stale (client.cache_set rid (client.hash extra) w) ≡ false
    set_fresh w = rw (reads w (client.hash extra)) (differs-same (client.hash extra) nonzero)

    locked-settled :
        (w : W)
        → (update_locked client type rid extra (client.hash extra) w).0 ≡ ok tt
        → is_stale (update_locked client type rid extra (client.hash extra) w).1 ≡ false
    locked-settled w done = elim (Bool-cases (is_stale w)) [
      | inl stale ↦
          rw (locked_stale w stale done)
            (set_fresh (client.update type rid extra (client.cache_get rid w).1).1)
      | inr fresh ↦ rw (locked_fresh w fresh) fresh
    ]

    cached_lem :
        (w : W)
        → client.has_cache ≡ true
        → if_not_cached client type rid extra w ≡ (
            if is_stale w
            then update_locked client type rid extra (client.hash extra) w
            else (ok tt, w))
    unfolding if_not_cached
    cached_lem w cached = ground (arith, quiet w)

    settled :
        (w : W)
        → client.has_cache ≡ true
        → (if_not_cached client type rid extra w).0 ≡ ok tt
        → is_stale (if_not_cached client type rid extra w).1 ≡ false
    settled w cached done =
        let same = cached_lem w cached in
        let locked = locked-settled w in
        elim (Bool-cases (is_stale w)) [
          | inl stale ↦
              let here =
                same
                ∙ ap
                    (λ b.
                      if b
                      then update_locked client type rid extra (client.hash extra) w
                      else (ok tt, w))
                    stale in
              rw here (locked (rw here at done))
          | inr fresh ↦
              let here =
                same
                ∙ ap
                    (λ b.
                      if b
                      then update_locked client type rid extra (client.hash extra) w
                      else (ok tt, w))
                    fresh in
              rw here fresh
        ]

    -- With a cache that gives back what was written last, and that a read leaves alone, a resource
    -- for which `_if_not_cached` raised nothing is not updated again for attributes of the same
    -- hash, as long as that is not 0: a second call raises nothing and changes nothing.
    pub if_not_cached-again :
        (w : W)
        → client.has_cache ≡ true
        → (if_not_cached client type rid extra w).0 ≡ ok tt
        → if_not_cached client type rid extra (if_not_cached client type rid extra w).1
          ≡ (ok tt, (if_not_cached client type rid extra w).1)
    if_not_cached-again w cached done =
        let w' = (if_not_cached client type rid extra w).1 in
        cached_lem w' cached
        ∙ ap
            (λ b.
              if b then update_locked client type rid extra (client.hash extra) w' else (ok tt, w'))
            (settled w cached done)
