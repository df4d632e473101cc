-- ===== src/Uplink/Pool/Ownership.antt =====
-- Who holds a connection: the pool moves connections, and never makes a second one of one.
use storj_uplink.Uplink.Pool.{
  Slot, Idle, Inner, Checkout, reuse, dial, wait, get, pop_loop, pop_idle, evict_one_idle,
  checkout_action, drop_slot, drop_pooled, new_inner,
}
use storj_uplink.Uplink.Pool.Idle.{weight, found_weight, pop_idle-weight, weight-push_idle}
use storj_uplink.Uplink.Pool.Steps.{
  Pooled, State, Run, started, reused, dial_started, waited, dial_succeeded, dial_dropped,
  skipped_recycle, dropped, held_dropped, drop_held,
}
use storj_uplink.Common.{
  ℕ, ◌+◌, ◌-◌, ◌≤◌, ◌<◌, ◌≡◌, inl, inr, refl, ap, arith, Bool, true, false, List, [], ◌∷◌, ◌++◌,
  Option, some, ltb, leb, ltb→lt, Bool-cases, Option-cases, All,
}

abbrev pub sum : {A : Type 0} → (A → ℕ) → List A → ℕ
sum f [] = 0
sum f (x ∷ xs) = f x + sum f xs

sum-append : {A : Type 0} (f : A → ℕ) (xs ys : List A) → sum f (xs ++ ys) ≡ sum f xs + sum f ys
sum-append f [] ys = omega arith
sum-append f (x ∷ xs) ys = omega (arith, sum-append f xs ys)

module _ {T : Type 0} (f : T → ℕ) where
  evict_weight :
      (first_key : Idle T → Option ℕ) (now : ℕ) (g : Inner T)
      → weight f (evict_one_idle first_key now g).idle ≤ weight f g.idle
  unfolding evict_one_idle
  evict_weight first_key now g = elim (Option-cases (first_key g.idle)) [
    | inl e ↦ rw (e, evict_one_idle) (omega arith)
    | inr (key, e) ↦ rw (e, evict_one_idle) (omega (arith, pop_idle-weight f now key g))
  ]

  abbrev handed : Checkout T → ℕ
  handed (reuse conn) = f conn
  handed dial = 0
  handed wait = 0

  checkout_weight :
      (first_key : Idle T → Option ℕ) (max_connections now node : ℕ) (g : Inner T)
      → let (action, g') = checkout_action first_key max_connections now node g in
        handed action + weight f g'.idle ≤ weight f g.idle
  unfolding checkout_action
  checkout_weight first_key max_connections now node g =
      let r = pop_idle now node g in
      let w = pop_idle-weight f now node g in
      elim (Option-cases r.0) [
        | inr (conn, e) ↦
            let one : found_weight f r.0 ≡ f conn = rw e refl in
            rw (e, checkout_action) (omega (arith, w, one))
        | inl e ↦ elim (Bool-cases (ltb r.1.in_use max_connections)) [
          | inr full ↦ rw (e, full, checkout_action) (omega (arith, w))
          | inl free ↦ elim (Bool-cases (leb max_connections (r.1.in_use + r.1.idle_count))) [
            | inl full ↦
                rw (e, free, full, checkout_action)
                  (omega (arith, w, evict_weight first_key now r.1))
            | inr room ↦ rw (e, free, room, checkout_action) (omega (arith, w))
          ]
        ]
      ]

  weight-drop_pooled :
      (now node : ℕ) (conn : T) (recycle : Bool) (g : Inner T)
      → weight f (drop_pooled now node conn recycle g).idle ≤ f conn + weight f g.idle
  unfolding drop_pooled
  weight-drop_pooled now node conn false g = omega arith
  weight-drop_pooled now node conn true g =
      omega (arith, weight-push_idle f now node conn (record g { in_use = g.in_use - 1 }))

  abbrev held : List (Pooled T) → ℕ
  held ps = sum (λ p. f p.conn) ps

  held-append : (xs ys : List (Pooled T)) → held (xs ++ ys) ≡ held xs + held ys
  held-append xs ys = sum-append (λ p. f p.conn) xs ys

  -- In every state that the pool reaches, whatever measure is taken of the connections (for one
  -- connection: 1 for it and 0 for others), the idle ones and the held ones together measure no
  -- more than those that were dialled.
  pub Run-owned :
      (first_key : Idle T → Option ℕ) (max_connections : ℕ) (dialled : List T) (s : State T)
      → Run first_key max_connections dialled s
      → weight f s.inner.idle + sum (λ p. f p.conn) s.pooled ≤ sum f dialled
  unfolding drop_slot new_inner weight
  Run-owned first_key m dialled s (started timeout) = omega arith
  Run-owned first_key m dialled s (reused s' now node conn g r e) =
      omega (
        arith,
        Run-owned first_key m _ s' r,
        rw e at (checkout_weight first_key m now node s'.inner),
      )
  Run-owned first_key m dialled s (dial_started s' now node g r e) =
      omega (
        arith,
        Run-owned first_key m _ s' r,
        rw e at (checkout_weight first_key m now node s'.inner),
      )
  Run-owned first_key m dialled s (waited s' now node g r e) =
      omega (
        arith,
        Run-owned first_key m _ s' r,
        rw e at (checkout_weight first_key m now node s'.inner),
      )
  Run-owned first_key m dialled s (dial_succeeded g before after ps node conn r) =
      omega (arith, Run-owned first_key m _ _ r)
  Run-owned first_key m dialled s (dial_dropped g before after ps node r) =
      omega (arith, Run-owned first_key m _ _ r)
  Run-owned first_key m dialled s (skipped_recycle g ds before after p r) = omega (
    arith,
    Run-owned first_key m _ _ r,
    held-append before (p ∷ after),
    held-append before (record p { recycle = false } ∷ after),
  )
  Run-owned first_key m dialled s (dropped g ds before after p now r) = omega (
    arith,
    Run-owned first_key m _ _ r,
    held-append before (p ∷ after),
    held-append before after,
    weight-drop_pooled now p.node p.conn p.recycle g,
  )
  Run-owned first_key m dialled s (held_dropped g ds before after p now keep r) = omega (
    arith,
    Run-owned first_key m _ _ r,
    held-append before (p ∷ after),
    held-append before after,
    weight-drop_pooled now p.node p.conn (drop_held keep p).recycle g,
  )

first_usable :
    {T : Type 0} (now timeout count : ℕ) (slot : Slot T) (conn : T)
    → (pop_loop now timeout slot count).0 ≡ some conn
    → (stale left : Slot T) × (since : ℕ) × (slot ≡ stale ++ (since, conn) ∷ left)
      × All (λ e. timeout ≤ now - e.0) stale
      × (now - since < timeout)
unfolding pop_loop
first_usable now timeout count [] conn h = cc
first_usable now timeout count ((since, c) ∷ slot) conn h =
    elim (Bool-cases (ltb (now - since) timeout)) [
      | inl e ↦
          let same : c ≡ conn = ground (arith, e) in
          ([], slot, since, rw same refl, tt, ltb→lt _ _ e)
      | inr e ↦
          let (stale, left, s, shape, old, fresh) =
            first_usable now timeout (count - 1) slot conn (ground (arith, e)) in
          ((since, c) ∷ stale, left, s, ap (◌∷◌ (since, c)) shape, (ground (arith, e), old), fresh)
    ]

-- Where `pop_idle` finds a connection, it is the first in the slot of the node that has been idle
-- for less than the timeout: all those before it, which were returned earlier, have been idle for
-- the timeout or longer.
pub pop_idle_oldest :
    {T : Type 0} (now node : ℕ) (g : Inner T) (slot : Slot T) (conn : T)
    → get node g.idle ≡ some slot
    → (pop_idle now node g).0 ≡ some conn
    → (stale left : Slot T) × (since : ℕ) × (slot ≡ stale ++ (since, conn) ∷ left)
      × All (λ e. g.idle_timeout ≤ now - e.0) stale
      × (now - since < g.idle_timeout)
unfolding pop_idle
pop_idle_oldest now node g slot conn e h =
    first_usable now g.idle_timeout g.idle_count slot conn (rw (e, pop_idle) at h)
