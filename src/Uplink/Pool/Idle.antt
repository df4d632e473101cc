-- ===== src/Uplink/Pool/Idle.antt =====
-- The idle map: what a pop takes out and a push puts in, weighed by any measure of connections.
use storj_uplink.Uplink.Pool.{
  Slot, Idle, Inner, get, remove, set, put_back, pop_loop, pop_idle, push_idle,
}
use storj_uplink.Common.{
  ℕ, ◌+◌, ◌-◌, ◌≤◌, ◌≡◌, inl, inr, refl, ap, arith, [], ◌∷◌, ◌++◌, Option, none, some, Option-cases,
}

module _ {T : Type 0} (f : T → ℕ) where
  unfoldable pub slot_weight : Slot T → ℕ
  slot_weight [] = 0
  slot_weight ((since, conn) ∷ slot) = f conn + slot_weight slot

  unfoldable pub weight : Idle T → ℕ
  unfolding slot_weight
  weight [] = 0
  weight ((key, slot) ∷ rest) = slot_weight slot + weight rest

  abbrev pub found_weight : Option T → ℕ
  found_weight none = 0
  found_weight (some conn) = f conn

  pub slot_weight-append :
      (xs ys : Slot T) → slot_weight (xs ++ ys) ≡ slot_weight xs + slot_weight ys
  unfolding slot_weight
  slot_weight-append [] ys = omega arith
  slot_weight-append ((s, c) ∷ xs) ys = omega (arith, slot_weight-append xs ys)

  pub weight-get :
      (node : ℕ) (idle : Idle T) (slot : Slot T)
      → get node idle ≡ some slot
      → weight idle ≡ slot_weight slot + weight (remove node idle)
  unfolding get remove weight
  weight-get node [] slot h = cc
  weight-get node ((key, s) ∷ rest) slot h = ground (arith, weight-get node rest slot)

  weight-set :
      (node : ℕ) (idle : Idle T) (slot : Slot T)
      → weight (set node slot idle) ≡ slot_weight slot + weight (remove node idle)
  unfolding set remove weight
  weight-set node [] slot = omega arith
  weight-set node ((key, s) ∷ rest) slot = ground (arith, weight-set node rest slot)

  pub weight-put_back :
      (node : ℕ) (idle : Idle T) (slot : Slot T)
      → weight (put_back node slot idle) ≡ slot_weight slot + weight (remove node idle)
  unfolding put_back slot_weight
  weight-put_back node idle [] = omega arith
  weight-put_back node idle (x ∷ slot) = weight-set node idle (x ∷ slot)

  weight-get-none : (node : ℕ) (idle : Idle T) → get node idle ≡ none → remove node idle ≡ idle
  unfolding get remove
  weight-get-none node [] h = refl
  weight-get-none node ((key, s) ∷ rest) h = ground (arith, weight-get-none node rest)

  pop_loop_weight :
      (now timeout count : ℕ) (slot : Slot T)
      → found_weight (pop_loop now timeout slot count).0
          + slot_weight (pop_loop now timeout slot count).1
        ≤ slot_weight slot
  unfolding pop_loop slot_weight
  pop_loop_weight now timeout count [] = omega arith
  pop_loop_weight now timeout count ((s, c) ∷ slot) =
      ground (arith, pop_loop_weight now timeout (count - 1) slot)

  -- What is popped and what stays weigh no more than what was there.
  pub pop_idle-weight :
      (now node : ℕ) (g : Inner T)
      → found_weight (pop_idle now node g).0 + weight (pop_idle now node g).1.idle ≤ weight g.idle
  unfolding pop_idle
  pop_idle-weight now node g = elim (Option-cases (get node g.idle)) [
    | inl e ↦ rw (e, pop_idle) (omega arith)
    | inr (slot, e) ↦
        let r = pop_loop now g.idle_timeout slot g.idle_count in
        let before = weight-get node g.idle slot e in
        let after = weight-put_back node g.idle r.1 in
        let popped = pop_loop_weight now g.idle_timeout g.idle_count slot in
        rw (e, pop_idle) (omega (arith, before, after, popped))
  ]

  pub weight-push_idle :
      (now node : ℕ) (conn : T) (g : Inner T)
      → weight (push_idle now node conn g).idle ≡ f conn + weight g.idle
  unfolding push_idle
  weight-push_idle now node conn g = elim (Option-cases (get node g.idle)) [
    | inl e ↦
        rw (e, push_idle)
          (unfold slot_weight in
            omega (
              arith,
              weight-set node g.idle ((now, conn) ∷ []),
              ap weight (weight-get-none node g.idle e),
            ))
    | inr (slot, e) ↦
        rw (e, push_idle)
          (unfold slot_weight in
            omega (
              arith,
              weight-set node g.idle (slot ++ (now, conn) ∷ []),
              slot_weight-append slot ((now, conn) ∷ []),
              weight-get node g.idle slot e,
            ))
  ]
