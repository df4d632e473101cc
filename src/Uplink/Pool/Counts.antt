-- ===== src/Uplink/Pool/Counts.antt =====
-- The counters of the pool: the idle count is exact and the capacity holds, whatever is done.
use storj_uplink.Uplink.Pool.{
  Slot, Idle, Inner, Checkout, reuse, dial, wait, get, remove, set, put_back, pop_loop, pop_idle,
  push_idle, evict_one_idle, checkout_action, drop_pooled,
}
use storj_uplink.Uplink.Pool.Idle.{
  slot_weight, weight, found_weight, slot_weight-append, weight-get, weight-put_back,
  pop_idle-weight, weight-push_idle,
}
use storj_uplink.Common.{
  ℕ, suc, ◌+◌, ◌-◌, ◌≤◌, ◌<◌, ◌≡◌, ◌↔◌, ◌⊎◌, inl, inr, refl, ◌∙◌, arith, Bool, true, false, [], ◌∷◌,
  Option, none, some, ltb, leb, ◌==◌, ltb→lt, Bool-cases, Option-cases, All,
}

-- The number of connections in a slot, and in the map.
abbrev pub size : {T : Type 0} → Slot T → ℕ
size slot = slot_weight (λ conn. 1) slot

abbrev pub total : {T : Type 0} → Idle T → ℕ
total idle = weight (λ conn. 1) idle

abbrev pub HasNoEmpty : {T : Type 0} → Idle T → Type 0
HasNoEmpty idle = All (λ e. 0 < size e.1) idle

-- The count is that of the map, no slot of the map is empty, and the cap is kept.
pub record IsConsistent {T : Type 0} (max_connections : ℕ) (g : Inner T) : Type 0 where
  pub counted : g.idle_count ≡ total g.idle
  pub no_empty : HasNoEmpty g.idle
  pub capped : g.in_use + g.idle_count ≤ max_connections

-- `keys().next()` gives a key of the map when there is one.
abbrev pub IsPicker : {T : Type 0} → (Idle T → Option ℕ) → Type 0
IsPicker {T = T} first_key =
    (idle : Idle T)
    → (idle ≡ [])
      ⊎ ((key : ℕ) × (slot : Slot T) × (first_key idle ≡ some key) × (get key idle ≡ some slot))

module _ {T : Type 0} where
  pop_loop_count :
      (now timeout count : ℕ) (slot : Slot T)
      → ((pop_loop now timeout slot count).2
          ≡ count - (size slot - size (pop_loop now timeout slot count).1))
        × (size (pop_loop now timeout slot count).1 ≤ size slot)
        × (0 < size slot → size (pop_loop now timeout slot count).1 < size slot)
  unfolding pop_loop slot_weight
  pop_loop_count now timeout count [] = (omega arith, omega arith, λ h. h)
  pop_loop_count now timeout count ((since, c) ∷ slot) =
      let (a, b, d) = pop_loop_count now timeout (count - 1) slot in
      (ground (arith, a, b), ground (arith, b), λ h. ground (arith, b))

  size_got :
      (node : ℕ) (idle : Idle T) (slot : Slot T)
      → HasNoEmpty idle
      → get node idle ≡ some slot
      → 0 < size slot
  unfolding get
  size_got node [] slot h e = cc
  size_got node ((key, s) ∷ rest) slot h e = ground (arith, h.0, size_got node rest slot h.1)

  remove-HasNoEmpty : (node : ℕ) (idle : Idle T) → HasNoEmpty idle → HasNoEmpty (remove node idle)
  unfolding remove
  remove-HasNoEmpty node [] h = tt
  remove-HasNoEmpty node ((key, s) ∷ rest) h = elim (Bool-cases (key == node)) [
    | inl e ↦ rw e h.1
    | inr e ↦ rw e (h.0, remove-HasNoEmpty node rest h.1)
  ]

  set-HasNoEmpty :
      (node : ℕ) (slot : Slot T) (idle : Idle T)
      → 0 < size slot
      → HasNoEmpty idle
      → HasNoEmpty (set node slot idle)
  unfolding set
  set-HasNoEmpty node slot [] l h = (l, tt)
  set-HasNoEmpty node slot ((key, s) ∷ rest) l h = elim (Bool-cases (key == node)) [
    | inl e ↦ rw e (l, h.1)
    | inr e ↦ rw e (h.0, set-HasNoEmpty node slot rest l h.1)
  ]

  put_back-HasNoEmpty :
      (node : ℕ) (slot : Slot T) (idle : Idle T)
      → HasNoEmpty idle
      → HasNoEmpty (put_back node slot idle)
  unfolding put_back
  put_back-HasNoEmpty node [] idle h = remove-HasNoEmpty node idle h
  put_back-HasNoEmpty node (x ∷ slot) idle h =
      set-HasNoEmpty node (x ∷ slot) idle (unfold slot_weight in omega arith) h

  -- What a pop keeps: the exact count, and at least one connection less when there was a slot.
  record Popped (node : ℕ) (g g' : Inner T) : Type 0 where
    counted : g'.idle_count ≡ total g'.idle
    no_empty : HasNoEmpty g'.idle
    same_use : g'.in_use ≡ g.in_use
    fewer : g'.idle_count ≤ g.idle_count
    taken : (slot : Slot T) → get node g.idle ≡ some slot → g'.idle_count < g.idle_count

  pop_idle-Popped :
      (now node : ℕ) (g : Inner T)
      → g.idle_count ≡ total g.idle
      → HasNoEmpty g.idle
      → Popped node g (pop_idle now node g).1
  unfolding pop_idle
  pop_idle-Popped now node g c h = elim (Option-cases (get node g.idle)) [
    | inl e ↦
        rw (e, pop_idle)
          (record {
            counted = c;
            no_empty = h;
            same_use = refl;
            fewer = omega arith;
            taken = λ slot q. cc;
          })
    | inr (slot, e) ↦
        let r = pop_loop now g.idle_timeout slot g.idle_count in
        let before = weight-get (λ conn. 1) node g.idle slot e in
        let after = weight-put_back (λ conn. 1) node g.idle r.1 in
        let (count, less, strict) = pop_loop_count now g.idle_timeout g.idle_count slot in
        let some_there = size_got node g.idle slot h e in
        let less' = strict some_there in
        rw (e, pop_idle)
          (record {
            counted = omega (arith, before, after, count, less, c);
            no_empty = put_back-HasNoEmpty node r.1 g.idle h;
            same_use = refl;
            fewer = omega (arith, count);
            taken = λ slot' q. omega (arith, before, count, less', c);
          })
  ]

  evict-fewer :
      (first_key : Idle T → Option ℕ) (now : ℕ) (g : Inner T)
      → IsPicker first_key
      → g.idle_count ≡ total g.idle
      → HasNoEmpty g.idle
      → (evict_one_idle first_key now g).idle_count ≡ total (evict_one_idle first_key now g).idle
        × HasNoEmpty (evict_one_idle first_key now g).idle
        × ((evict_one_idle first_key now g).in_use ≡ g.in_use)
        × ((evict_one_idle first_key now g).idle_count ≤ g.idle_count - 1)
  unfolding evict_one_idle
  evict-fewer first_key now g picks c h = elim (Option-cases (first_key g.idle)) [
    | inl e ↦ rw (e, evict_one_idle) (c, h, refl, none_there e (picks g.idle))
    | inr (key, e) ↦
        let p = pop_idle-Popped now key g c h in
        rw (e, evict_one_idle) (p.counted, p.no_empty, p.same_use, one_less key p e (picks g.idle))
  ]
    where
      no_idle : g.idle ≡ [] → g.idle_count ≡ 0
      no_idle e = c ∙ (rw e (unfold weight in refl))

      none_there :
          first_key g.idle ≡ none
          → (g.idle ≡ [])
            ⊎ ((key : ℕ) × (slot : Slot T) × (first_key g.idle ≡ some key)
                × (get key g.idle ≡ some slot))
          → g.idle_count ≤ g.idle_count - 1
      none_there e (inl q) = omega (arith, no_idle q)
      none_there e (inr (key, slot, q, r)) = cc

      one_less :
          (key : ℕ)
          → Popped key g (pop_idle now key g).1
          → first_key g.idle ≡ some key
          → (g.idle ≡ [])
            ⊎ ((key : ℕ) × (slot : Slot T) × (first_key g.idle ≡ some key)
                × (get key g.idle ≡ some slot))
          → (pop_idle now key g).1.idle_count ≤ g.idle_count - 1
      one_less key p e (inl q) = omega (arith, no_idle q, p.fewer)
      one_less key p e (inr (k, slot, q, r)) =
          let same : k ≡ key = cc in omega (arith, p.taken slot (rw same at r))

  -- What a checkout takes from the capacity.
  abbrev pub taken_by : Checkout T → ℕ
  taken_by (reuse conn) = 1
  taken_by dial = 1
  taken_by wait = 0

  -- From a consistent pool, a checkout keeps the pool consistent, counts what it hands out, and
  -- waits exactly when all of the capacity is in use. The choice of a key to evict must give one
  -- when there is one.
  pub checkout_action-IsConsistent :
      (first_key : Idle T → Option ℕ) (max_connections now node : ℕ) (g : Inner T)
      → IsPicker first_key
      → IsConsistent max_connections g
      → let (action, g') = checkout_action first_key max_connections now node g in
        IsConsistent max_connections g'
        × (g'.in_use ≡ g.in_use + taken_by action)
        × ((action ≡ wait) ↔ (g.in_use ≡ max_connections))
  unfolding checkout_action
  checkout_action-IsConsistent first_key max_connections now node g picks v =
      let r = pop_idle now node g in
      let p = pop_idle-Popped now node g v.counted v.no_empty in
      let w = pop_idle-weight (λ conn. 1) now node g in
      let cap = v.capped in
      elim (Option-cases r.0) [
        | inr (conn, e) ↦
            let one : found_weight (λ conn. 1) r.0 ≡ 1 = rw e refl in
            rw (e, checkout_action)
              (
                record {
                  counted = p.counted;
                  no_empty = p.no_empty;
                  capped = omega (arith, p.counted, p.same_use, v.counted, w, one, cap);
                },
                omega (arith, p.same_use),
                (λ q. cc, λ q. absurd (omega (arith, v.counted, w, one, cap, q))),
              )
        | inl e ↦ elim (Bool-cases (ltb r.1.in_use max_connections)) [
          | inr full ↦
              rw (e, full, checkout_action)
                (
                  record {
                    counted = p.counted;
                    no_empty = p.no_empty;
                    capped = omega (arith, p.same_use, p.fewer, cap);
                  },
                  omega (arith, p.same_use),
                  (λ q. ground (arith, p.same_use, full, cap), λ q. refl),
                )
          | inl free ↦
              let less = ltb→lt r.1.in_use max_connections free in
              let (c, n, u, d) = evict-fewer first_key now r.1 picks p.counted p.no_empty in
              elim (Bool-cases (leb max_connections (r.1.in_use + r.1.idle_count))) [
                | inl full ↦
                    rw (e, free, full, checkout_action)
                      (
                        record {
                          counted = c;
                          no_empty = n;
                          capped = ground (arith, u, d, p.same_use, p.fewer, cap, less, full);
                        },
                        omega (arith, u, p.same_use),
                        (λ q. cc, λ q. absurd (omega (arith, p.same_use, less, q))),
                      )
                | inr room ↦
                    rw (e, free, room, checkout_action)
                      (
                        record {
                          counted = p.counted;
                          no_empty = p.no_empty;
                          capped = ground (arith, room);
                        },
                        omega (arith, p.same_use),
                        (λ q. cc, λ q. absurd (omega (arith, p.same_use, less, q))),
                      )
              ]
        ]
      ]

  push_idle-HasNoEmpty :
      (now node : ℕ) (conn : T) (g : Inner T)
      → HasNoEmpty g.idle
      → HasNoEmpty (push_idle now node conn g).idle
        × ((push_idle now node conn g).idle_count ≡ g.idle_count + 1)
        × ((push_idle now node conn g).in_use ≡ g.in_use)
  unfolding push_idle slot_weight
  push_idle-HasNoEmpty now node conn g h = (
    set-HasNoEmpty node _ g.idle
        (omega (
          arith,
          slot_weight-append (λ c. 1)
              (elim (get node g.idle) as (λ o. Slot T) [ none ↦ [] | some s ↦ s ])
              ((now, conn) ∷ []),
        ))
        h,
    refl,
    refl,
  )

  -- Giving a connection back, or dropping it, keeps the pool consistent and frees its place.
  pub drop_pooled-IsConsistent :
      (max_connections now node : ℕ) (conn : T) (recycle : Bool) (g : Inner T)
      → 0 < g.in_use
      → IsConsistent max_connections g
      → IsConsistent max_connections (drop_pooled now node conn recycle g)
        × (suc (drop_pooled now node conn recycle g).in_use ≡ g.in_use)
  unfolding drop_pooled
  drop_pooled-IsConsistent max_connections now node conn false g h v =
      let cap = v.capped in
      (record { counted = v.counted; no_empty = v.no_empty; capped = omega arith }, omega arith)
  drop_pooled-IsConsistent max_connections now node conn true g h v =
      let cap = v.capped in
      let g' = record g { in_use = g.in_use - 1 } in
      let w = weight-push_idle (λ conn. 1) now node conn g' in
      let (n, k, u) = push_idle-HasNoEmpty now node conn g' v.no_empty in
      (
        record {
          counted = omega (arith, k, w, v.counted);
          no_empty = n;
          capped = omega (arith, k, u);
        },
        omega (arith, u),
      )
