-- ===== src/Uplink/Pool.antt =====
-- crates/storj-uplink/src/pool.rs: the pool of storage-node connections. Node ids and instants are
-- numbers. The map of idle connections is an association list, and `first_key` stands for
-- `HashMap::keys().next()`, whose choice is free. Code under the mutex is one function; what
-- happens between two locks is the step relation of Pool/Steps.
pub mod Idle
pub mod Counts
pub mod Steps
pub mod Ownership
use storj_uplink.Common.{
  ℕ, ◌+◌, ◌-◌, ◌*◌, ◌^◌, min, max, Bool, List, [], ◌∷◌, ◌++◌, Option, none, some, ltb, leb, ◌==◌,
  if◌then◌else◌,
}

-- `PoolConfig`, whose timeout is the same for all.
unfoldable pub for_redundancy_n_and_concurrency : ℕ → ℕ → ℕ
for_redundancy_n_and_concurrency n concurrent_segments =
    min (max n 1 * max concurrent_segments 1) (2 ^ 64 - 1)

-- `VecDeque<(Instant, T)>`, the front first.
abbrev pub Slot : Type 0 → Type 0
Slot T = List (ℕ × T)

abbrev pub Idle : Type 0 → Type 0
Idle T = List (ℕ × Slot T)

-- `Inner`
pub record Inner (T : Type 0) : Type 0 where
  pub idle : Idle T
  pub idle_count : ℕ
  pub in_use : ℕ
  pub idle_timeout : ℕ

-- `Checkout`
pub data Checkout (T : Type 0) : Type 0 where
  reuse : T → Checkout T
  dial : Checkout T
  wait : Checkout T

module _ {T : Type 0} where
  unfoldable pub get : ℕ → Idle T → Option (Slot T)
  get node [] = none
  get node ((key, slot) ∷ rest) = if key == node then some slot else get node rest

  unfoldable pub remove : ℕ → Idle T → Idle T
  remove node [] = []
  remove node ((key, slot) ∷ rest) = if key == node then rest else (key, slot) ∷ remove node rest

  unfoldable pub set : ℕ → Slot T → Idle T → Idle T
  set node new_slot [] = (node, new_slot) ∷ []
  set node new_slot ((key, slot) ∷ rest) =
      if key == node then (key, new_slot) ∷ rest else (key, slot) ∷ set node new_slot rest

  -- What is left of a slot; an empty one is removed from the map.
  unfoldable pub put_back : ℕ → Slot T → Idle T → Idle T
  unfolding remove set
  put_back node [] idle = remove node idle
  put_back node (x ∷ slot) idle = set node (x ∷ slot) idle

  -- The loop of `pop_idle`: what it found, what is left of the slot, and the count.
  unfoldable pub pop_loop : ℕ → ℕ → Slot T → ℕ → Option T × Slot T × ℕ
  pop_loop now timeout [] idle_count = (none, [], idle_count)
  pop_loop now timeout ((since, conn) ∷ slot) idle_count =
      let stale = pop_loop now timeout slot (idle_count - 1) in
      if ltb (now - since) timeout then (some conn, slot, idle_count - 1) else stale

  unfoldable pub pop_idle : ℕ → ℕ → Inner T → Option T × Inner T
  unfolding get put_back pop_loop
  pop_idle now node g = elim (get node g.idle) [
    | none ↦ (none, g)
    | some slot ↦
        let (found, left, count) = pop_loop now g.idle_timeout slot g.idle_count in
        (found, record g { idle = put_back node left g.idle; idle_count = count })
  ]

  unfoldable pub push_idle : ℕ → ℕ → T → Inner T → Inner T
  unfolding get set
  push_idle now node conn g =
      let slot : Slot T = elim (get node g.idle) [ none ↦ [] | some s ↦ s ] in
      record g { idle = set node (slot ++ (now, conn) ∷ []) g.idle; idle_count = g.idle_count + 1 }

  -- The connection that is evicted is dropped by the only caller.
  unfoldable pub evict_one_idle : (Idle T → Option ℕ) → ℕ → Inner T → Inner T
  unfolding pop_idle
  evict_one_idle first_key now g = elim (first_key g.idle) [
    | none ↦ g
    | some key ↦ (pop_idle now key g).1
  ]

  -- The block of `checkout` under the lock.
  unfoldable pub checkout_action : (Idle T → Option ℕ) → ℕ → ℕ → ℕ → Inner T → Checkout T × Inner T
  unfolding pop_idle evict_one_idle
  checkout_action first_key max_connections now node g =
      let (found, g') = pop_idle now node g in
      elim found [
        | some conn ↦ (reuse conn, record g' { in_use = g'.in_use + 1 })
        | none ↦
            if ltb g'.in_use max_connections
            then (let evicted = evict_one_idle first_key now g' in
                let room =
                  if leb max_connections (g'.in_use + g'.idle_count) then evicted else g' in
                (dial, record room { in_use = room.in_use + 1 }))
            else (wait, g')
      ]

  -- Dropping a `Slot` that is armed, so when the dial fails or is cancelled.
  unfoldable pub drop_slot : Inner T → Inner T
  drop_slot g = record g { in_use = g.in_use - 1 }

  -- Dropping a `Pooled` that still holds its connection.
  unfoldable pub drop_pooled : ℕ → ℕ → T → Bool → Inner T → Inner T
  unfolding push_idle
  drop_pooled now node conn recycle g =
      let g' = record g { in_use = g.in_use - 1 } in
      if recycle then push_idle now node conn g' else g'

  -- `ConnectionPool::new`
  unfoldable pub new_inner : ℕ → Inner T
  new_inner idle_timeout = record {
    idle = [];
    idle_count = 0;
    in_use = 0;
    idle_timeout = idle_timeout;
  }
