-- ===== src/Uplink/Runs.antt =====
-- Examples for crates/storj-uplink: a pool of two connections, and ranges of a small object.
use storj_uplink.Common.Integers.{pos, negsuc}
use storj_uplink.Uplink.Pool.{
  Slot, Idle, Inner, dial, wait, get, pop_idle, checkout_action, new_inner,
}
use storj_uplink.Uplink.Pool.Idle.{weight}
use storj_uplink.Uplink.Pool.Counts.{IsPicker, IsConsistent, total}
use storj_uplink.Uplink.Pool.Steps.{
  Pooled, State, Run, started, reused, dial_started, dial_succeeded, dropped, Run-capped,
  Run-waits_when_full,
}
use storj_uplink.Uplink.Pool.Ownership.{sum, Run-owned, pop_idle_oldest}
use storj_uplink.Uplink.Ranges.{resolve_range}
use storj_uplink.Uplink.Ranges.Windows.{read_segments, joined, read_segments_lem}
use storj_uplink.Common.{
  ℕ, ◌+◌, ◌-◌, ◌≤◌, ◌<◌, ◌≡◌, ◌↔◌, inl, inr, refl, arith, true, [], ◌∷◌, ◌++◌, Option, none, some,
  ◌==◌, if◌then◌else◌, ok, Bytes, take, drop, All,
}

-- The keys in the order of the list.
abbrev head_key : Idle ℕ → Option ℕ
head_key [] = none
head_key ((key, slot) ∷ rest) = some key

head_key-IsPicker : IsPicker head_key
unfolding get
head_key-IsPicker [] = inl refl
head_key-IsPicker ((key, slot) ∷ rest) = inr (key, slot, refl, ground arith)

-- Connection 70 to node 5, returned at time 10 and in the pool at time 20.
abbrev returned : Inner ℕ
returned = record { idle = (5, (10, 70) ∷ []) ∷ []; idle_count = 1; in_use = 0; idle_timeout = 300 }

abbrev dialling : Inner ℕ
dialling = record { idle = []; idle_count = 0; in_use = 1; idle_timeout = 300 }

abbrev lease : Pooled ℕ
lease = record { conn = 70; node = 5; recycle = true }

abbrev leased : State ℕ
leased = record { inner = dialling; dialing = []; pooled = lease ∷ [] }

-- Dialled at time 1, given back at time 10, and checked out again at time 20.
Run-leased : Run head_key 1 (70 ∷ []) leased
unfolding checkout_action new_inner storj_uplink.Uplink.Pool.drop_pooled
Run-leased =
    reused (record { inner = returned; dialing = []; pooled = [] }) 20 5 70 dialling
      (dropped dialling [] [] [] lease 10 (
        dial_succeeded dialling [] [] [] 5 70 (
          dial_started (record { inner = new_inner 300; dialing = []; pooled = [] }) 1 5 dialling
            (started 300) refl)))
      refl

Run-capped_example : 0 + 1 + total {T = ℕ} [] ≤ 1
Run-capped_example = Run-capped head_key 1 (70 ∷ []) leased head_key-IsPicker Run-leased

Run-waits_when_full_example : ((checkout_action head_key 1 30 6 dialling).0 ≡ wait) ↔ (0 + 1 ≡ 1)
Run-waits_when_full_example =
    Run-waits_when_full head_key 1 (70 ∷ []) leased 30 6 head_key-IsPicker Run-leased

abbrev is_70 : ℕ → ℕ
is_70 conn = if conn == 70 then 1 else 0

Run-owned_example : weight is_70 [] + sum (λ p. is_70 p.conn) (lease ∷ []) ≤ sum is_70 (70 ∷ [])
Run-owned_example = Run-owned is_70 head_key 1 (70 ∷ []) leased Run-leased

returned-IsConsistent : IsConsistent 1 returned
unfolding weight
returned-IsConsistent = record {
  counted = refl;
  no_empty = (omega arith, tt);
  capped = omega arith;
}

-- At the cap, a checkout for another node evicts the idle connection and dials.
evicting : checkout_action head_key 1 20 6 returned ≡ (dial, dialling)
unfolding checkout_action
evicting = refl

-- Three idle connections: the first is stale, and the second, not the last, is handed out.
abbrev three_idle : Inner ℕ
three_idle = record {
  idle = (5, (10, 70) ∷ (200, 71) ∷ (350, 72) ∷ []) ∷ [];
  idle_count = 3;
  in_use = 0;
  idle_timeout = 300;
}

pop_idle_oldest_example :
    (stale left : Slot ℕ) × (since : ℕ) × ((10, 70) ∷ (200, 71) ∷ (350, 72) ∷ []
      ≡ stale ++ (since, 71) ∷ left)
    × All (λ e. 300 ≤ 400 - e.0) stale
    × (400 - since < 300)
unfolding get pop_idle
pop_idle_oldest_example =
    pop_idle_oldest 400 5 three_idle ((10, 70) ∷ (200, 71) ∷ (350, 72) ∷ []) 71 refl refl

abbrev content : Bytes
content = 1 ∷ 2 ∷ 3 ∷ 4 ∷ 5 ∷ []

last_two : resolve_range (negsuc 1) (negsuc 0) (pos 5) ≡ ok (3, 2)
unfolding resolve_range
last_two = refl

read_segments_lem_example :
    read_segments 1 3 0 ((1 ∷ 2 ∷ []) ∷ (3 ∷ 4 ∷ 5 ∷ []) ∷ [])
    ≡ take 3 (drop 1 (joined ((1 ∷ 2 ∷ []) ∷ (3 ∷ 4 ∷ 5 ∷ []) ∷ [])))
unfolding joined
read_segments_lem_example =
    read_segments_lem 1 3 ((1 ∷ 2 ∷ []) ∷ (3 ∷ 4 ∷ 5 ∷ []) ∷ []) (omega arith) (omega arith)

across_segments : read_segments 1 3 0 ((1 ∷ 2 ∷ []) ∷ (3 ∷ 4 ∷ 5 ∷ []) ∷ []) ≡ 2 ∷ 3 ∷ 4 ∷ []
unfolding read_segments storj_uplink.Uplink.Ranges.segment_plain_range
across_segments = refl
