-- ===== src/Uplink/Pool/Steps.antt =====
-- The pool with the guards that are out, step by step: each step is one piece of code under the
-- mutex, or a change of a guard between two of them.
use storj_uplink.Uplink.Pool.{
  Idle, Inner, reuse, dial, wait, checkout_action, drop_slot, drop_pooled, new_inner,
}
use storj_uplink.Uplink.Pool.Idle.{weight}
use storj_uplink.Uplink.Pool.Counts.{
  total, IsConsistent, IsPicker, checkout_action-IsConsistent, drop_pooled-IsConsistent,
}
use storj_uplink.Common.{
  ℕ, ◌+◌, ◌≤◌, ◌≡◌, ◌↔◌, refl, arith, Bool, true, false, List, [], ◌∷◌, ◌++◌, Option, length,
  length-append,
}

-- `Pooled` while it holds its connection.
pub record Pooled (T : Type 0) : Type 0 where
  pub conn : T
  pub node : ℕ
  pub recycle : Bool

-- Dropping a `HeldPooled`: without `keep` the connection is not recycled.
unfoldable pub drop_held : {T : Type 0} → Bool → Pooled T → Pooled T
drop_held true pooled = pooled
drop_held false pooled = record pooled { recycle = false }

-- The pool, the armed slots whose dial is under way, and the guards that are held.
pub record State (T : Type 0) : Type 0 where
  pub inner : Inner T
  pub dialing : List ℕ
  pub pooled : List (Pooled T)

module _ {T : Type 0} (first_key : Idle T → Option ℕ) (max_connections : ℕ) where
  -- The dialled connections, the last first, and the state they lead to.
  pub data Run : List T → State T → Type 0 where
    started :
        (timeout : ℕ) → Run [] (record { inner = new_inner timeout; dialing = []; pooled = [] })
    reused :
        {dialled : List T} (s : State T) (now node : ℕ) (conn : T) (g : Inner T)
        → Run dialled s
        → checkout_action first_key max_connections now node s.inner ≡ (reuse conn, g)
        → Run dialled (record s {
          inner = g;
          pooled = record { conn = conn; node = node; recycle = true } ∷ s.pooled;
        })
    dial_started :
        {dialled : List T} (s : State T) (now node : ℕ) (g : Inner T)
        → Run dialled s
        → checkout_action first_key max_connections now node s.inner ≡ (dial, g)
        → Run dialled (record s { inner = g; dialing = node ∷ s.dialing })
    waited :
        {dialled : List T} (s : State T) (now node : ℕ) (g : Inner T)
        → Run dialled s
        → checkout_action first_key max_connections now node s.inner ≡ (wait, g)
        → Run dialled (record s { inner = g })
    dial_succeeded :
        {dialled : List T} (g : Inner T) (before after : List ℕ) (ps : List (Pooled T)) (node : ℕ)
        (conn : T)
        → Run dialled (record { inner = g; dialing = before ++ node ∷ after; pooled = ps })
        → Run (conn ∷ dialled) (record {
          inner = g;
          dialing = before ++ after;
          pooled = record { conn = conn; node = node; recycle = true } ∷ ps;
        })
    dial_dropped :
        {dialled : List T} (g : Inner T) (before after : List ℕ) (ps : List (Pooled T)) (node : ℕ)
        → Run dialled (record { inner = g; dialing = before ++ node ∷ after; pooled = ps })
        → Run dialled (record { inner = drop_slot g; dialing = before ++ after; pooled = ps })
    skipped_recycle :
        {dialled : List T} (g : Inner T) (ds : List ℕ) (before after : List (Pooled T))
        (p : Pooled T)
        → Run dialled (record { inner = g; dialing = ds; pooled = before ++ p ∷ after })
        → Run dialled (record {
          inner = g;
          dialing = ds;
          pooled = before ++ record p { recycle = false } ∷ after;
        })
    dropped :
        {dialled : List T} (g : Inner T) (ds : List ℕ) (before after : List (Pooled T))
        (p : Pooled T) (now : ℕ)
        → Run dialled (record { inner = g; dialing = ds; pooled = before ++ p ∷ after })
        → Run dialled (record {
          inner = drop_pooled now p.node p.conn p.recycle g;
          dialing = ds;
          pooled = before ++ after;
        })
    held_dropped :
        {dialled : List T} (g : Inner T) (ds : List ℕ) (before after : List (Pooled T))
        (p : Pooled T) (now : ℕ) (keep : Bool)
        → Run dialled (record { inner = g; dialing = ds; pooled = before ++ p ∷ after })
        → Run dialled (record {
          inner = drop_pooled now p.node p.conn (drop_held keep p).recycle g;
          dialing = ds;
          pooled = before ++ after;
        })

  -- The pool is consistent and its count in use is that of the guards.
  pub record IsAccounted (s : State T) : Type 0 where
    pub consistent : IsConsistent max_connections s.inner
    pub guards : s.inner.in_use ≡ length s.dialing + length s.pooled

  dropped-IsAccounted :
      (g : Inner T) (ds : List ℕ) (before after : List (Pooled T)) (p : Pooled T) (now : ℕ)
      (recycle : Bool)
      → IsAccounted (record { inner = g; dialing = ds; pooled = before ++ p ∷ after })
      → IsAccounted (record {
        inner = drop_pooled now p.node p.conn recycle g;
        dialing = ds;
        pooled = before ++ after;
      })
  dropped-IsAccounted g ds before after p now recycle was =
      let guards = was.guards in
      let l1 = length-append before (p ∷ after) in
      let l2 = length-append before after in
      let (c, u) =
        drop_pooled-IsConsistent max_connections now p.node p.conn recycle g (omega arith)
          was.consistent in
      record { consistent = c; guards = omega arith }

  Run-IsAccounted :
      (dialled : List T) (s : State T) → IsPicker first_key → Run dialled s → IsAccounted s
  unfolding drop_slot new_inner
  Run-IsAccounted dialled s picks (started timeout) = record {
    consistent =
        unfold new_inner in
        record { counted = unfold weight in refl; no_empty = tt; capped = omega arith };
    guards = refl;
  }
  Run-IsAccounted dialled s picks (reused s' now node conn g r e) =
      let before = Run-IsAccounted _ s' picks r in
      let guards = before.guards in
      let (c, u, w) = rw e at (
        checkout_action-IsConsistent first_key max_connections now node s'.inner picks
          before.consistent) in
      record { consistent = c; guards = omega arith }
  Run-IsAccounted dialled s picks (dial_started s' now node g r e) =
      let before = Run-IsAccounted _ s' picks r in
      let guards = before.guards in
      let (c, u, w) = rw e at (
        checkout_action-IsConsistent first_key max_connections now node s'.inner picks
          before.consistent) in
      record { consistent = c; guards = omega arith }
  Run-IsAccounted dialled s picks (waited s' now node g r e) =
      let before = Run-IsAccounted _ s' picks r in
      let guards = before.guards in
      let (c, u, w) = rw e at (
        checkout_action-IsConsistent first_key max_connections now node s'.inner picks
          before.consistent) in
      record { consistent = c; guards = omega arith }
  Run-IsAccounted dialled s picks (dial_succeeded g before after ps node conn r) =
      let was = Run-IsAccounted _ _ picks r in
      let guards = was.guards in
      record {
        consistent = was.consistent;
        guards = omega (arith, length-append before (node ∷ after), length-append before after);
      }
  Run-IsAccounted dialled s picks (dial_dropped g before after ps node r) =
      let was = Run-IsAccounted _ _ picks r in
      let guards = was.guards in
      let c = was.consistent in
      let cap = c.capped in
      record {
        consistent = record { counted = c.counted; no_empty = c.no_empty; capped = omega arith };
        guards = omega (arith, length-append before (node ∷ after), length-append before after);
      }
  Run-IsAccounted dialled s picks (skipped_recycle g ds before after p r) =
      let was = Run-IsAccounted _ _ picks r in
      let guards = was.guards in
      record {
        consistent = was.consistent;
        guards = omega (
          arith,
          length-append before (p ∷ after),
          length-append before (record p { recycle = false } ∷ after),
        );
      }
  Run-IsAccounted dialled s picks (dropped g ds before after p now r) =
      let was = Run-IsAccounted _ _ picks r in
      dropped-IsAccounted g ds before after p now p.recycle was
  Run-IsAccounted dialled s picks (held_dropped g ds before after p now keep r) =
      let was = Run-IsAccounted _ _ picks r in
      dropped-IsAccounted g ds before after p now (drop_held keep p).recycle was

  -- In every state that the pool reaches, the idle connections, the dials under way and the guards
  -- that are held together are at most `max_connections`. The choice of a key to evict must give
  -- one when there is one.
  pub Run-capped :
      (dialled : List T) (s : State T)
      → IsPicker first_key
      → Run dialled s
      → length s.dialing + length s.pooled + total s.inner.idle ≤ max_connections
  Run-capped dialled s picks r =
      let a = Run-IsAccounted dialled s picks r in
      let guards = a.guards in
      let c = a.consistent in let counted = c.counted in let cap = c.capped in omega arith

  -- In every state that the pool reaches, a checkout waits exactly when the dials under way and the
  -- guards that are held are `max_connections`. The choice of a key to evict must give one when
  -- there is one.
  pub Run-waits_when_full :
      (dialled : List T) (s : State T) (now node : ℕ)
      → IsPicker first_key
      → Run dialled s
      → ((checkout_action first_key max_connections now node s.inner).0 ≡ wait)
        ↔ (length s.dialing + length s.pooled ≡ max_connections)
  Run-waits_when_full dialled s now node picks r =
      let a = Run-IsAccounted dialled s picks r in
      let guards = a.guards in
      let (v, u, w) =
        checkout_action-IsConsistent first_key max_connections now node s.inner picks
          a.consistent in
      (λ e. let full = w.0 e in omega arith, λ e. w.1 (omega arith))
