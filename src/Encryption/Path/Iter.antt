-- ===== src/Encryption/Path/Iter.antt =====
-- The components of a path: the iterator gives the pieces between the slashes, and joins undo it.
use mathlib.Core.List.{append-nil}
use storj_uplink.Encryption.Path.{
  slash, PathIter, new, remaining, done, position_slash, next, collect, remaining_components,
  join_rest, join_components,
}
use storj_uplink.Common.{
  ℕ, zero, suc, ◌+◌, ◌-◌, ◌≤◌, ◌<◌, ◌≡◌, ◌⊎◌, inl, inr, refl, ap, ◌∙◌, arith, true, false, List, [],
  ◌∷◌, ◌++◌, none, some, ◌==◌, if◌then◌else◌, Bool-cases, Option-cases, Bytes, length, take, drop,
  All, length-drop, drop-drop,
}

-- The first component and the others.
abbrev cons_head : ℕ → Bytes × List Bytes → Bytes × List Bytes
cons_head b r = (b ∷ r.0, r.1)

unfoldable pub split_first : Bytes → Bytes × List Bytes
split_first [] = ([], [])
split_first (b ∷ bs) =
    let (part, parts) = split_first bs in
    if b == slash then ([], part ∷ parts) else (b ∷ part, parts)

-- The pieces of a byte string between its slashes: one more than it has slashes.
unfoldable pub split : Bytes → List Bytes
unfolding split_first
split bs = let (part, parts) = split_first bs in part ∷ parts

split-none : (bs : Bytes) → position_slash bs ≡ none → split bs ≡ bs ∷ []
unfolding split position_slash
split-none [] h = refl
split-none (b ∷ bs) h = elim (Option-cases (position_slash bs)) [
  | inl e ↦ ground (arith, e, split-none bs e)
  | inr (i, e) ↦ absurd (ground (arith, e))
]

pub split-some :
    (bs : Bytes) (i : ℕ)
    → position_slash bs ≡ some i
    → (split bs ≡ take i bs ∷ split (drop (i + 1) bs)) × (i < length bs)
unfolding split position_slash
split-some [] i h = cc
split-some (b ∷ bs) i h = elim (Bool-cases (b == slash)) [
  | inl k ↦ let e : i ≡ 0 = ground (arith, k) in rw e (rw k (ground (arith, k)))
  | inr k ↦ elim (Option-cases (position_slash bs)) [
    | inl e ↦ absurd (ground (arith, e, k))
    | inr (j, e) ↦
        let q : i ≡ suc j = ground (arith, e, k) in rw q (ground (arith, k, split-some bs j e))
  ]
]

pub join-split : (bs : Bytes) → join_components (split bs) ≡ bs
unfolding split join_components join_rest
join-split [] = refl
join-split (b ∷ bs) = ground (arith, join-split bs)

pub collect-done : (fuel : ℕ) (it : PathIter) → done it ≡ true → collect fuel it ≡ []
unfolding collect
collect-done zero it h = refl
collect-done (suc fuel) it h =
    let e : next it ≡ none = unfold next in rw h refl in rw (e, collect) refl

unfoldable pub last_state : PathIter → PathIter
last_state it = record it {
  consumed = it.consumed + (length it.raw - it.consumed);
  last_empty = false;
}

pub next-last :
    (it : PathIter)
    → done it ≡ false
    → position_slash (remaining it) ≡ none
    → next it ≡ some (remaining it, last_state it)
unfolding next remaining last_state
next-last it h e = ground (arith, h, e)

unfoldable pub later_state : ℕ → PathIter → PathIter
later_state index it = record it {
  consumed = it.consumed + (index + 1);
  last_empty = index + 1 == length it.raw - it.consumed;
}

pub next-later :
    (index : ℕ) (it : PathIter)
    → done it ≡ false
    → position_slash (remaining it) ≡ some index
    → next it ≡ some (take index (remaining it), later_state index it)
unfolding next remaining later_state
next-later index it h e = ground (arith, h, e)

collect_lem :
    (fuel : ℕ) (it : PathIter)
    → it.consumed ≤ length it.raw
    → done it ≡ false
    → length (remaining it) + 1 < fuel
    → collect fuel it ≡ split (remaining it)
unfolding collect done remaining last_state later_state
collect_lem zero it w h l = absurd (omega arith)
collect_lem (suc fuel) it w h l =
    let rem = remaining it in
    let n = length-drop it.consumed it.raw in
    elim (Option-cases (position_slash rem)) [
      | inl e ↦
          let step = next-last it h e in
          let ends = collect-done fuel (last_state it) (ground arith) in
          rw (split-none rem e) (rw (step, collect) (rw ends refl))
      | inr (i, e) ↦
          let step = next-later i it h e in
          let (pieces, below) = split-some rem i e in
          let same = drop-drop it.consumed (i + 1) (it.consumed + (i + 1)) it.raw refl in
          let n' = length-drop (it.consumed + (i + 1)) it.raw in
          let more =
            collect_lem fuel (later_state i it) (omega arith) (ground (arith, n, below))
              (omega arith) in
          rw pieces (rw (step, collect) (rw more (rw same refl)))
    ]

-- Iterating over a path gives the pieces between its slashes, and no piece for the empty path.
pub remaining_components-new :
    (raw : Bytes)
    → remaining_components (new raw) ≡ (elim raw [ [] ↦ [] | b ∷ bs ↦ split (b ∷ bs) ])
unfolding remaining_components new
remaining_components-new [] = collect-done 2 (new []) (unfold new done in refl)
remaining_components-new (b ∷ bs) =
    unfold remaining in
    collect_lem (suc (suc (length (b ∷ bs)))) (new (b ∷ bs)) (omega arith)
      (unfold done new in ground arith) (unfold remaining in omega arith)

-- Joining the components that the iterator gives of a path is the path again.
pub join-remaining_components :
    (raw : Bytes) → join_components (remaining_components (new raw)) ≡ raw
join-remaining_components [] = rw (remaining_components-new []) (unfold join_components in refl)
join-remaining_components (b ∷ bs) = rw (remaining_components-new (b ∷ bs)) (join-split (b ∷ bs))

-- A component without a slash.
abbrev pub IsPart : Bytes → Type 0
IsPart = All (λ b. (b == slash) ≡ false)

split-part : (part rest : Bytes) → IsPart part → split (part ++ slash ∷ rest) ≡ part ∷ split rest
unfolding split
split-part [] rest h = refl
split-part (b ∷ bs) rest h = ground (arith, h.0, split-part bs rest h.1)

split-only : (part : Bytes) → IsPart part → split part ≡ part ∷ []
unfolding split
split-only [] h = refl
split-only (b ∷ bs) h = ground (arith, h.0, split-only bs h.1)

-- Splitting what was joined from parts without slashes gives the parts.
pub split-join :
    (part : Bytes) (parts : List Bytes)
    → IsPart part
    → All IsPart parts
    → split (join_components (part ∷ parts)) ≡ part ∷ parts
unfolding join_components join_rest
split-join part [] h hs = rw (append-nil part) (split-only part h)
split-join part (next_part ∷ parts) h hs =
    split-part part (join_components (next_part ∷ parts)) h
    ∙ ap (◌∷◌ part) (split-join next_part parts hs.0 hs.1)

-- The iterator gives back the components that were joined, if none of them has a slash and they
-- are not one empty component alone.
pub remaining_components-join :
    (part : Bytes) (parts : List Bytes)
    → IsPart part
    → All IsPart parts
    → (0 < length part) ⊎ (0 < length parts)
    → remaining_components (new (join_components (part ∷ parts))) ≡ part ∷ parts
unfolding join_components join_rest
remaining_components-join (b ∷ part) parts h hs l =
    remaining_components-new (b ∷ part ++ join_rest parts) ∙ split-join (b ∷ part) parts h hs
remaining_components-join [] (next_part ∷ parts) h hs l =
    remaining_components-new (slash ∷ next_part ++ join_rest parts)
    ∙ split-join [] (next_part ∷ parts) h hs
remaining_components-join [] [] h hs (inl l) = absurd (omega arith)
remaining_components-join [] [] h hs (inr l) = absurd (omega arith)
