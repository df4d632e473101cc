-- ===== src/Encryption/Path/Steps.antt =====
-- The iterator over a path as a source of components: which list of components it yields.
use storj_uplink.Encryption.Path.{
  PathIter, new, remaining, done, position_slash, next, collect, remaining_components,
}
use storj_uplink.Encryption.Path.Iter.{
  collect-done, split-some, next-last, next-later, last_state, later_state,
}
use storj_uplink.Common.{
  ℕ, zero, suc, ◌+◌, ◌-◌, ◌≤◌, ◌<◌, ◌≡◌, inl, inr, refl, arith, true, false, List, [], ◌∷◌, none,
  some, if◌then◌else◌, Bool-cases, Option-cases, Bytes, length, take, length-drop,
}

-- Calls of `next` yield these components, and then nothing.
abbrev pub Yields : PathIter → List Bytes → Type 0
Yields it [] = next it ≡ none
Yields it (part ∷ parts) = (it' : PathIter) × (next it ≡ some (part, it')) × Yields it' parts

pub done-next-none : (it : PathIter) → next it ≡ none → done it ≡ true
unfolding next
done-next-none it h = ground arith

pub done-next-some :
    (it it' : PathIter) (part : Bytes) → next it ≡ some (part, it') → done it ≡ false
unfolding next
done-next-some it it' part h = ground arith

next-done : (it : PathIter) → done it ≡ true → next it ≡ none
unfolding next
next-done it h = ground arith

-- What is left, and one for the component that is still due.
abbrev measure : PathIter → ℕ
measure it = length it.raw - it.consumed + (if done it then 0 else 1)

next_progress :
    (it : PathIter)
    → it.consumed ≤ length it.raw
    → done it ≡ false
    → (part : Bytes) × (it' : PathIter) × (next it ≡ some (part, it'))
      × (it'.consumed ≤ length it'.raw)
      × (measure it' < measure it)
next_progress it w h =
    let rem = remaining it in
    let n : length rem ≡ length it.raw - it.consumed =
      unfold remaining in length-drop it.consumed it.raw in
    elim (Option-cases (position_slash rem)) [
      | inl e ↦ (
        rem,
        last_state it,
        next-last it h e,
        unfold last_state in omega arith,
        unfold last_state done in ground arith,
      )
      | inr (i, e) ↦
          let (pieces, below) = split-some rem i e in
          (
            take i rem,
            later_state i it,
            next-later i it h e,
            unfold later_state in omega arith,
            unfold later_state in ground arith,
          )
    ]

collect-Yields :
    (fuel : ℕ) (it : PathIter)
    → it.consumed ≤ length it.raw
    → measure it ≤ fuel
    → Yields it (collect fuel it)
unfolding collect
collect-Yields zero it w h = next-done it (ground arith)
collect-Yields (suc fuel) it w h = elim (Bool-cases (done it)) [
  | inl e ↦
      let stop : collect (suc fuel) it ≡ [] = rw (next-done it e, collect) refl in
      rw stop (next-done it e)
  | inr e ↦
      let (part, it', s, w', less) = next_progress it w e in
      let more : collect (suc fuel) it ≡ part ∷ collect fuel it' = rw (s, collect) refl in
      rw more (it', s, collect-Yields fuel it' w' (omega arith))
]

-- The iterator yields the components that `remaining_components` lists.
pub Yields-new : (raw : Bytes) → Yields (new raw) (remaining_components (new raw))
unfolding remaining_components new
Yields-new raw = collect-Yields (suc (suc (length raw))) (new raw) (omega arith) (ground arith)

-- They are never more than the bytes of the path and one.
length-collect :
    (fuel : ℕ) (it : PathIter) → it.consumed ≤ length it.raw → length (collect fuel it) ≤ measure it
unfolding collect
length-collect zero it w = omega arith
length-collect (suc fuel) it w = elim (Bool-cases (done it)) [
  | inl e ↦
      let stop : collect (suc fuel) it ≡ [] = rw (next-done it e, collect) refl in
      rw stop (omega arith)
  | inr e ↦
      let (part, it', s, w', less) = next_progress it w e in
      let more = length-collect fuel it' w' in
      let step : collect (suc fuel) it ≡ part ∷ collect fuel it' = rw (s, collect) refl in
      rw step (omega arith)
]

pub length-remaining_components :
    (raw : Bytes) → length (remaining_components (new raw)) ≤ length raw + 1
unfolding remaining_components new
length-remaining_components raw =
    let bound = length-collect (suc (suc (length raw))) (new raw) (unfold new in omega arith) in
    ground (arith, bound)

pub remaining_components-Yields : (it : PathIter) → Yields it [] → remaining_components it ≡ []
unfolding remaining_components
remaining_components-Yields it y = collect-done (suc (suc (length it.raw))) it (done-next-none it y)
