-- ===== src/Encryption/Store/Lookups.antt =====
-- The walk of `Node::lookup`, and the store around it: what is found of a mapping that is held.
use storj_uplink.Encryption.Path.{PathIter, next}
use storj_uplink.Encryption.Path.Steps.{Yields}
use storj_uplink.Encryption.Store.{
  Base, Revealed, Node, node, Children, no_children, child, get_child, lookup_node, lookup_child,
  Lookup, is_some,
}
use storj_uplink.Encryption.Store.Mappings.{Maps}
use storj_uplink.Encryption.Store.Ends.{end_maps, end_maps-child}
use storj_uplink.Common.Tables.{get}
use storj_uplink.Common.{
  ◌≡◌, inl, inr, refl, arith, Bool, true, false, not, ◌||◌, List, [], ◌∷◌, Option, none, some,
  if◌then◌else◌, Bool-cases, Bytes, bytes_eq,
}

lookup_child-get_child :
    (subs : Children) (name : Bytes) (sub : Node) (it best_remaining : PathIter)
    (best_base : Option Base) (unenc : Bool)
    → get_child name subs ≡ some sub
    → lookup_child subs name it best_remaining best_base unenc
      ≡ lookup_node sub it best_remaining best_base unenc
unfolding lookup_child get_child
lookup_child-get_child no_children name sub it r b unenc h = cc
lookup_child-get_child (child n first more) name sub it r b unenc h =
    elim (Bool-cases (bytes_eq n name)) [
      | inl e ↦ let same : first ≡ sub = ground (arith, e, h) in ground (arith, e, same)
      | inr e ↦
          let more' = lookup_child-get_child more name sub it r b unenc (ground (arith, e, h)) in
          ground (arith, e, more')
    ]

module _ (it best_remaining : PathIter) (best_base : Option Base) (unenc : Bool) (subs : Children)
    (um em : Revealed) where
  lookup_node-last :
      (base : Base)
      → next it ≡ none
      → lookup_node (node (some base) subs um em) it best_remaining best_base unenc
        ≡ record { revealed = some (if unenc then em else um); remaining = it; base = some base }
  unfolding lookup_node
  lookup_node-last base h = ground (arith, h)

  lookup_node-next :
      (held : Option Base) (part name : Bytes) (it' : PathIter) (sub : Node)
      → next it ≡ some (part, it')
      → (if unenc then some part else get part em) ≡ some name
      → get_child name subs ≡ some sub
      → (r : PathIter) × (b : Option Base) × (lookup_node
            (node held subs um em)
            it
            best_remaining
            best_base
            unenc
          ≡ lookup_node sub it' r b unenc)
  unfolding lookup_node
  lookup_node-next held part name it' sub h n g =
      let better = is_some held || not (is_some best_base) in
      let r : PathIter = if better then it else best_remaining in
      let b : Option Base = if better then held else best_base in
      let down = lookup_child-get_child subs name sub it' r b unenc g in
      (r, b, ground (arith, h, n, down))

-- What the walk found is the base, with nothing left of the path, and the last node's children.
abbrev pub IsHit : Base → Revealed → Lookup → Type 0
IsHit base r found =
    (found.base ≡ some base) × Yields found.remaining [] × (found.revealed ≡ some r)

-- The walk by the plain components of a held mapping, or by its encrypted ones, ends at its base.
pub lookup_node-Maps :
    (us es : List Bytes) (n : Node) (base : Base) (it best_remaining : PathIter)
    (best_base : Option Base) (unenc : Bool)
    → Maps us es n base
    → Yields it (if unenc then us else es)
    → IsHit base
        (if unenc then (end_maps us n).1 else (end_maps us n).0)
        (lookup_node n it best_remaining best_base unenc)
unfolding end_maps
lookup_node-Maps [] [] (node held subs um em) base it br bb true m y =
    rw m (rw (lookup_node-last it br bb true subs um em base y) (refl, y, refl))
lookup_node-Maps [] [] (node held subs um em) base it br bb false m y =
    rw m (rw (lookup_node-last it br bb false subs um em base y) (refl, y, refl))
lookup_node-Maps [] (e ∷ es) n base it br bb unenc m y = elim m [ ]
lookup_node-Maps (u ∷ us) [] n base it br bb unenc m y = elim m [ ]
lookup_node-Maps (u ∷ us) (e ∷ es) (node held subs um em) base it br bb true (mu, me, sub, at_u, m)
      (it', s, y) =
    let (r, b, q) = lookup_node-next it br bb true subs um em held u u it' sub s refl at_u in
    rw q (
      rw (end_maps-child u us held subs um em sub at_u)
        (lookup_node-Maps us es sub base it' r b true m y))
lookup_node-Maps (u ∷ us) (e ∷ es) (node held subs um em) base it br bb false (mu, me, sub, at_u, m)
      (it', s, y) =
    let (r, b, q) = lookup_node-next it br bb false subs um em held e u it' sub s me at_u in
    rw q (
      rw (end_maps-child u us held subs um em sub at_u)
        (lookup_node-Maps us es sub base it' r b false m y))
