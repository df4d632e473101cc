-- ===== src/Encryption/Store/Steps.antt =====
-- One level of `Node::add`: what a call that succeeds has checked and what it leaves.
use storj_uplink.Encryption.Error.{Error, conflict}
use storj_uplink.Encryption.Path.{PathIter, done, next}
use storj_uplink.Encryption.Path.Steps.{Yields, done-next-none, done-next-some}
use storj_uplink.Encryption.Store.{
  Base, Revealed, Node, node, Children, no_children, child, or_empty, get_child, put_child,
  conflicts, add_node,
}
use storj_uplink.Common.Tables.{get, insert}
use storj_uplink.Common.{
  ℕ, zero, suc, ◌<◌, ◌≡◌, inl, inr, refl, arith, false, not, ◌||◌, List, [], ◌∷◌, Option, none,
  some, if◌then◌else◌, Bool-cases, Option-cases, Result, ok, err, Result-cases, Bytes, bytes_eq,
  bytes_eq_refl, bytes_eq→eq, bytes_eq_comm, length,
}

pub get-put_child :
    (wanted part : Bytes) (value : Node) (subs : Children)
    → get_child wanted (put_child part value subs)
      ≡ (if bytes_eq part wanted then some value else get_child wanted subs)
unfolding get_child put_child
get-put_child wanted part value no_children = refl
get-put_child wanted part value (child name sub more) = elim (Bool-cases (bytes_eq name part)) [
  | inl e ↦
      let same : name ≡ part = bytes_eq→eq name part e in
      rw same (ground (arith, bytes_eq_refl part))
  | inr e ↦ elim (Bool-cases (bytes_eq name wanted)) [
    | inl w ↦
        let same : name ≡ wanted = bytes_eq→eq name wanted w in
        let swapped = bytes_eq_comm part wanted in ground (arith, e, w, swapped, rw same at e)
    | inr w ↦ ground (arith, e, w, get-put_child wanted part value more)
  ]
]

pub conflicts-get :
    (entries : Revealed) (key value held : Bytes)
    → conflicts entries key value ≡ false
    → get key entries ≡ some held
    → held ≡ value
unfolding conflicts
conflicts-get entries key value held h e = bytes_eq→eq held value (ground (arith, e))

module _ (fuel : ℕ) (held : Option Base) (subs : Children) (unenc_map enc_map : Revealed)
    (unenc enc : PathIter) (base : Base) where
  abbrev result : Result Error Node
  result = add_node (suc fuel) (node held subs unenc_map enc_map) unenc enc base

  pub add-last_level :
      (n : Node)
      → next unenc ≡ none
      → result ≡ ok n
      → (next enc ≡ none) × (n ≡ node (some base) subs unenc_map enc_map)
  unfolding add_node
  add-last_level n u h =
      let d = done-next-none unenc u in
      elim (Option-cases (next enc)) [
        | inl e ↦ let d' = done-next-none enc e in (e, ground (arith, u, e, d, d'))
        | inr ((part, enc'), e) ↦
            let d' = done-next-some enc enc' part e in absurd (ground (arith, u, e, d, d'))
      ]

  pub add-next_level :
      (n : Node) (unenc_part : Bytes) (unenc' : PathIter)
      → next unenc ≡ some (unenc_part, unenc')
      → result ≡ ok n
      → (enc_part : Bytes) × (enc' : PathIter) × (sub : Node) × (next enc ≡ some (enc_part, enc'))
        × (conflicts enc_map enc_part unenc_part ≡ false)
        × (conflicts unenc_map unenc_part enc_part ≡ false)
        × (add_node fuel (or_empty (get_child unenc_part subs)) unenc' enc' base ≡ ok sub)
        × (n
            ≡ node held
                (put_child unenc_part sub subs)
                (insert unenc_part enc_part unenc_map)
                (insert enc_part unenc_part enc_map))
  unfolding add_node
  add-next_level n u unenc' un h =
      let d = done-next-some unenc unenc' u un in
      elim (Option-cases (next enc)) [
        | inl e ↦ let d' = done-next-none enc e in absurd (ground (arith, un, e, d, d'))
        | inr ((e, enc'), en) ↦
            let d' = done-next-some enc enc' e en in
            elim (Bool-cases (conflicts enc_map e u || conflicts unenc_map u e)) [
              | inl c ↦ absurd (ground (arith, un, en, d, d', c))
              | inr c ↦
                  elim (Result-cases
                    (add_node fuel (or_empty (get_child u subs)) unenc' enc' base)) [
                      | inl (sub, a) ↦ (
                        e,
                        enc',
                        sub,
                        en,
                        ground (arith, c),
                        ground (arith, c),
                        a,
                        ground (arith, un, en, d, d', c, a),
                      )
                      | inr (x, a) ↦ absurd (ground (arith, un, en, d, d', c, a))
                    ]
            ]
      ]

-- A trie, or a refusal of the mapping.
abbrev pub IsAnswer : Result Error Node → Type 0
IsAnswer (ok n) = Unit
IsAnswer (err e) = e ≡ conflict

pub add_node_total :
    (fuel : ℕ) (n : Node) (unenc enc : PathIter) (base : Base) (us : List Bytes)
    → Yields unenc us
    → length us < fuel
    → IsAnswer (add_node fuel n unenc enc base)
unfolding add_node
add_node_total zero n unenc enc base us y l = absurd (omega arith)
add_node_total (suc fuel) (node held subs um em) unenc enc base [] y l =
    elim (Bool-cases (if done unenc then not (done enc) else done enc)) [
      | inl d ↦ rw (d, add_node) refl
      | inr d ↦ rw (d, y, add_node) tt
    ]
add_node_total (suc fuel) (node held subs um em) unenc enc base (u ∷ us) (unenc', un, y) l =
    elim (Bool-cases (if done unenc then not (done enc) else done enc)) [
      | inl d ↦ rw (d, add_node) refl
      | inr d ↦ elim (Option-cases (next enc)) [
        | inl e ↦ rw (d, un, e, add_node) refl
        | inr ((e, enc'), en) ↦ elim (Bool-cases (conflicts em e u || conflicts um u e)) [
          | inl c ↦ rw (d, un, en, c, add_node) refl
          | inr c ↦
              let sub = or_empty (get_child u subs) in
              let ih = add_node_total fuel sub unenc' enc' base us y (omega arith) in
              elim (Result-cases (add_node fuel sub unenc' enc' base)) [
                | inl (n, a) ↦ rw (d, un, en, c, a, add_node) tt
                | inr (x, a) ↦ rw (d, un, en, c, a, add_node) (rw a at ih)
              ]
        ]
      ]
    ]
