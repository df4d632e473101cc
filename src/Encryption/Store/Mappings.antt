-- ===== src/Encryption/Store/Mappings.antt =====
-- Which mappings a trie holds, and what `Node::add` does to them.
use storj_uplink.Encryption.Path.{PathIter}
use storj_uplink.Encryption.Path.Steps.{Yields}
use storj_uplink.Encryption.Store.{
  Base, Node, node, Children, or_empty, get_child, put_child, conflicts, add_node,
}
use storj_uplink.Encryption.Store.Steps.{
  get-put_child, conflicts-get, add-last_level, add-next_level,
}
use storj_uplink.Common.Tables.{get, insert, get-insert}
use storj_uplink.Common.{
  ℕ, zero, suc, ◌≡◌, ◌≢◌, ◌↔◌, inl, inr, refl, sym, ap, ◌∙◌, false, List, [], ◌∷◌, some, Bool-cases,
  ok, Bytes, bytes_eq, bytes_eq_refl, bytes_eq→eq,
}

-- The base stands at the end of the walk by the plain components. On the way both maps of every
-- node pair the plain component with the encrypted one.
abbrev pub Maps : List Bytes → List Bytes → Node → Base → Type 0
Maps [] [] (node held subs um em) base = held ≡ some base
Maps [] (e ∷ es) n base = ⊥
Maps (u ∷ us) [] n base = ⊥
Maps (u ∷ us) (e ∷ es) (node held subs um em) base =
    (get u um ≡ some e)
    × (get e em ≡ some u)
    × (sub : Node) × (get_child u subs ≡ some sub)
    × Maps us es sub base

get-insert_same {ℓ} :
    {V : Type ℓ} (key : Bytes) (value : V) (entries : List (Bytes × V))
    → get key (insert key value entries) ≡ some value
get-insert_same key value entries =
    rw (get-insert key key value entries) (rw (bytes_eq_refl key) refl)

get-put_child_same :
    (part : Bytes) (value : Node) (subs : Children)
    → get_child part (put_child part value subs) ≡ some value
get-put_child_same part value subs =
    rw (get-put_child part part value subs) (rw (bytes_eq_refl part) refl)

-- A mapping that was added is held.
pub add_node-Maps :
    (fuel : ℕ) (n n' : Node) (unenc enc : PathIter) (base : Base) (us es : List Bytes)
    → Yields unenc us
    → Yields enc es
    → add_node fuel n unenc enc base ≡ ok n'
    → Maps us es n' base
add_node-Maps zero n n' unenc enc base us es yu ye h = absurd (unfold add_node in cc)
add_node-Maps (suc fuel) (node held subs um em) n' unenc enc base [] [] yu ye h =
    let (last, e) = add-last_level fuel held subs um em unenc enc base n' yu h in rw e refl
add_node-Maps (suc fuel) (node held subs um em) n' unenc enc base [] (e ∷ es) yu (enc', en, ye) h =
    let (last, q) = add-last_level fuel held subs um em unenc enc base n' yu h in absurd (cc)
add_node-Maps (suc fuel) (node held subs um em) n' unenc enc base (u ∷ us) [] (unenc', un, yu) ye
      h =
    let (e, enc', sub, en, c1, c2, a, q) =
      add-next_level fuel held subs um em unenc enc base n' u unenc' un h in
    absurd (cc)
add_node-Maps (suc fuel) (node held subs um em) n' unenc enc base (u ∷ us) (e ∷ es) (unenc', un, yu)
      (enc', en, ye) h =
    let (e1, enc1, sub, en1, c1, c2, a, q) =
      add-next_level fuel held subs um em unenc enc base n' u unenc' un h in
    let same : e1 ≡ e = cc in
    let same' : enc1 ≡ enc' = cc in
    let more =
      add_node-Maps fuel (or_empty (get_child u subs)) sub unenc' enc' base us es yu ye
        (rw same' at a) in
    rw q (
      rw same
        (get-insert_same u e um, get-insert_same e u em, sub, get-put_child_same u sub subs, more))

-- A mapping stays when another one is added.
pub Maps-add_node :
    (fuel : ℕ) (n n' : Node) (unenc enc : PathIter) (base other : Base) (us es vs fs : List Bytes)
    → Yields unenc us
    → Yields enc es
    → Maps vs fs n other
    → vs ≢ us
    → add_node fuel n unenc enc base ≡ ok n'
    → Maps vs fs n' other
Maps-add_node zero n n' unenc enc base other us es vs fs yu ye m d h =
    absurd (unfold add_node in cc)
Maps-add_node (suc fuel) (node held subs um em) n' unenc enc base other [] es [] fs yu ye m d h =
    absurd (d refl)
Maps-add_node (suc fuel) (node held subs um em) n' unenc enc base other [] es (v ∷ vs) [] yu ye m d
      h =
    elim m [ ]
Maps-add_node (suc fuel) (node held subs um em) n' unenc enc base other [] es (v ∷ vs) (f ∷ fs) yu
      ye m d h =
    let (last, q) = add-last_level fuel held subs um em unenc enc base n' yu h in rw q m
Maps-add_node (suc fuel) (node held subs um em) n' unenc enc base other (u ∷ us) es [] (f ∷ fs) yu
      ye m d h =
    elim m [ ]
Maps-add_node (suc fuel) (node held subs um em) n' unenc enc base other (u ∷ us) es [] []
      (unenc', un, yu) ye m d h =
    let (e, enc', sub, en, c1, c2, a, q) =
      add-next_level fuel held subs um em unenc enc base n' u unenc' un h in
    rw q m
Maps-add_node (suc fuel) (node held subs um em) n' unenc enc base other (u ∷ us) es (v ∷ vs) [] yu
      ye m d h =
    elim m [ ]
Maps-add_node (suc fuel) (node held subs um em) n' unenc enc base other (u ∷ us) [] (v ∷ vs)
      (f ∷ fs) (unenc', un, yu) ye m d h =
    let (e, enc', sub, en, c1, c2, a, q) =
      add-next_level fuel held subs um em unenc enc base n' u unenc' un h in
    absurd (cc)
Maps-add_node (suc fuel) (node held subs um em) n' unenc enc base other (u ∷ us) (e0 ∷ es) (v ∷ vs)
      (f ∷ fs) (unenc', un, yu) (enc0, en0, ye) (mu, me, below, at_v, m) d h =
    let (e, enc', sub, en, c1, c2, a, q) =
      add-next_level fuel held subs um em unenc enc base n' u unenc' un h in
    let same_part : e0 ≡ e = cc in
    let same_rest : enc0 ≡ enc' = cc in
    elim (Bool-cases (bytes_eq u v)) [
      | inl same ↦
          let uv : v ≡ u = sym (bytes_eq→eq u v same) in
          let fe : f ≡ e = conflicts-get um u e f c2 (rw uv at mu) in
          let tails : vs ≢ us = λ t. d (ap (◌∷◌ v) t ∙ ap (λ (x : Bytes). x ∷ us) uv) in
          let found : get_child u subs ≡ some below = rw uv at at_v in
          let kept =
            Maps-add_node fuel below sub unenc' enc' base other us es vs fs yu (rw (← same_rest) ye)
              m tails (rw found at a) in
          rw q (
            rw uv (
              rw fe (
                get-insert_same u e um,
                get-insert_same e u em,
                sub,
                get-put_child_same u sub subs,
                kept,
              )))
      | inr differ ↦
          let apart : bytes_eq e f ≡ false = separate e v me c1 differ in
          rw q (
            rw (get-insert v u e um) (rw differ mu),
            rw (get-insert f e u em) (rw apart me),
            below,
            rw (get-put_child v u sub subs) (rw differ at_v),
            m,
          )
    ]
  where
    separate :
        (e v : Bytes)
        → get f em ≡ some v
        → conflicts em e u ≡ false
        → bytes_eq u v ≡ false
        → bytes_eq e f ≡ false
    separate e v me c differ = elim (Bool-cases (bytes_eq e f)) [
      | inr apart ↦ apart
      | inl same ↦
          let ef = bytes_eq→eq e f same in
          let vu : v ≡ u = conflicts-get em e u v c (rw ef me) in
          absurd (let k = bytes_eq_refl u in let k' : bytes_eq u u ≡ false = rw vu at differ in cc)
    ]

-- Next to a held mapping one is added only if both of its paths are the same, or both differ.
pub Maps-add_node_paired :
    (fuel : ℕ) (n n' : Node) (unenc enc : PathIter) (base other : Base) (us es vs fs : List Bytes)
    → Yields unenc us
    → Yields enc es
    → Maps vs fs n other
    → add_node fuel n unenc enc base ≡ ok n'
    → (vs ≡ us) ↔ (fs ≡ es)
Maps-add_node_paired zero n n' unenc enc base other us es vs fs yu ye m h =
    absurd (unfold add_node in cc)
Maps-add_node_paired (suc fuel) (node held subs um em) n' unenc enc base other [] (e ∷ es) vs fs yu
      (enc', en, ye) m h =
    let (last, q) = add-last_level fuel held subs um em unenc enc base n' yu h in absurd (cc)
Maps-add_node_paired (suc fuel) (node held subs um em) n' unenc enc base other [] [] [] [] yu ye m
      h =
    (λ p. refl, λ p. refl)
Maps-add_node_paired (suc fuel) (node held subs um em) n' unenc enc base other [] [] [] (f ∷ fs) yu
      ye m h =
    elim m [ ]
Maps-add_node_paired (suc fuel) (node held subs um em) n' unenc enc base other [] [] (v ∷ vs) [] yu
      ye m h =
    elim m [ ]
Maps-add_node_paired (suc fuel) (node held subs um em) n' unenc enc base other [] [] (v ∷ vs)
      (f ∷ fs) yu ye m h =
    (λ p. cc, λ p. cc)
Maps-add_node_paired (suc fuel) (node held subs um em) n' unenc enc base other (u ∷ us) [] vs fs
      (unenc', un, yu) ye m h =
    let (e, enc', sub, en, c1, c2, a, q) =
      add-next_level fuel held subs um em unenc enc base n' u unenc' un h in
    absurd (cc)
Maps-add_node_paired (suc fuel) (node held subs um em) n' unenc enc base other (u ∷ us) (e ∷ es) []
      [] yu ye m h =
    (λ p. cc, λ p. cc)
Maps-add_node_paired (suc fuel) (node held subs um em) n' unenc enc base other (u ∷ us) (e ∷ es) []
      (f ∷ fs) yu ye m h =
    elim m [ ]
Maps-add_node_paired (suc fuel) (node held subs um em) n' unenc enc base other (u ∷ us) (e ∷ es)
      (v ∷ vs) [] yu ye m h =
    elim m [ ]
Maps-add_node_paired (suc fuel) (node held subs um em) n' unenc enc base other (u ∷ us) (e0 ∷ es)
      (v ∷ vs) (f ∷ fs) (unenc', un, yu) (enc0, en0, ye) (mu, me, below, at_v, m) h =
    let (e, enc', sub, en, c1, c2, a, q) =
      add-next_level fuel held subs um em unenc enc base n' u unenc' un h in
    let same_part : e0 ≡ e = cc in
    let same_rest : enc0 ≡ enc' = cc in
    let tails : v ≡ u → (vs ≡ us) ↔ (fs ≡ es) = λ uv.
      let found : get_child u subs ≡ some below = rw uv at at_v in
      Maps-add_node_paired fuel below sub unenc' enc' base other us es vs fs yu
        (rw (← same_rest) ye) m (rw found at a) in
    (
      λ p.
          let uv : v ≡ u = cc in
          let fe : f ≡ e = conflicts-get um u e f c2 (rw uv at mu) in
          let rest : vs ≡ us = cc in let rest' = (tails uv).0 rest in cc,
      λ p.
          let fe : f ≡ e = cc in
          let uv : v ≡ u = conflicts-get em e u v c1 (rw fe at me) in
          let rest : fs ≡ es = cc in let rest' = (tails uv).1 rest in cc,
    )
