-- ===== src/Encryption/Store/Ends.antt =====
-- The two maps of the node at the end of a walk by plain components, empty where the walk breaks off:
-- an add keeps their entries.
use storj_uplink.Encryption.Path.{PathIter}
use storj_uplink.Encryption.Path.Steps.{Yields}
use storj_uplink.Encryption.Store.{
  Base, Revealed, Node, node, Children, get_child, put_child, conflicts, add_node,
}
use storj_uplink.Encryption.Store.Steps.{
  get-put_child, conflicts-get, add-last_level, add-next_level,
}
use storj_uplink.Encryption.Store.Mappings.{Maps}
use storj_uplink.Common.Tables.{get, insert, get-insert}
use storj_uplink.Common.{
  ℕ, zero, suc, ◌≡◌, inl, inr, refl, sym, false, List, [], ◌∷◌, Option, none, some, Bool-cases, ok,
  Bytes, bytes_eq, bytes_eq→eq,
}

unfoldable pub end_maps : List Bytes → Node → Revealed × Revealed
unfolding get_child
end_maps [] (node held subs um em) = (um, em)
end_maps (u ∷ us) (node held subs um em) = elim (get_child u subs) [
  | none ↦ ([], [])
  | some sub ↦ end_maps us sub
]

pub end_maps-child :
    (u : Bytes) (us : List Bytes) (held : Option Base) (subs : Children) (um em : Revealed)
    (sub : Node)
    → get_child u subs ≡ some sub
    → end_maps (u ∷ us) (node held subs um em) ≡ end_maps us sub
unfolding end_maps
end_maps-child u us held subs um em sub h = rw (h, end_maps) refl

-- Every entry of one map is an entry of the other.
abbrev pub Extends : Revealed → Revealed → Type 0
Extends r r' = (key value : Bytes) → get key r ≡ some value → get key r' ≡ some value

abbrev pub Extend : Revealed × Revealed → Revealed × Revealed → Type 0
Extend maps maps' = Extends maps.0 maps'.0 × Extends maps.1 maps'.1

pub Extend-refl : (maps : Revealed × Revealed) → Extend maps maps
Extend-refl maps = (λ key value h. h, λ key value h. h)

Extends-insert :
    (r : Revealed) (key value : Bytes)
    → conflicts r key value ≡ false
    → Extends r (insert key value r)
Extends-insert r key value c wanted found h = elim (Bool-cases (bytes_eq key wanted)) [
  | inl e ↦
      let same : key ≡ wanted = bytes_eq→eq key wanted e in
      let held : found ≡ value = conflicts-get r key value found c (rw same h) in
      rw (get-insert wanted key value r) (rw e (rw held refl))
  | inr e ↦ rw (get-insert wanted key value r) (rw e h)
]

-- Next to a held mapping, an add keeps the entries of the maps at its end.
pub end_maps-add_node :
    (fuel : ℕ) (n n' : Node) (unenc enc : PathIter) (base other : Base) (us es vs fs : List Bytes)
    → Yields unenc us
    → Yields enc es
    → Maps vs fs n other
    → add_node fuel n unenc enc base ≡ ok n'
    → Extend (end_maps vs n) (end_maps vs n')
unfolding end_maps
end_maps-add_node zero n n' unenc enc base other us es vs fs yu ye m h =
    absurd (unfold add_node in cc)
end_maps-add_node (suc fuel) (node held subs um em) n' unenc enc base other [] es [] fs yu ye m h =
    let (last, q) = add-last_level fuel held subs um em unenc enc base n' yu h in
    rw q (Extend-refl (um, em))
end_maps-add_node (suc fuel) (node held subs um em) n' unenc enc base other [] es (v ∷ vs) fs yu ye
      m h =
    let (last, q) = add-last_level fuel held subs um em unenc enc base n' yu h in
    rw q (Extend-refl (end_maps (v ∷ vs) (node held subs um em)))
end_maps-add_node (suc fuel) (node held subs um em) n' unenc enc base other (u ∷ us) es [] fs
      (unenc', un, yu) ye m h =
    let (e, enc', sub, en, c1, c2, a, q) =
      add-next_level fuel held subs um em unenc enc base n' u unenc' un h in
    rw q (Extends-insert um u e c2, Extends-insert em e u c1)
end_maps-add_node (suc fuel) (node held subs um em) n' unenc enc base other (u ∷ us) es (v ∷ vs) []
      yu ye m h =
    elim m [ ]
end_maps-add_node (suc fuel) (node held subs um em) n' unenc enc base other (u ∷ us) [] (v ∷ vs)
      (f ∷ fs) (unenc', un, yu) ye m h =
    let (e, enc', sub, en, c1, c2, a, q) =
      add-next_level fuel held subs um em unenc enc base n' u unenc' un h in
    absurd (cc)
end_maps-add_node (suc fuel) (node held subs um em) n' unenc enc base other (u ∷ us) (e0 ∷ es)
      (v ∷ vs) (f ∷ fs) (unenc', un, yu) (enc0, en0, ye) (mu, me, below, at_v, m) h =
    let (e, enc', sub, en, c1, c2, a, q) =
      add-next_level fuel held subs um em unenc enc base n' u unenc' un h in
    let same_rest : enc0 ≡ enc' = cc in
    elim (Bool-cases (bytes_eq u v)) [
      | inl same ↦
          let uv : v ≡ u = sym (bytes_eq→eq u v same) in
          let found : get_child u subs ≡ some below = rw uv at at_v in
          let after : get_child v (put_child u sub subs) ≡ some sub =
            rw (get-put_child v u sub subs) (rw same refl) in
          let kept =
            end_maps-add_node fuel below sub unenc' enc' base other us es vs fs yu
              (rw (← same_rest) ye) m (rw found at a) in
          rw q (
            rw (end_maps-child v vs held subs um em below at_v) (
              rw
                (end_maps-child v vs held (put_child u sub subs) (insert u e um) (insert e u em) sub
                  after)
                kept))
      | inr differ ↦
          let after : get_child v (put_child u sub subs) ≡ some below =
            rw (get-put_child v u sub subs) (rw differ at_v) in
          rw q (
            rw (end_maps-child v vs held subs um em below at_v) (
              rw
                (end_maps-child v vs held (put_child u sub subs) (insert u e um) (insert e u em)
                  below after)
                (Extend-refl (end_maps vs below))))
    ]
