-- ===== src/Encryption/Store/Mapped.antt =====
-- The store as a table of mappings: what `add_with_cipher` adds, keeps and refuses, and what the
-- two lookups find.
use storj_uplink.Encryption.Error.{conflict}
use storj_uplink.Encryption.Cipher.{CipherSuite, Key}
use storj_uplink.Encryption.Path.{new, join_components, remaining_components}
use storj_uplink.Encryption.Path.Iter.{join-remaining_components}
use storj_uplink.Encryption.Path.Steps.{Yields, Yields-new, length-remaining_components}
use storj_uplink.Encryption.Store.{
  Base, Revealed, Node, Lookup, Store, or_empty, with_bypass, add_node, add_with_cipher, lookup,
  lookup_root, apply_bypass, lookup_unencrypted, lookup_encrypted, lookup_node,
}
use storj_uplink.Encryption.Store.Steps.{add_node_total}
use storj_uplink.Encryption.Store.Mappings.{
  Maps, add_node-Maps, Maps-add_node, Maps-add_node_paired,
}
use storj_uplink.Encryption.Store.Ends.{end_maps, Extends, Extend, Extend-refl, end_maps-add_node}
use storj_uplink.Encryption.Store.Lookups.{IsHit, lookup_node-Maps}
use storj_uplink.Common.Tables.{get, insert, get-insert}
use storj_uplink.Common.{
  suc, ◌≡◌, ◌≢◌, ◌↔◌, ◌⊎◌, inl, inr, refl, sym, ap, ◌∙◌, arith, Bool, true, false, List, [], none,
  some, Bool-cases, ok, err, >>=-eq-ok, Result-cases, Bytes, bytes_eq, bytes_eq_refl, bytes_eq→eq,
  length,
}

abbrev pub new_base : Bytes → Bytes → Key → CipherSuite → Base
new_base unenc enc key cipher = record {
  unencrypted = unenc;
  encrypted = enc;
  key = key;
  path_cipher = cipher;
  default = false;
}

abbrev components : Bytes → List Bytes
components raw = remaining_components (new raw)

-- The bucket's trie holds the base at the two paths.
abbrev pub IsMapped : Store → Bytes → Bytes → Bytes → Base → Type 0
IsMapped s bucket unenc enc base =
    (root : Node) × (get bucket s.roots ≡ some root)
    × Maps (components unenc) (components enc) root base

pub add_with_cipher_inv :
    (s s' : Store) (bucket unenc enc : Bytes) (key : Key) (cipher : CipherSuite)
    → add_with_cipher s bucket unenc enc key cipher ≡ ok s'
    → (root : Node) × (add_node
          (suc (suc (length unenc)))
          (or_empty (get bucket s.roots))
          (new unenc)
          (new enc)
          (new_base unenc enc key cipher)
        ≡ ok root)
      × (s' ≡ record s { roots = insert bucket root s.roots })
unfolding add_with_cipher
add_with_cipher_inv s s' bucket unenc enc key cipher h =
    let (root, a, q) =
      >>=-eq-ok
        (add_node (suc (suc (length unenc))) (or_empty (get bucket s.roots)) (new unenc) (new enc)
          (new_base unenc enc key cipher))
        _ h in
    (root, a, cc)

pub add_with_cipher-IsMapped :
    (s s' : Store) (bucket unenc enc : Bytes) (key : Key) (cipher : CipherSuite)
    → add_with_cipher s bucket unenc enc key cipher ≡ ok s'
    → IsMapped s' bucket unenc enc (new_base unenc enc key cipher)
add_with_cipher-IsMapped s s' bucket unenc enc key cipher h =
    let (root, a, q) = add_with_cipher_inv s s' bucket unenc enc key cipher h in
    let m =
      add_node-Maps _ _ root (new unenc) (new enc) _ _ _ (Yields-new unenc) (Yields-new enc) a in
    rw q (root, rw (get-insert bucket bucket root s.roots) (rw (bytes_eq_refl bucket) refl), m)

components_injective : (v u : Bytes) → components v ≡ components u → v ≡ u
components_injective v u h =
    sym (join-remaining_components v) ∙ ap join_components h ∙ join-remaining_components u

-- Another bucket's mapping, or one of another plain path, stays.
pub IsMapped-add_with_cipher :
    (s s' : Store) (bucket unenc enc : Bytes) (key : Key) (cipher : CipherSuite)
    (bucket' unenc' enc' : Bytes) (base : Base)
    → add_with_cipher s bucket unenc enc key cipher ≡ ok s'
    → IsMapped s bucket' unenc' enc' base
    → (bytes_eq bucket bucket' ≡ false) ⊎ (unenc' ≢ unenc)
    → IsMapped s' bucket' unenc' enc' base
IsMapped-add_with_cipher s s' bucket unenc enc key cipher bucket' unenc' enc' base h (root', g, m)
      apart =
    let (root, a, q) = add_with_cipher_inv s s' bucket unenc enc key cipher h in
    let after = get-insert bucket' bucket root s.roots in
    elim (Bool-cases (bytes_eq bucket bucket')) [
      | inr differ ↦ rw q (root', rw after (rw differ g), m)
      | inl same ↦ elim apart [
        | inl differ ↦ absurd (let no_way = sym same ∙ differ in cc)
        | inr paths ↦
            let one : bucket ≡ bucket' = bytes_eq→eq bucket bucket' same in
            let found : or_empty (get bucket s.roots) ≡ root' = rw (rw (sym one) at g) refl in
            let kept =
              Maps-add_node _ root' root (new unenc) (new enc) _ base (components unenc)
                (components enc) (components unenc') (components enc') (Yields-new unenc)
                (Yields-new enc) m (λ e. paths (components_injective unenc' unenc e))
                (rw found at a) in
            rw q (root, rw after (rw same refl), kept)
      ]
    ]

-- What a lookup gives for a base that is found: the base under the store's bypass.
abbrev pub IsFound : Store → Base → Lookup → Type 0
IsFound s base found =
    (found.base ≡ with_bypass s.encryption_bypass (some base))
    × Yields found.remaining []
    × (r : Revealed) × (found.revealed ≡ some r)

-- The same, with the map that is revealed.
abbrev pub IsFoundWith : Store → Base → Revealed → Lookup → Type 0
IsFoundWith s base r found =
    (found.base ≡ with_bypass s.encryption_bypass (some base))
    × Yields found.remaining []
    × (found.revealed ≡ some r)

lookup-lookup_root :
    (s : Store) (bucket path : Bytes) (base : Base) (unenc : Bool) (walked : Lookup)
    → lookup_root (get bucket s.roots) path unenc ≡ walked
    → walked.base ≡ some base
    → lookup s bucket path unenc
      ≡ record walked { base = with_bypass s.encryption_bypass (some base) }
unfolding lookup apply_bypass
lookup-lookup_root s bucket path base unenc walked e h = rw (e, lookup) (ground (arith, h))

lookup_hit :
    (s : Store) (bucket path : Bytes) (base : Base) (r : Revealed) (unenc : Bool) (walked : Lookup)
    → lookup_root (get bucket s.roots) path unenc ≡ walked
    → IsHit base r walked
    → IsFoundWith s base r (lookup s bucket path unenc)
lookup_hit s bucket path base r unenc walked e (b, y, q) =
    rw (lookup-lookup_root s bucket path base unenc walked e b) (refl, y, q)

lookup_root-get :
    (s : Store) (bucket path : Bytes) (root : Node) (unenc : Bool)
    → get bucket s.roots ≡ some root
    → lookup_root (get bucket s.roots) path unenc ≡ lookup_node root (new path) (new []) none unenc
unfolding lookup_root
lookup_root-get s bucket path root unenc g = rw g refl

-- Both lookups, with the maps at the end of the walk.
lookup-ends :
    (s : Store) (bucket unenc enc : Bytes) (base : Base) (root : Node)
    → get bucket s.roots ≡ some root
    → Maps (components unenc) (components enc) root base
    → IsFoundWith s base (end_maps (components unenc) root).1 (lookup_unencrypted s bucket unenc)
      × IsFoundWith s base (end_maps (components unenc) root).0 (lookup_encrypted s bucket enc)
unfolding lookup_unencrypted lookup_encrypted
lookup-ends s bucket unenc enc base root g m = (
  lookup_hit s bucket unenc base _ true _ (lookup_root-get s bucket unenc root true g) (
      lookup_node-Maps (components unenc) (components enc) root base (new unenc) (new []) none true
        m (Yields-new unenc)),
  lookup_hit s bucket enc base _ false _ (lookup_root-get s bucket enc root false g) (
      lookup_node-Maps (components unenc) (components enc) root base (new enc) (new []) none false m
        (Yields-new enc)),
)

pub lookup-IsMapped :
    (s : Store) (bucket unenc enc : Bytes) (base : Base)
    → IsMapped s bucket unenc enc base
    → IsFound s base (lookup_unencrypted s bucket unenc)
      × IsFound s base (lookup_encrypted s bucket enc)
lookup-IsMapped s bucket unenc enc base (root, g, m) =
    let ((b, y, q), (b', y', q')) = lookup-ends s bucket unenc enc base root g m in
    (
      (b, y, (end_maps (components unenc) root).1, q),
      (b', y', (end_maps (components unenc) root).0, q'),
    )

-- After `add_with_cipher` succeeds, both lookups, by the plain path and by the encrypted one, give
-- the base that was added (under the bypass with the null cipher), nothing left over of the path,
-- and a map of revealed components.
pub lookup-add_with_cipher :
    (s s' : Store) (bucket unenc enc : Bytes) (key : Key) (cipher : CipherSuite)
    → add_with_cipher s bucket unenc enc key cipher ≡ ok s'
    → IsFound s' (new_base unenc enc key cipher) (lookup_unencrypted s' bucket unenc)
      × IsFound s' (new_base unenc enc key cipher) (lookup_encrypted s' bucket enc)
lookup-add_with_cipher s s' bucket unenc enc key cipher h =
    lookup-IsMapped s' bucket unenc enc _
      (add_with_cipher-IsMapped s s' bucket unenc enc key cipher h)

-- What a lookup gives after an add, against what it gave before: the base, nothing left over, and
-- every entry of the map of revealed components.
abbrev pub IsKept : Store → Base → Lookup → Lookup → Type 0
IsKept s base before after =
    (after.base ≡ with_bypass s.encryption_bypass (some base))
    × Yields after.remaining []
    × (r r' : Revealed) × (before.revealed ≡ some r)
    × (after.revealed ≡ some r')
    × Extends r r'

-- The root of a held mapping, and the root of its bucket after an add.
ends-add_with_cipher :
    (s s' : Store) (bucket unenc enc : Bytes) (key : Key) (cipher : CipherSuite)
    (bucket' unenc' enc' : Bytes) (base : Base) (before after : Node)
    → add_with_cipher s bucket unenc enc key cipher ≡ ok s'
    → get bucket' s.roots ≡ some before
    → Maps (components unenc') (components enc') before base
    → get bucket' s'.roots ≡ some after
    → Extend (end_maps (components unenc') before) (end_maps (components unenc') after)
ends-add_with_cipher s s' bucket unenc enc key cipher bucket' unenc' enc' base before after h g m
      g' =
    let (root, a, q) = add_with_cipher_inv s s' bucket unenc enc key cipher h in
    let held : get bucket' (insert bucket root s.roots) ≡ some after = rw q at g' in
    let read = get-insert bucket' bucket root s.roots in
    elim (Bool-cases (bytes_eq bucket bucket')) [
      | inr differ ↦
          let same : after ≡ before =
            (let r : get bucket' (insert bucket root s.roots) ≡ some before =
                rw read (rw differ g) in
              cc) in
          rw same (Extend-refl (end_maps (components unenc') before))
      | inl e ↦
          let one : bucket ≡ bucket' = bytes_eq→eq bucket bucket' e in
          let same : after ≡ root =
            (let r : get bucket' (insert bucket root s.roots) ≡ some root = rw read (rw e refl) in
              cc) in
          let found : or_empty (get bucket s.roots) ≡ before = rw (rw (sym one) at g) refl in
          let kept =
            end_maps-add_node _ before root (new unenc) (new enc) _ base (components unenc)
              (components enc) (components unenc') (components enc') (Yields-new unenc)
              (Yields-new enc) m (rw found at a) in
          rw same kept
    ]

-- After a later add of another plain path, or in another bucket, the two lookups of the first
-- mapping's paths still give its base, nothing left over of the path, and a map of revealed
-- components with every entry that it had before the later add.
pub lookup-add_with_cipher_other :
    (s s1 s2 : Store) (bucket unenc enc : Bytes) (key : Key) (cipher : CipherSuite)
    (bucket' unenc' enc' : Bytes) (key' : Key) (cipher' : CipherSuite)
    → add_with_cipher s bucket unenc enc key cipher ≡ ok s1
    → add_with_cipher s1 bucket' unenc' enc' key' cipher' ≡ ok s2
    → (bytes_eq bucket' bucket ≡ false) ⊎ (unenc ≢ unenc')
    → IsKept s2
        (new_base unenc enc key cipher)
        (lookup_unencrypted s1 bucket unenc)
        (lookup_unencrypted s2 bucket unenc)
      × IsKept s2
          (new_base unenc enc key cipher)
          (lookup_encrypted s1 bucket enc)
          (lookup_encrypted s2 bucket enc)
lookup-add_with_cipher_other s s1 s2 bucket unenc enc key cipher bucket' unenc' enc' key' cipher' h
      h' apart =
    let base = new_base unenc enc key cipher in
    let first = add_with_cipher-IsMapped s s1 bucket unenc enc key cipher h in
    let (before, g, m) = first in
    let (after, g', m') =
      IsMapped-add_with_cipher s1 s2 bucket' unenc' enc' key' cipher' bucket unenc enc _ h' first
        apart in
    let ((_, _, p), (_, _, p')) = lookup-ends s1 bucket unenc enc base before g m in
    let ((b, y, q), (b', y', q')) = lookup-ends s2 bucket unenc enc base after g' m' in
    let (more, more') =
      ends-add_with_cipher s1 s2 bucket' unenc' enc' key' cipher' bucket unenc enc base before after
        h' g m g' in
    ((b, y, _, _, p, q, more'), (b', y', _, _, p', q', more))

add_with_cipher_total :
    (s : Store) (bucket unenc enc : Bytes) (key : Key) (cipher : CipherSuite)
    → ((s' : Store) × (add_with_cipher s bucket unenc enc key cipher ≡ ok s'))
      ⊎ (add_with_cipher s bucket unenc enc key cipher ≡ err conflict)
unfolding add_with_cipher
add_with_cipher_total s bucket unenc enc key cipher =
    let root = or_empty (get bucket s.roots) in
    let fuel = suc (suc (length unenc)) in
    let base = new_base unenc enc key cipher in
    let answer =
      add_node_total fuel root (new unenc) (new enc) base (components unenc) (Yields-new unenc)
        (omega (arith, length-remaining_components unenc)) in
    elim (Result-cases (add_node fuel root (new unenc) (new enc) base)) [
      | inl (n, a) ↦ inl (record s { roots = insert bucket n s.roots }, rw a refl)
      | inr (e, a) ↦ let which : e ≡ conflict = rw a at answer in inr (rw (a, which) refl)
    ]

-- Next to a mapping that the bucket holds, adding one that shares the plain path but not the
-- encrypted one, or the encrypted path but not the plain one, is refused with a conflict.
pub add_with_cipher_conflict :
    (s : Store) (bucket unenc enc : Bytes) (key : Key) (cipher : CipherSuite) (unenc' enc' : Bytes)
    (base : Base)
    → IsMapped s bucket unenc' enc' base
    → ¬ ((unenc' ≡ unenc) ↔ (enc' ≡ enc))
    → add_with_cipher s bucket unenc enc key cipher ≡ err conflict
add_with_cipher_conflict s bucket unenc enc key cipher unenc' enc' base (root', g, m) differ =
    elim (add_with_cipher_total s bucket unenc enc key cipher) [
      | inr refused ↦ refused
      | inl (s', h) ↦
          let (root, a, q) = add_with_cipher_inv s s' bucket unenc enc key cipher h in
          let found : or_empty (get bucket s.roots) ≡ root' = rw g refl in
          let paired =
            Maps-add_node_paired _ root' root (new unenc) (new enc) _ base (components unenc)
              (components enc) (components unenc') (components enc') (Yields-new unenc)
              (Yields-new enc) m (rw found at a) in
          absurd (
            differ (
              λ e. components_injective enc' enc (paired.0 (ap components e)),
              λ e. components_injective unenc' unenc (paired.1 (ap components e)),
            ))
    ]
