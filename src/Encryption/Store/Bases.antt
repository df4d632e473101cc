-- ===== src/Encryption/Store/Bases.antt =====
-- The bases that a store holds: a predicate on all of them is kept by an add, and it holds of each
-- base that `iterate_with_cipher` visits.
use mathlib.Core.Path.{subst}
use storj_uplink.Encryption.Error.{Error}
use storj_uplink.Encryption.Cipher.{CipherSuite, Key}
use storj_uplink.Encryption.Path.{PathIter, next, new}
use storj_uplink.Encryption.Store.{
  Base, Node, node, Children, no_children, child, or_empty, get_child, put_child, add_node, Store,
  add_with_cipher, visit_base, iterate_node, iterate_children, iterate_roots, iterate_with_cipher,
}
use storj_uplink.Encryption.Store.Steps.{add-last_level, add-next_level}
use storj_uplink.Encryption.Store.Mapped.{new_base, add_with_cipher_inv}
use storj_uplink.Common.Tables.{get, insert}
use storj_uplink.Common.{
  ℕ, zero, suc, ◌≡◌, inl, inr, refl, sym, List, [], ◌∷◌, Option, none, some, Bool-cases,
  Option-cases, Result, ok, >>=-eq-ok, Bytes, bytes_eq, bytes_eq→eq, length, All,
}

module _ (P : Base → Type 0) where
  unfoldable mutual
    pub AllNode : Node → Type 0
    AllNode (node held subs um em) = ((b : Base) → held ≡ some b → P b) × AllChildren subs

    pub AllChildren : Children → Type 0
    AllChildren no_children = Unit
    AllChildren (child name sub more) = AllNode sub × AllChildren more

  get_child-All :
      (subs : Children) (name : Bytes) → AllChildren subs → AllNode (or_empty (get_child name subs))
  unfolding AllNode get_child
  get_child-All no_children name h = (λ b e. absurd (cc), tt)
  get_child-All (child n sub more) name h = elim (Bool-cases (bytes_eq n name)) [
    | inl e ↦ rw (e, get_child) h.0
    | inr e ↦ rw (e, get_child) (get_child-All more name h.1)
  ]

  put_child-All :
      (subs : Children) (name : Bytes) (value : Node)
      → AllChildren subs
      → AllNode value
      → AllChildren (put_child name value subs)
  unfolding AllNode put_child
  put_child-All no_children name value h v = (v, tt)
  put_child-All (child n sub more) name value h v = elim (Bool-cases (bytes_eq n name)) [
    | inl e ↦ rw (e, put_child) (v, h.1)
    | inr e ↦ rw (e, put_child) (h.0, put_child-All more name value h.1 v)
  ]

  pub AllNode-add_node :
      (fuel : ℕ) (n n' : Node) (unenc enc : PathIter) (base : Base)
      → AllNode n
      → P base
      → add_node fuel n unenc enc base ≡ ok n'
      → AllNode n'
  unfolding AllNode
  AllNode-add_node zero n n' unenc enc base h p e = absurd (unfold add_node in cc)
  AllNode-add_node (suc fuel) (node held subs um em) n' unenc enc base h p e =
      elim (Option-cases (next unenc)) [
        | inl last ↦
            let (q, same) = add-last_level fuel held subs um em unenc enc base n' last e in
            rw same (λ b is. let k : base ≡ b = cc in rw (sym k) p, h.1)
        | inr ((u, unenc'), more) ↦
            let (part, enc', sub, en, c1, c2, a, same) =
              add-next_level fuel held subs um em unenc enc base n' u unenc' more e in
            let below =
              AllNode-add_node fuel (or_empty (get_child u subs)) sub unenc' enc' base
                (get_child-All subs u h.1) p a in
            rw same (h.0, put_child-All subs u sub h.1 below)
      ]

module _ (P : Bytes → Base → Type 0) where
  abbrev pub AllRoots : List (Bytes × Node) → Type 0
  AllRoots = All (λ entry. AllNode (P entry.0) entry.1)

  get-All :
      (roots : List (Bytes × Node)) (bucket : Bytes)
      → AllRoots roots
      → AllNode (P bucket) (or_empty (get bucket roots))
  unfolding get AllNode
  get-All [] bucket h = (λ b e. absurd (cc), tt)
  get-All ((k, n) ∷ roots) bucket h = elim (Bool-cases (bytes_eq k bucket)) [
    | inl e ↦ let same : k ≡ bucket = bytes_eq→eq k bucket e in rw (e, get) (rw same at h.0)
    | inr e ↦ rw (e, get) (get-All roots bucket h.1)
  ]

  insert-All :
      (roots : List (Bytes × Node)) (bucket : Bytes) (n : Node)
      → AllRoots roots
      → AllNode (P bucket) n
      → AllRoots (insert bucket n roots)
  unfolding insert
  insert-All [] bucket n h v = (v, tt)
  insert-All ((k, m) ∷ roots) bucket n h v = elim (Bool-cases (bytes_eq k bucket)) [
    | inl e ↦ let same : k ≡ bucket = bytes_eq→eq k bucket e in rw (e, insert) (rw same v, h.1)
    | inr e ↦ rw (e, insert) (h.0, insert-All roots bucket n h.1 v)
  ]

  -- Every base of the store satisfies the predicate, with its bucket.
  abbrev pub AllBases : Store → Type 0
  AllBases s = AllRoots s.roots

  pub AllBases-add_with_cipher :
      (s s' : Store) (bucket unenc enc : Bytes) (key : Key) (cipher : CipherSuite)
      → AllBases s
      → P bucket (new_base unenc enc key cipher)
      → add_with_cipher s bucket unenc enc key cipher ≡ ok s'
      → AllBases s'
  AllBases-add_with_cipher s s' bucket unenc enc key cipher h p e =
      let (root, a, q) = add_with_cipher_inv s s' bucket unenc enc key cipher e in
      let n =
        AllNode-add_node (P bucket) (suc (suc (length unenc))) (or_empty (get bucket s.roots)) root
          (new unenc) (new enc) (new_base unenc enc key cipher) (get-All s.roots bucket h) p a in
      rw q (insert-All s.roots bucket root h n)

  -- An invariant of the callback, which may assume the predicate, holds after the iteration.
  module _ {ℓ κ} {S : Type ℓ} (fn : S → Bytes → Base → Result Error S) (I : S → Type κ)
      (keeps : (s s' : S) (bucket : Bytes) (b : Base)
        → P bucket b
        → I s
        → fn s bucket b ≡ ok s'
        → I s') where
    visit_base-keeps :
        (bucket : Bytes) (held : Option Base) (s s' : S)
        → ((b : Base) → held ≡ some b → P bucket b)
        → I s
        → visit_base fn bucket held s ≡ ok s'
        → I s'
    visit_base-keeps bucket none s s' p i h = let e : s ≡ s' = cc in subst I e i
    visit_base-keeps bucket (some b) s s' p i h = keeps s s' bucket b (p b refl) i h

    mutual
      unfolding iterate_node AllNode

      iterate_node-keeps :
          (n : Node) (bucket : Bytes) (s s' : S)
          → AllNode (P bucket) n
          → I s
          → iterate_node fn bucket n s ≡ ok s'
          → I s'
      iterate_node-keeps (node held subs um em) bucket s s' h i e =
          let (t, first, rest) = >>=-eq-ok (visit_base fn bucket held s) _ e in
          iterate_children-keeps subs bucket t s' h.1 (visit_base-keeps bucket held s t h.0 i first)
            rest

      iterate_children-keeps :
          (subs : Children) (bucket : Bytes) (s s' : S)
          → AllChildren (P bucket) subs
          → I s
          → iterate_children fn bucket subs s ≡ ok s'
          → I s'
      iterate_children-keeps no_children bucket s s' h i e = let q : s ≡ s' = cc in subst I q i
      iterate_children-keeps (child name sub more) bucket s s' h i e =
          let (t, first, rest) = >>=-eq-ok (iterate_node fn bucket sub s) _ e in
          iterate_children-keeps more bucket t s' h.1
            (iterate_node-keeps sub bucket s t h.0 i first) rest

    iterate_roots-keeps :
        (roots : List (Bytes × Node)) (s s' : S)
        → AllRoots roots
        → I s
        → iterate_roots fn roots s ≡ ok s'
        → I s'
    unfolding iterate_roots
    iterate_roots-keeps [] s s' h i e = let q : s ≡ s' = cc in subst I q i
    iterate_roots-keeps ((bucket, root) ∷ roots) s s' h i e =
        let (t, first, rest) = >>=-eq-ok (iterate_node fn bucket root s) _ e in
        iterate_roots-keeps roots t s' h.1 (iterate_node-keeps root bucket s t h.0 i first) rest

    pub iterate_with_cipher-keeps :
        (store : Store) (s s' : S)
        → AllBases store
        → I s
        → iterate_with_cipher fn store s ≡ ok s'
        → I s'
    unfolding iterate_with_cipher
    iterate_with_cipher-keeps store s s' h i e = iterate_roots-keeps store.roots s s' h i e
