-- ===== src/Access/Prefixes/Meaning.antt =====
-- What the collapsed prefixes allow: exactly the paths that every non-empty caveat allows.
use mathlib.Core.List.{append_assoc, append-nil}
use storj_uplink.Common.Members.{
  Elem, here, any, all, retain, any-Elem, Elem-any, all-Elem, all_intro, Elem-retain, retain-Elem,
  Elem-append_left, Elem-append_right,
}
use storj_uplink.Access.Error.{Error}
use storj_uplink.Access.Prefixes.{CaveatPath, Group, is_empty, is_within, gather, collapse_prefixes}
use storj_uplink.Common.{
  ◌≤◌, ◌≡◌, ◌⊎◌, inl, inr, refl, sym, ◌∙◌, arith, Bool, true, false, List, [], ◌∷◌, ◌++◌, ltb,
  Bool-cases, Result, ok, err, >>=-eq-ok, Result-cases, Bytes, bytes_eq→eq, bytes_eq_iff,
  starts_with, length,
}

starts_with_trans :
    (a b c : Bytes) → starts_with a b ≡ true → starts_with b c ≡ true → starts_with a c ≡ true
unfolding starts_with
starts_with_trans a b [] h k = refl
starts_with_trans a [] (z ∷ c) h k = cc
starts_with_trans [] (y ∷ b) (z ∷ c) h k = cc
starts_with_trans (x ∷ a) (y ∷ b) (z ∷ c) h k = ground (arith, starts_with_trans a b c)

starts_with_comparable :
    (a b c : Bytes)
    → starts_with a b ≡ true
    → starts_with a c ≡ true
    → length c ≤ length b
    → starts_with b c ≡ true
unfolding starts_with
starts_with_comparable a b [] h k l = refl
starts_with_comparable a [] (z ∷ c) h k l = absurd (omega arith)
starts_with_comparable [] (y ∷ b) (z ∷ c) h k l = cc
starts_with_comparable (x ∷ a) (y ∷ b) (z ∷ c) h k l = ground (arith, starts_with_comparable a b c)

starts_with_refl : (a : Bytes) → starts_with a a ≡ true
unfolding starts_with
starts_with_refl [] = refl
starts_with_refl (x ∷ a) = ground (arith, starts_with_refl a)

is_within_parts :
    (p q : CaveatPath)
    → is_within p q ≡ true
    → (p.bucket ≡ q.bucket) × (starts_with p.encrypted_path_prefix q.encrypted_path_prefix ≡ true)
unfolding is_within
is_within_parts p q h = (bytes_eq→eq p.bucket q.bucket (ground arith), ground arith)

is_within_intro :
    (p q : CaveatPath)
    → p.bucket ≡ q.bucket
    → starts_with p.encrypted_path_prefix q.encrypted_path_prefix ≡ true
    → is_within p q ≡ true
unfolding is_within
is_within_intro p q e s = ground (arith, (bytes_eq_iff p.bucket q.bucket).1 e, s)

is_within_trans :
    (p q r : CaveatPath) → is_within p q ≡ true → is_within q r ≡ true → is_within p r ≡ true
is_within_trans p q r h k =
    let (e, s) = is_within_parts p q h in
    let (f, t) = is_within_parts q r k in is_within_intro p r (e ∙ f) (starts_with_trans _ _ _ s t)

pub is_within_refl : (p : CaveatPath) → is_within p p ≡ true
is_within_refl p = is_within_intro p p refl (starts_with_refl p.encrypted_path_prefix)

is_within_comparable :
    (r p q : CaveatPath)
    → is_within r p ≡ true
    → is_within r q ≡ true
    → length q.encrypted_path_prefix ≤ length p.encrypted_path_prefix
    → is_within p q ≡ true
is_within_comparable r p q h k l =
    let (e, s) = is_within_parts r p h in
    let (f, t) = is_within_parts r q k in
    is_within_intro p q (sym e ∙ f) (starts_with_comparable _ _ _ s t l)

-- The non-empty groups of the caveats, and their prefixes one after another.
abbrev flatten : List Group → Group
flatten [] = []
flatten (g ∷ gs) = g ++ flatten gs

module _ (decode : Bytes → Result Error Group) where
  -- The groups that restrict the key, the caveats without a path and those that fail left out.
  unfoldable pub restrictions : List Bytes → List Group
  restrictions [] = []
  restrictions (c ∷ cs) = elim (decode c) [
    | err e ↦ restrictions cs
    | ok [] ↦ restrictions cs
    | ok (p ∷ ps) ↦ (p ∷ ps) ∷ restrictions cs
  ]

  -- The rule of the satellite: a path is allowed when each restricting caveat has a prefix of it.
  unfoldable pub is_allowed : List Bytes → CaveatPath → Bool
  is_allowed caveats path = all (λ g. any (is_within path) g) (restrictions caveats)

  gather-restrictions :
      (gs gs' : List Group) (ps ps' : List CaveatPath) (cs : List Bytes)
      → gather decode gs ps cs ≡ ok (gs', ps')
      → (gs' ≡ gs ++ restrictions cs) × (ps' ≡ ps ++ flatten (restrictions cs))
  unfolding gather restrictions
  gather-restrictions gs gs' ps ps' [] h = ground (arith, append-nil gs, append-nil ps)
  gather-restrictions gs gs' ps ps' (c ∷ cs) h = elim (Result-cases (decode c)) [
    | inr (x, q) ↦ absurd (ground (arith, q))
    | inl ([], q) ↦ rw (q, restrictions) (gather-restrictions gs gs' ps ps' cs (rw q at h))
    | inl (p ∷ more, q) ↦
        let g = p ∷ more in
        let (e, f) = gather-restrictions (gs ++ g ∷ []) gs' (ps ++ g) ps' cs (rw q at h) in
        rw (q, restrictions)
          (
            e ∙ append_assoc gs (g ∷ []) (restrictions cs),
            f ∙ append_assoc ps g (flatten (restrictions cs)),
          )
  ]

both_ways : (a b : Bool) → (a ≡ true → b ≡ true) → (b ≡ true → a ≡ true) → a ≡ b
both_ways a b f g = ground (arith, f, g)

-- Among prefixes of one path, one from each group, the longest lies within them all.
longest :
    (r x : CaveatPath) (gs : List Group)
    → is_within r x ≡ true
    → all (λ g. any (is_within r) g) gs ≡ true
    → (p : CaveatPath) × ((p ≡ x) ⊎ Elem p (flatten gs))
      × (is_within r p ≡ true)
      × (is_within p x ≡ true)
      × (all (λ g. any (is_within p) g) gs ≡ true)
unfolding all
longest r x [] h k = (x, inl refl, h, is_within_refl x, refl)
longest r x (g ∷ gs) h k =
    let (y, m, j) = any-Elem (is_within r) g (ground arith) in
    elim (Bool-cases (ltb (length x.encrypted_path_prefix) (length y.encrypted_path_prefix))) [
      | inl l ↦
          let (p, at, rp, py, rest) = longest r y gs j (ground arith) in
          let px : is_within p x ≡ true =
            is_within_trans p y x py (is_within_comparable r y x j h (ground arith)) in
          (p, inr (place p y m at), rp, px, ground (arith, Elem-any (is_within p) y g m py, rest))
      | inr l ↦
          let (p, at, rp, px, rest) = longest r x gs h (ground arith) in
          let py : is_within p y ≡ true =
            is_within_trans p x y px (is_within_comparable r x y h j (ground arith)) in
          (
            p,
            elim at [ inl e ↦ inl e | inr n ↦ inr (Elem-append_right p g (flatten gs) n) ],
            rp,
            px,
            ground (arith, Elem-any (is_within p) y g m py, rest),
          )
    ]
  where
    place : (p y : CaveatPath) → Elem y g → (p ≡ y) ⊎ Elem p (flatten gs) → Elem p (g ++ flatten gs)
    place p y m (inl e) = Elem-append_left p g (flatten gs) (rw e m)
    place p y m (inr n) = Elem-append_right p g (flatten gs) n

within_all :
    (r p : CaveatPath) (gs : List Group)
    → is_within r p ≡ true
    → all (λ g. any (is_within p) g) gs ≡ true
    → all (λ g. any (is_within r) g) gs ≡ true
within_all r p gs h k =
    all_intro (λ g. any (is_within r) g) gs
      (λ g m.
        let (q, n, e) = any-Elem (is_within p) g (all-Elem (λ g. any (is_within p) g) g gs k m) in
        Elem-any (is_within r) q g n (is_within_trans r p q h e))

is_empty→eq {ℓ} : {A : Type ℓ} (xs : List A) → is_empty xs ≡ true → xs ≡ []
is_empty→eq [] h = refl
is_empty→eq (x ∷ xs) h = cc

flat_restrictions :
    (decode : Bytes → Result Error Group) (cs : List Bytes)
    → is_empty (flatten (restrictions decode cs)) ≡ true
    → restrictions decode cs ≡ []
unfolding restrictions
flat_restrictions decode [] h = refl
flat_restrictions decode (c ∷ cs) h = elim (Result-cases (decode c)) [
  | inr (x, q) ↦ rw (q, restrictions) (flat_restrictions decode cs (rw (q, restrictions) at h))
  | inl ([], q) ↦ rw (q, restrictions) (flat_restrictions decode cs (rw (q, restrictions) at h))
  | inl (p ∷ more, q) ↦ absurd (ground (arith, q, h))
]

-- The prefixes that are kept cover a path exactly when every group does.
kept_covers :
    (r : CaveatPath) (gs : List Group)
    → is_empty gs ≡ false
    → any (is_within r) (retain (λ p. all (λ g. any (is_within p) g) gs) (flatten gs))
      ≡ all (λ g. any (is_within r) g) gs
kept_covers r [] h = cc
kept_covers r (g ∷ gs) h = both_ways _ _ forth back
  where
    kept : CaveatPath → Bool
    kept p = all (λ g. any (is_within p) g) (g ∷ gs)

    forth :
        any (is_within r) (retain kept (g ++ flatten gs)) ≡ true
        → all (λ g. any (is_within r) g) (g ∷ gs) ≡ true
    forth e =
        let (p, m, w) = any-Elem (is_within r) (retain kept (g ++ flatten gs)) e in
        let (n, k) = retain-Elem kept p (g ++ flatten gs) m in within_all r p (g ∷ gs) w k

    back :
        all (λ g. any (is_within r) g) (g ∷ gs) ≡ true
        → any (is_within r) (retain kept (g ++ flatten gs)) ≡ true
    back e =
        let (x, m, w) =
          any-Elem (is_within r) g (all-Elem (λ g. any (is_within r) g) g (g ∷ gs) e here) in
        let (p, at, rp, px, rest) = longest r x (g ∷ gs) w e in
        let place : Elem p (g ++ flatten gs) = elim at [
          | inl q ↦ Elem-append_left p g (flatten gs) (rw q m)
          | inr n ↦ n
        ] in
        Elem-any (is_within r) p (retain kept (g ++ flatten gs))
          (Elem-retain kept p (g ++ flatten gs) place rest) rp

module _ (decode : Bytes → Result Error Group) where
  -- When `collapse_prefixes` reports a restricted key, the prefixes that it returns cover a path
  -- exactly when every caveat with paths has a prefix of it in the same bucket, for any decoder of
  -- caveats.
  pub collapse_prefixes-is_allowed :
      (cs : List Bytes) (ps : List CaveatPath) (path : CaveatPath)
      → collapse_prefixes decode cs ≡ ok (ps, true)
      → any (is_within path) ps ≡ is_allowed decode cs path
  unfolding collapse_prefixes is_allowed
  collapse_prefixes-is_allowed cs ps path h =
      let ((gs, prefixes), e, k) = >>=-eq-ok (gather decode [] [] cs) _ h in
      let (eg, ep) = gather-restrictions decode [] gs [] prefixes cs e in
      let shape : (is_empty gs ≡ false)
          × (ps ≡ retain (λ p. all (λ g. any (is_within p) g) gs) prefixes) =
        ground (arith, k) in
      rw shape.1 (rw ep (rw eg (kept_covers path (restrictions decode cs) (rw eg at shape.0))))

  -- When `collapse_prefixes` reports an unrestricted key, no caveat restricts it, it returns no
  -- prefix, and every path is allowed.
  pub collapse_prefixes-unrestricted :
      (cs : List Bytes) (ps : List CaveatPath)
      → collapse_prefixes decode cs ≡ ok (ps, false)
      → (restrictions decode cs ≡ [])
        × (ps ≡ [])
        × ((path : CaveatPath) → is_allowed decode cs path ≡ true)
  unfolding collapse_prefixes is_allowed
  collapse_prefixes-unrestricted cs ps h =
      let ((gs, prefixes), e, k) = >>=-eq-ok (gather decode [] [] cs) _ h in
      let (eg, ep) = gather-restrictions decode [] gs [] prefixes cs e in
      let none_left : restrictions decode cs ≡ [] = elim (Bool-cases (is_empty gs)) [
        | inl q ↦ sym eg ∙ is_empty→eq gs q
        | inr q ↦ flat_restrictions decode cs (rw (← ep) (ground (arith, k, q)))
      ] in
      (none_left, ground (arith, k), λ path. rw none_left (unfold all in refl))
