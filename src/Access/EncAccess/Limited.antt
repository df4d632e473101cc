-- ===== src/Access/EncAccess/Limited.antt =====
-- `limit_to`: a path-restricted key leaves no default key, and only bases within what its caveats
-- allow.
use storj_uplink.Access.Prefixes.{CaveatPath, is_within, collapse_prefixes}
use storj_uplink.Access.Prefixes.Meaning.{is_within_refl, is_allowed, collapse_prefixes-is_allowed}
use storj_uplink.Access.ApiKey.{ApiKey}
use storj_uplink.Access.Caveat.{Codec}
use storj_uplink.Encryption.Error as EncryptionError
use storj_uplink.Encryption.Cipher as Cipher
use storj_uplink.Encryption.Store.{
  Base, Store, new_store, set_default_path_cipher, add_with_cipher, iterate_with_cipher,
  lookup_encrypted,
}
use storj_uplink.Encryption.Store.Mapped.{add_with_cipher_inv}
use storj_uplink.Encryption.Store.Bases.{
  AllBases, AllBases-add_with_cipher, iterate_with_cipher-keeps,
}
use storj_uplink.Encryption.StorePaths.{decrypt_path, derive_path_key}
use storj_uplink.Access.EncAccess.{
  StoreEntry, EncryptionAccess, cipher_of, add_entry, store_from_enc, push_entry, collected,
  enc_from_store, entry_within, add_prefix, add_prefixes, add_allowed, decode_paths, limit_to,
}
use storj_uplink.Common.Members.{Elem, here, there, any, Elem-any}
use storj_uplink.Common.{
  ◌≡◌, inl, inr, refl, sym, ◌∙◌, arith, Bool, true, List, [], ◌∷◌, none, Bool-cases, Option-cases,
  Result, ok, err, >>=-eq-ok, Result-cases, ok_injective, Bytes, All, All-append,
}

abbrev pub place : Bytes → Bytes → CaveatPath
place bucket path = record { bucket = bucket; encrypted_path_prefix = path }

-- A base whose encrypted path lies within one of the prefixes, in its bucket.
abbrev IsWithin : List CaveatPath → Bytes → Base → Type 0
IsWithin prefixes bucket b = any (is_within (place bucket b.encrypted)) prefixes ≡ true

-- An entry for which the same holds.
abbrev EntryIsWithin : List CaveatPath → StoreEntry → Type 0
EntryIsWithin prefixes e = any (is_within (place e.bucket e.encrypted_path)) prefixes ≡ true

-- The state of the loops: the bases lie within, and no default key is set.
record IsLimited (prefixes : List CaveatPath) (s : Store) : Type 0 where
  bases : AllBases (IsWithin prefixes) s
  no_key : s.default_key ≡ none

IsLimited-add :
    (prefixes : List CaveatPath) (s s' : Store) (bucket unenc enc : Bytes) (key : Cipher.Key)
    (cipher : Cipher.CipherSuite)
    → IsLimited prefixes s
    → any (is_within (place bucket enc)) prefixes ≡ true
    → add_with_cipher s bucket unenc enc key cipher ≡ ok s'
    → IsLimited prefixes s'
IsLimited-add prefixes s s' bucket unenc enc key cipher h p e =
    let (root, a, q) = add_with_cipher_inv s s' bucket unenc enc key cipher e in
    record {
      bases =
          AllBases-add_with_cipher (IsWithin prefixes) s s' bucket unenc enc key cipher h.bases p e;
      no_key = rw q h.no_key;
    }

any_ext {ℓ} :
    {A : Type ℓ} (f g : A → Bool) (xs : List A) → ((x : A) → f x ≡ g x) → any f xs ≡ any g xs
unfolding any
any_ext f g [] h = refl
any_ext f g (x ∷ xs) h = ground (arith, h x, any_ext f g xs h)

entry_within-is_within :
    (e : StoreEntry) (p : CaveatPath)
    → entry_within e p ≡ is_within (place e.bucket e.encrypted_path) p
unfolding entry_within is_within
entry_within-is_within e p = refl

add_entry_inv :
    (is_utf8 : Bytes → Bool) (s s' : Store) (e : StoreEntry)
    → add_entry is_utf8 s e ≡ ok s'
    → (is_utf8 e.bucket ≡ true)
      × (add_with_cipher s e.bucket e.unencrypted_path e.encrypted_path e.key
            (cipher_of e.path_cipher)
          ≡ ok s')
unfolding add_entry
add_entry_inv is_utf8 s s' e h =
    elim (Result-cases (
      add_with_cipher s e.bucket e.unencrypted_path e.encrypted_path e.key
        (cipher_of e.path_cipher))) [
          | inr (x, a) ↦ absurd (ground (arith, a, h))
          | inl (t, a) ↦ (ground (arith, a, h), ground (arith, a, h))
        ]

module _ (lib : Cipher.Primitives) (is_utf8 : Bytes → Bool) (prefixes : List CaveatPath) where
  IsLimited-add_prefix :
      (src s : Store) (p : CaveatPath)
      → Elem p prefixes
      → IsLimited prefixes s
      → IsLimited prefixes (add_prefix lib is_utf8 src s p)
  unfolding add_prefix
  IsLimited-add_prefix src s p m h = elim (Bool-cases (is_utf8 p.bucket)) [
    | inr bad ↦ rw (bad, add_prefix) h
    | inl good ↦ elim (Result-cases (decrypt_path lib p.bucket p.encrypted_path_prefix src)) [
      | inr (x, d) ↦ rw (good, d, add_prefix) h
      | inl (unenc, d) ↦ elim (Result-cases (derive_path_key lib p.bucket unenc src)) [
        | inr (x, k) ↦ rw (good, d, k, add_prefix) h
        | inl (key, k) ↦
            elim (Option-cases (lookup_encrypted src p.bucket p.encrypted_path_prefix).base) [
              | inl b ↦ rw (good, d, k, b, add_prefix) h
              | inr (base, b) ↦
                  elim (Result-cases (
                    add_with_cipher s p.bucket unenc p.encrypted_path_prefix key
                      base.path_cipher)) [
                        | inr (x, a) ↦ rw (good, d, k, b, a, add_prefix) h
                        | inl (s', a) ↦
                            rw (good, d, k, b, a, add_prefix)
                              (IsLimited-add prefixes s s' p.bucket unenc p.encrypted_path_prefix
                                key base.path_cipher h
                                (Elem-any (is_within p) p prefixes m (is_within_refl p)) a)
                      ]
            ]
      ]
    ]
  ]

  IsLimited-add_prefixes :
      (src s : Store) (ps : List CaveatPath)
      → All (λ p. Elem p prefixes) ps
      → IsLimited prefixes s
      → IsLimited prefixes (add_prefixes lib is_utf8 src s ps)
  unfolding add_prefixes
  IsLimited-add_prefixes src s [] m h = h
  IsLimited-add_prefixes src s (p ∷ ps) m h =
      IsLimited-add_prefixes src (add_prefix lib is_utf8 src s p) ps m.1
        (IsLimited-add_prefix src s p m.0 h)

  IsLimited-add_allowed :
      (s s' : Store) (es : List StoreEntry)
      → IsLimited prefixes s
      → add_allowed is_utf8 prefixes s es ≡ ok s'
      → IsLimited prefixes s'
  unfolding add_allowed add_entry
  IsLimited-add_allowed s s' [] h e = let same : s ≡ s' = cc in rw (sym same) h
  IsLimited-add_allowed s s' (entry ∷ es) h e =
      elim (Bool-cases (any (entry_within entry) prefixes)) [
        | inr out ↦ IsLimited-add_allowed s s' es h (rw (out, add_allowed) at e)
        | inl within ↦
            let (t, one, rest) =
              >>=-eq-ok (add_entry is_utf8 s entry) _ (rw (within, add_allowed) at e) in
            let (good, a) = add_entry_inv is_utf8 s t entry one in
            IsLimited-add_allowed t s' es
              (IsLimited-add prefixes s t entry.bucket entry.unencrypted_path entry.encrypted_path
                entry.key (cipher_of entry.path_cipher) h
                (sym (
                    any_ext (entry_within entry)
                      (is_within (place entry.bucket entry.encrypted_path)) prefixes
                      (entry_within-is_within entry))
                  ∙ within)
                a)
              rest
      ]

elems_of {ℓ} :
    {A : Type ℓ} (xs ys : List A) → ((x : A) → Elem x xs → Elem x ys) → All (λ x. Elem x ys) xs
elems_of [] ys h = tt
elems_of (x ∷ xs) ys h = (h x here, elems_of xs ys (λ y m. h y (there m)))

push_entry-keeps :
    (prefixes : List CaveatPath) (es es' : List StoreEntry) (bucket : Bytes) (b : Base)
    → IsWithin prefixes bucket b
    → All (EntryIsWithin prefixes) es
    → push_entry es bucket b ≡ ok es'
    → All (EntryIsWithin prefixes) es'
unfolding push_entry
push_entry-keeps prefixes es es' bucket b p h e =
    let same = sym (ok_injective _ es' e) in
    rw same (All-append (EntryIsWithin prefixes) es (_ ∷ []) h (p, tt))

All-collected {κ} :
    (P : StoreEntry → Type κ) (r : Result EncryptionError.Error (List StoreEntry))
    → ((es : List StoreEntry) → r ≡ ok es → All P es)
    → All P (collected r)
All-collected P (ok es) h = h es refl
All-collected P (err e) h = tt

enc_from_store-IsLimited :
    (prefixes : List CaveatPath) (s : Store)
    → IsLimited prefixes s
    → ((enc_from_store s).default_key ≡ none)
      × All (EntryIsWithin prefixes) (enc_from_store s).store_entries
unfolding enc_from_store
enc_from_store-IsLimited prefixes s h = (
  h.no_key,
  All-collected (EntryIsWithin prefixes) (iterate_with_cipher push_entry s []) (λ es e.
      iterate_with_cipher-keeps (IsWithin prefixes) push_entry (All (EntryIsWithin prefixes))
        (push_entry-keeps prefixes) s [] es h.bases tt e),
)

-- What the caveats of the key allow of an entry.
abbrev pub EntryIsAllowed : Codec → ApiKey → StoreEntry → Type 0
EntryIsAllowed codec key e =
    is_allowed (decode_paths codec) key.mac.caveats (place e.bucket e.encrypted_path) ≡ true

entries_allowed :
    (codec : Codec) (key : ApiKey) (prefixes : List CaveatPath) (es : List StoreEntry)
    → collapse_prefixes (decode_paths codec) key.mac.caveats ≡ ok (prefixes, true)
    → All (EntryIsWithin prefixes) es
    → All (EntryIsAllowed codec key) es
entries_allowed codec key prefixes [] c h = tt
entries_allowed codec key prefixes (e ∷ es) c h = (
  sym (
        collapse_prefixes-is_allowed (decode_paths codec) key.mac.caveats prefixes
          (place e.bucket e.encrypted_path) c)
      ∙ h.0,
  entries_allowed codec key prefixes es c h.1,
)

-- Limited to an API key whose caveats restrict its paths, an encryption access has no default key,
-- and each of its entries has an encrypted path that all caveats of the key allow in its bucket.
pub limit_to-EntryIsAllowed :
    (lib : Cipher.Primitives) (is_utf8 : Bytes → Bool) (codec : Codec)
    (enc limited : EncryptionAccess) (key : ApiKey) (prefixes : List CaveatPath)
    → collapse_prefixes (decode_paths codec) key.mac.caveats ≡ ok (prefixes, true)
    → limit_to lib is_utf8 codec enc key ≡ ok limited
    → (limited.default_key ≡ none) × All (EntryIsAllowed codec key) limited.store_entries
unfolding limit_to set_default_path_cipher new_store
limit_to-EntryIsAllowed lib is_utf8 codec enc limited key prefixes c h =
    let h' = rw (c, limit_to) at h in
    let (src, from, rest) = >>=-eq-ok (store_from_enc is_utf8 enc) _ h' in
    let start : Store = set_default_path_cipher new_store src.default_path_cipher in
    let (s, added, last) =
      >>=-eq-ok
        (add_allowed is_utf8 prefixes (add_prefixes lib is_utf8 src start prefixes)
          enc.store_entries)
        _ rest in
    let begin : IsLimited prefixes start = record { bases = tt; no_key = refl } in
    let end =
      IsLimited-add_allowed lib is_utf8 prefixes (add_prefixes lib is_utf8 src start prefixes) s
        enc.store_entries
        (IsLimited-add_prefixes lib is_utf8 prefixes src start prefixes
          (elems_of prefixes prefixes (λ x m. m)) begin)
        added in
    let (no_key, within) = enc_from_store-IsLimited prefixes s end in
    let same : enc_from_store s ≡ limited = ok_injective (enc_from_store s) limited last in
    rw (sym same)
      (no_key, entries_allowed codec key prefixes (enc_from_store s).store_entries c within)
