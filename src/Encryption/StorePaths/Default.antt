-- ===== src/Encryption/StorePaths/Default.antt =====
-- Buckets without a mapping: paths are encrypted under the store's default key.
use mathlib.Core.List.{append-nil}
use storj_uplink.Encryption.Error.{Error}
use storj_uplink.Encryption.Cipher.{CipherSuite, Key, Primitives, Laws, derive_path_component}
use storj_uplink.Encryption.Path.{
  new, done, join_components, join_rest, decrypt_components, encrypt_iterator, decrypt_iterator,
}
use storj_uplink.Encryption.Path.Iter.{remaining_components-new}
use storj_uplink.Encryption.Path.RoundTrip.{IsKeyed, decrypt_iterator-encrypt_iterator}
use storj_uplink.Encryption.Store.{
  Lookup, Store, lookup, lookup_root, default_base, apply_bypass, with_bypass, lookup_unencrypted,
  lookup_encrypted,
}
use storj_uplink.Encryption.StorePaths.{
  encrypt_found, decrypt_found, base_key, encrypt_path_bytes, decrypt_path_bytes, encrypt_path,
  decrypt_path,
}
use storj_uplink.Common.Tables.{get}
use storj_uplink.Common.{
  ℕ, ◌≡◌, refl, sym, ap, ◌∙◌, arith, Bool, true, false, [], ◌∷◌, none, some, Result, ok, err, ◌>>=◌,
  Bytes,
}

abbrev default_lookup : Store → Key → Bytes → Lookup
default_lookup s key path = record {
  revealed = none;
  remaining = new path;
  base = with_bypass s.encryption_bypass (some (default_base s key));
}

-- The bucket has no trie, so both lookups fall back on the default key with the whole path left.
pub lookup_default :
    (s : Store) (bucket path : Bytes) (key : Key) (unenc : Bool)
    → get bucket s.roots ≡ none
    → s.default_key ≡ some key
    → lookup s bucket path unenc ≡ default_lookup s key path
unfolding lookup apply_bypass lookup_root
lookup_default s bucket path key unenc g k = rw (g, lookup) (rw (k, lookup) refl)

not_done : (x : ℕ) (xs : Bytes) → done (new (x ∷ xs)) ≡ false
unfolding done new
not_done x xs = ground arith

alone : (m : Result Error Bytes) → (m >>= λ part. ok (join_components (part ∷ []))) ≡ m
unfolding join_components join_rest
alone (ok part) = ap ok (append-nil part)
alone (err e) = refl

module _ (lib : Primitives) where
  -- Under the default key a path that is not empty is encrypted as a whole, with the key of the
  -- bucket.
  pub encrypt_path_default :
      (s : Store) (bucket : Bytes) (x : ℕ) (xs : Bytes) (key : Key)
      → get bucket s.roots ≡ none
      → s.default_key ≡ some key
      → s.encryption_bypass ≡ false
      → encrypt_path lib bucket (x ∷ xs) s
        ≡ encrypt_iterator lib
            (new (x ∷ xs))
            s.default_path_cipher
            (derive_path_component lib key bucket)
  unfolding encrypt_path encrypt_path_bytes encrypt_found base_key lookup_unencrypted default_base
  encrypt_path_default s bucket x xs key g k b =
      rw (lookup_default s bucket (x ∷ xs) key true g k) (rw (b, not_done x xs) (alone _))

  pub decrypt_path_default :
      (s : Store) (bucket : Bytes) (x : ℕ) (xs : Bytes) (key : Key)
      → get bucket s.roots ≡ none
      → s.default_key ≡ some key
      → s.encryption_bypass ≡ false
      → decrypt_path lib bucket (x ∷ xs) s
        ≡ decrypt_iterator lib
            (new (x ∷ xs))
            s.default_path_cipher
            (derive_path_component lib key bucket)
  unfolding decrypt_path decrypt_path_bytes decrypt_found base_key lookup_encrypted default_base
  decrypt_path_default s bucket x xs key g k b =
      rw (lookup_default s bucket (x ∷ xs) key false g k) (rw (b, not_done x xs) (alone _))

decrypt_iterator_nil :
    (lib : Primitives) (cipher : CipherSuite) (key : Key)
    → decrypt_iterator lib (new []) cipher key ≡ ok []
unfolding decrypt_iterator decrypt_components join_components
decrypt_iterator_nil lib cipher key = rw (remaining_components-new []) refl

-- In a bucket without mappings, under a default key, an AES-GCM or secretbox path cipher and no
-- bypass, `decrypt_path` gives back the path of which `encrypt_path` made its argument. The MAC
-- and the ciphers are assumed to keep their laws.
pub decrypt_path-encrypt_path :
    (lib : Primitives) (laws : Laws lib) (s : Store) (bucket raw enc : Bytes) (key : Key)
    → get bucket s.roots ≡ none
    → s.default_key ≡ some key
    → s.encryption_bypass ≡ false
    → IsKeyed s.default_path_cipher
    → encrypt_path lib bucket raw s ≡ ok enc
    → decrypt_path lib bucket enc s ≡ ok raw
decrypt_path-encrypt_path lib laws s bucket [] enc key g k b c h =
    let e : enc ≡ [] = (unfold encrypt_path encrypt_path_bytes in cc) in
    rw e (unfold decrypt_path decrypt_path_bytes in refl)
decrypt_path-encrypt_path lib laws s bucket (x ∷ xs) enc key g k b c h =
    let sealed = rw (encrypt_path_default lib s bucket x xs key g k b) at h in
    let opens =
      decrypt_iterator-encrypt_iterator lib laws s.default_path_cipher
        (derive_path_component lib key bucket) (x ∷ xs) enc c sealed in
    go enc opens
  where
    go :
        (enc : Bytes)
        → decrypt_iterator lib
            (new enc)
            s.default_path_cipher
            (derive_path_component lib key bucket)
          ≡ ok (x ∷ xs)
        → decrypt_path lib bucket enc s ≡ ok (x ∷ xs)
    go [] opens = absurd (
        let e =
          sym opens
          ∙ decrypt_iterator_nil lib s.default_path_cipher (derive_path_component lib key bucket) in
        cc)
    go (y ∷ ys) opens = rw (decrypt_path_default lib s bucket y ys key g k b) opens
