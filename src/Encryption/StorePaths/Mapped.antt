-- ===== src/Encryption/StorePaths/Mapped.antt =====
-- Paths that the store maps: they are encrypted to, and decrypted from, the path of their mapping.
use mathlib.Core.List.{append-nil}
use storj_uplink.Encryption.Cipher.{CipherSuite, Key, Primitives}
use storj_uplink.Encryption.Path.{
  PathIter, join_components, join_rest, encrypt_components, decrypt_components, encrypt_iterator,
  decrypt_iterator,
}
use storj_uplink.Encryption.Path.Steps.{Yields, done-next-none, remaining_components-Yields}
use storj_uplink.Encryption.Store.{
  Base, Lookup, Store, with_bypass, lookup_unencrypted, lookup_encrypted,
}
use storj_uplink.Encryption.Store.Mapped.{IsMapped, lookup-IsMapped, new_base}
use storj_uplink.Encryption.StorePaths.{
  push_base, encrypt_found, decrypt_found, base_key, encrypt_path_bytes, decrypt_path_bytes,
  encrypt_path, decrypt_path, derive_components, derive_path_key,
}
use storj_uplink.Common.{
  ℕ, ◌<◌, ◌≡◌, refl, ap, arith, Bool, true, false, [], ◌∷◌, ◌++◌, Option, none, some, ok, Bytes,
  length,
}

join-push_base : (path : Bytes) → join_components (push_base path ++ []) ≡ path
unfolding join_components join_rest
join-push_base [] = refl
join-push_base (b ∷ bs) = append-nil (b ∷ bs)

module _ (lib : Primitives) where
  encrypt_iterator-Yields :
      (it : PathIter) (cipher : CipherSuite) (key : Key)
      → Yields it []
      → encrypt_iterator lib it cipher key ≡ ok []
  unfolding encrypt_iterator encrypt_components join_components
  encrypt_iterator-Yields it cipher key y = rw (remaining_components-Yields it y) refl

  decrypt_iterator-Yields :
      (it : PathIter) (cipher : CipherSuite) (key : Key)
      → Yields it []
      → decrypt_iterator lib it cipher key ≡ ok []
  unfolding decrypt_iterator decrypt_components join_components
  decrypt_iterator-Yields it cipher key y = rw (remaining_components-Yields it y) refl

  encrypt_found-IsFound :
      (bucket : Bytes) (cipher : Option CipherSuite) (bypass : Bool) (base : Base) (found : Lookup)
      → found.base ≡ with_bypass bypass (some base)
      → Yields found.remaining []
      → encrypt_found lib bucket cipher found ≡ ok base.encrypted
  unfolding encrypt_found
  encrypt_found-IsFound bucket cipher true base found h y = rw h (
      rw (encrypt_iterator-Yields found.remaining _ _ y, done-next-none found.remaining y)
        (ap ok (join-push_base base.encrypted)))
  encrypt_found-IsFound bucket cipher false base found h y = rw h (
      rw (encrypt_iterator-Yields found.remaining _ _ y, done-next-none found.remaining y)
        (ap ok (join-push_base base.encrypted)))

  decrypt_found-IsFound :
      (bucket : Bytes) (cipher : Option CipherSuite) (bypass : Bool) (base : Base) (found : Lookup)
      → found.base ≡ with_bypass bypass (some base)
      → Yields found.remaining []
      → decrypt_found lib bucket cipher found ≡ ok base.unencrypted
  unfolding decrypt_found
  decrypt_found-IsFound bucket cipher true base found h y = rw h (
      rw (decrypt_iterator-Yields found.remaining _ _ y, done-next-none found.remaining y)
        (ap ok (join-push_base base.unencrypted)))
  decrypt_found-IsFound bucket cipher false base found h y = rw h (
      rw (decrypt_iterator-Yields found.remaining _ _ y, done-next-none found.remaining y)
        (ap ok (join-push_base base.unencrypted)))

  derive_path_key-IsFound :
      (bucket : Bytes) (s : Store) (u : ℕ) (us : Bytes) (bypass : Bool) (base : Base)
      → base.default ≡ false
      → (lookup_unencrypted s bucket (u ∷ us)).base ≡ with_bypass bypass (some base)
      → Yields (lookup_unencrypted s bucket (u ∷ us)).remaining []
      → derive_path_key lib bucket (u ∷ us) s ≡ ok base.key
  unfolding derive_path_key derive_components base_key
  derive_path_key-IsFound bucket s u us true base d h y =
      rw (h, derive_path_key) (rw (remaining_components-Yields _ y) (rw d refl))
  derive_path_key-IsFound bucket s u us false base d h y =
      rw (h, derive_path_key) (rw (remaining_components-Yields _ y) (rw d refl))

  -- A mapping of two paths that are not empty: the plain path is encrypted to the encrypted one,
  -- and that is decrypted to the plain one, with or without the bypass. The key derived for the
  -- plain path is the mapping's own.
  pub encrypt_path-IsMapped :
      (s : Store) (bucket unenc enc : Bytes) (key : Key) (cipher : CipherSuite)
      → IsMapped s bucket unenc enc (new_base unenc enc key cipher)
      → 0 < length unenc
      → 0 < length enc
      → (encrypt_path lib bucket unenc s ≡ ok enc)
        × (decrypt_path lib bucket enc s ≡ ok unenc)
        × (derive_path_key lib bucket unenc s ≡ ok key)
  unfolding encrypt_path decrypt_path encrypt_path_bytes decrypt_path_bytes
  encrypt_path-IsMapped s bucket [] enc key cipher m lu le = absurd (omega arith)
  encrypt_path-IsMapped s bucket (u ∷ us) [] key cipher m lu le = absurd (omega arith)
  encrypt_path-IsMapped s bucket (u ∷ us) (e ∷ es) key cipher m lu le =
      let base = new_base (u ∷ us) (e ∷ es) key cipher in
      let ((b, y, r, q), (b', y', r', q')) = lookup-IsMapped s bucket (u ∷ us) (e ∷ es) base m in
      (
        encrypt_found-IsFound bucket none s.encryption_bypass base
            (lookup_unencrypted s bucket (u ∷ us)) b y,
        decrypt_found-IsFound bucket none s.encryption_bypass base
            (lookup_encrypted s bucket (e ∷ es)) b' y',
        derive_path_key-IsFound bucket s u us s.encryption_bypass base refl b y,
      )
