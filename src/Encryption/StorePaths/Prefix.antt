-- ===== src/Encryption/StorePaths/Prefix.antt =====
-- `get_prefix_info`: what is sent of a listing prefix is its parent, and the key is the parent's.
use mathlib.Core.List.{append-nil, append_assoc}
use storj_uplink.Encryption.Cipher.{CipherSuite, Key, Primitives, derive_path_component}
use storj_uplink.Encryption.Path.{
  new, remaining_components, join_components, encrypt_path_component, encrypt_components,
}
use storj_uplink.Encryption.Store.{Store, default_base, lookup_unencrypted}
use storj_uplink.Encryption.StorePaths.{
  PrefixInfo, base_key, or_aes_gcm, derive_components, prefix_loop, get_prefix_info,
}
use storj_uplink.Encryption.StorePaths.Default.{lookup_default}
use storj_uplink.Common.Tables.{get}
use storj_uplink.Common.{
  ◌≡◌, refl, true, false, List, [], ◌∷◌, ◌++◌, none, some, ok, ◌>>=◌, >>=-eq-ok, Bytes,
}

module _ (lib : Primitives) (cipher : CipherSuite) where
  -- Behind the first component: `enc` is what the component before was encrypted to.
  prefix_loop_later :
      (key parent_key : Key) (parts : List Bytes) (enc : Bytes) (init : List Bytes) (last : Bytes)
      (result : Key × List Bytes)
      → prefix_loop lib cipher false key parent_key parts enc (init ++ last ∷ []) ≡ ok result
      → (encs : List Bytes) × (encrypt_components lib cipher key init ≡ ok encs)
        × (result ≡ (derive_components lib key init, (parts ++ enc ∷ []) ++ encs))
  unfolding prefix_loop encrypt_components derive_components
  prefix_loop_later key parent_key parts enc [] last result h =
      let (e, one, rest) = >>=-eq-ok (encrypt_path_component lib last cipher key) _ h in
      (
        [],
        refl,
        let q : result ≡ (key, parts ++ enc ∷ []) = cc in rw (append-nil (parts ++ enc ∷ [])) q,
      )
  prefix_loop_later key parent_key parts enc (c ∷ init) last result h =
      let (e, one, rest) = >>=-eq-ok (encrypt_path_component lib c cipher key) _ h in
      let (encs, more, q) =
        prefix_loop_later (derive_path_component lib key c) key (parts ++ enc ∷ []) e init last
          result rest in
      (e ∷ encs, rw one (rw more refl), rw (append_assoc (parts ++ enc ∷ []) (e ∷ []) encs) at q)

  prefix_loop_lem :
      (key : Key) (init : List Bytes) (last : Bytes) (result : Key × List Bytes)
      → prefix_loop lib cipher true key key [] [] (init ++ last ∷ []) ≡ ok result
      → (encs : List Bytes) × (encrypt_components lib cipher key init ≡ ok encs)
        × (result ≡ (derive_components lib key init, encs))
  unfolding prefix_loop encrypt_components derive_components
  prefix_loop_lem key [] last result h =
      let (e, one, rest) = >>=-eq-ok (encrypt_path_component lib last cipher key) _ h in
      ([], refl, cc)
  prefix_loop_lem key (c ∷ init) last result h =
      let (e, one, rest) = >>=-eq-ok (encrypt_path_component lib c cipher key) _ h in
      let (encs, more, q) =
        prefix_loop_later (derive_path_component lib key c) key [] e init last result rest in
      (e ∷ encs, rw one (rw more refl), q)

get_prefix_info_default :
    (lib : Primitives) (s : Store) (bucket prefix : Bytes) (key : Key)
    → get bucket s.roots ≡ none
    → s.default_key ≡ some key
    → s.encryption_bypass ≡ false
    → let cipher = or_aes_gcm s.default_path_cipher in
      let top = derive_path_component lib key bucket in
      get_prefix_info lib bucket prefix s ≡ (
        prefix_loop lib cipher true top top [] [] (remaining_components (new prefix)) >>= λ r.
        ok (record { path_cipher = cipher; parent_key = r.0; parent_enc = join_components r.1 }))
unfolding get_prefix_info lookup_unencrypted base_key default_base
get_prefix_info_default lib s bucket prefix key g k b =
    rw (lookup_default s bucket prefix key true g k, get_prefix_info, lookup_unencrypted)
      (rw (lookup_default s bucket prefix key true g k) (rw b refl))

-- In a bucket without mappings and without the bypass, `get_prefix_info` of a listing prefix of the
-- components `init` and a last one gives as `parent_enc` what the components `init` are encrypted
-- to under the bucket's key, joined, and as `parent_key` the key derived along them.
pub get_prefix_info_lem :
    (lib : Primitives) (s : Store) (bucket prefix last : Bytes) (init : List Bytes) (key : Key)
    (info : PrefixInfo)
    → get bucket s.roots ≡ none
    → s.default_key ≡ some key
    → s.encryption_bypass ≡ false
    → remaining_components (new prefix) ≡ init ++ last ∷ []
    → get_prefix_info lib bucket prefix s ≡ ok info
    → (encs : List Bytes) × (encrypt_components lib
          (or_aes_gcm s.default_path_cipher)
          (derive_path_component lib key bucket)
          init
        ≡ ok encs)
      × (info ≡ record {
        path_cipher = or_aes_gcm s.default_path_cipher;
        parent_key = derive_components lib (derive_path_component lib key bucket) init;
        parent_enc = join_components encs;
      })
get_prefix_info_lem lib s bucket prefix last init key info g k b c h =
    let cipher = or_aes_gcm s.default_path_cipher in
    let top = derive_path_component lib key bucket in
    let h' = rw c at (rw (get_prefix_info_default lib s bucket prefix key g k b) at h) in
    let (result, loop, rest) =
      >>=-eq-ok (prefix_loop lib cipher true top top [] [] (init ++ last ∷ [])) _ h' in
    let (encs, sealed, q) = prefix_loop_lem lib cipher top init last result loop in
    (encs, sealed, cc)
