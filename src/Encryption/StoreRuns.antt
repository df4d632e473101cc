-- ===== src/Encryption/StoreRuns.antt =====
-- Examples for the encryption store and the paths under it, with the cipher of Sample.
use storj_uplink.Encryption.Error.{conflict}
use storj_uplink.Encryption.Cipher.{aes_gcm, Key, derive_path_component}
use storj_uplink.Encryption.Path.{new, remaining_components, encrypt_components}
use storj_uplink.Encryption.Path.RoundTrip.{by_gcm}
use storj_uplink.Encryption.Store.{
  Store, node, no_children, child, add_with_cipher, lookup_unencrypted, lookup_encrypted,
}
use storj_uplink.Encryption.Store.Mapped.{
  new_base, IsFound, IsKept, IsMapped, add_with_cipher-IsMapped, lookup-add_with_cipher,
  lookup-add_with_cipher_other, add_with_cipher_conflict,
}
use storj_uplink.Encryption.StorePaths.{
  encrypt_path, decrypt_path, derive_path_key, derive_components, PrefixInfo, get_prefix_info,
  or_aes_gcm,
}
use storj_uplink.Encryption.StorePaths.Mapped.{encrypt_path-IsMapped}
use storj_uplink.Encryption.StorePaths.Default.{decrypt_path-encrypt_path}
use storj_uplink.Encryption.StorePaths.Prefix.{get_prefix_info_lem}
use storj_uplink.Encryption.Path.{join_components}
use storj_uplink.Encryption.Sample.{sample_lib, sample-Laws}
use storj_uplink.Common.{
  ℕ, ◌≡◌, inr, refl, ap, arith, false, List, [], ◌∷◌, none, some, ok, err, Bytes, bytes_eq, length,
  take, replicate,
}

abbrev root_key : Key
root_key = replicate 32 9

abbrev shared_key : Key
shared_key = replicate 32 8

abbrev photos : Bytes
photos = 112 ∷ 104 ∷ []

-- `u/v` and `e/f`
abbrev plain : Bytes
plain = 117 ∷ 47 ∷ 118 ∷ []

abbrev hidden : Bytes
hidden = 101 ∷ 47 ∷ 102 ∷ []

abbrev root_store : Store
root_store = record {
  roots = [];
  default_key = some root_key;
  default_path_cipher = aes_gcm;
  encryption_bypass = false;
}

abbrev mapped_store : Store
mapped_store = record root_store {
  roots =
      (
        photos,
        node none
            (child (117 ∷ [])
              (node none
                (child (118 ∷ [])
                  (node (some (new_base plain hidden shared_key aes_gcm)) no_children [] [])
                  no_children)
                ((118 ∷ [], 102 ∷ []) ∷ []) ((102 ∷ [], 118 ∷ []) ∷ []))
              no_children)
            ((117 ∷ [], 101 ∷ []) ∷ []) ((101 ∷ [], 117 ∷ []) ∷ []),
      )
      ∷ [];
}

added : add_with_cipher root_store photos plain hidden shared_key aes_gcm ≡ ok mapped_store
unfolding add_with_cipher storj_uplink.Encryption.Path.done new storj_uplink.Encryption.Path.next
    storj_uplink.Encryption.Store.conflicts storj_uplink.Encryption.Store.get_child
    storj_uplink.Encryption.Store.put_child
added = refl

lookup-add_with_cipher_example :
    IsFound mapped_store
      (new_base plain hidden shared_key aes_gcm)
      (lookup_unencrypted mapped_store photos plain)
    × IsFound mapped_store
        (new_base plain hidden shared_key aes_gcm)
        (lookup_encrypted mapped_store photos hidden)
lookup-add_with_cipher_example =
    lookup-add_with_cipher root_store mapped_store photos plain hidden shared_key aes_gcm added

-- A second mapping, of `u` to `e`, above the first.
abbrev wider_store : Store
wider_store = record root_store {
  roots =
      (
        photos,
        node none
            (child (117 ∷ [])
              (node (some (new_base (117 ∷ []) (101 ∷ []) root_key aes_gcm))
                (child (118 ∷ [])
                  (node (some (new_base plain hidden shared_key aes_gcm)) no_children [] [])
                  no_children)
                ((118 ∷ [], 102 ∷ []) ∷ []) ((102 ∷ [], 118 ∷ []) ∷ []))
              no_children)
            ((117 ∷ [], 101 ∷ []) ∷ []) ((101 ∷ [], 117 ∷ []) ∷ []),
      )
      ∷ [];
}

widened :
    add_with_cipher mapped_store photos (117 ∷ []) (101 ∷ []) root_key aes_gcm ≡ ok wider_store
unfolding add_with_cipher bytes_eq storj_uplink.Encryption.Path.done new
    storj_uplink.Encryption.Path.next storj_uplink.Encryption.Store.conflicts
    storj_uplink.Encryption.Store.get_child storj_uplink.Encryption.Store.put_child
widened = refl

-- A third one, of `u/w` to `e/g`, below the second.
abbrev widest_store : Store
widest_store = record root_store {
  roots =
      (
        photos,
        node none
            (child (117 ∷ [])
              (node (some (new_base (117 ∷ []) (101 ∷ []) root_key aes_gcm))
                (child (118 ∷ [])
                  (node (some (new_base plain hidden shared_key aes_gcm)) no_children [] [])
                  (child (119 ∷ [])
                    (node
                      (some
                        (new_base (117 ∷ 47 ∷ 119 ∷ []) (101 ∷ 47 ∷ 103 ∷ []) shared_key aes_gcm))
                      no_children [] [])
                    no_children))
                ((118 ∷ [], 102 ∷ []) ∷ (119 ∷ [], 103 ∷ []) ∷ [])
                ((102 ∷ [], 118 ∷ []) ∷ (103 ∷ [], 119 ∷ []) ∷ []))
              no_children)
            ((117 ∷ [], 101 ∷ []) ∷ []) ((101 ∷ [], 117 ∷ []) ∷ []),
      )
      ∷ [];
}

widened_again :
    add_with_cipher wider_store photos
      (117 ∷ 47 ∷ 119 ∷ [])
      (101 ∷ 47 ∷ 103 ∷ [])
      shared_key
      aes_gcm
    ≡ ok widest_store
unfolding add_with_cipher bytes_eq storj_uplink.Encryption.Path.done new
    storj_uplink.Encryption.Path.next storj_uplink.Encryption.Store.conflicts
    storj_uplink.Encryption.Store.get_child storj_uplink.Encryption.Store.put_child
widened_again = refl

-- The third mapping adds an entry to the maps that the lookups of the second reveal.
lookup-add_with_cipher_other_example :
    IsKept widest_store
      (new_base (117 ∷ []) (101 ∷ []) root_key aes_gcm)
      (lookup_unencrypted wider_store photos (117 ∷ []))
      (lookup_unencrypted widest_store photos (117 ∷ []))
    × IsKept widest_store
        (new_base (117 ∷ []) (101 ∷ []) root_key aes_gcm)
        (lookup_encrypted wider_store photos (101 ∷ []))
        (lookup_encrypted widest_store photos (101 ∷ []))
lookup-add_with_cipher_other_example =
    lookup-add_with_cipher_other mapped_store wider_store widest_store photos (117 ∷ []) (101 ∷ [])
      root_key aes_gcm photos (117 ∷ 47 ∷ 119 ∷ []) (101 ∷ 47 ∷ 103 ∷ []) shared_key aes_gcm widened
      widened_again (inr (λ e. absurd (let l = ap (length {A = ℕ}) e in omega (arith, l))))

mapped : IsMapped mapped_store photos plain hidden (new_base plain hidden shared_key aes_gcm)
mapped =
    add_with_cipher-IsMapped root_store mapped_store photos plain hidden shared_key aes_gcm added

-- `u/v` once more, but to `e`.
add_with_cipher_conflict_example :
    add_with_cipher mapped_store photos plain (101 ∷ []) root_key aes_gcm ≡ err conflict
add_with_cipher_conflict_example =
    add_with_cipher_conflict mapped_store photos plain (101 ∷ []) root_key aes_gcm plain hidden
      (new_base plain hidden shared_key aes_gcm) mapped
      (λ both. absurd (let l = ap (length {A = ℕ}) (both.0 refl) in omega (arith, l)))

encrypt_path-IsMapped_example :
    (encrypt_path sample_lib photos plain mapped_store ≡ ok hidden)
    × (decrypt_path sample_lib photos hidden mapped_store ≡ ok plain)
    × (derive_path_key sample_lib photos plain mapped_store ≡ ok shared_key)
encrypt_path-IsMapped_example =
    encrypt_path-IsMapped sample_lib mapped_store photos plain hidden shared_key aes_gcm mapped
      (omega arith) (omega arith)

-- The path `a/` under the default key: two components, the second of them empty.
abbrev default_path : Bytes
default_path =
    2 ∷ 3 ∷ 3 ∷ 3 ∷ 3 ∷ 3 ∷ 3 ∷ 3 ∷ 3 ∷ 3 ∷ 3 ∷ 3 ∷ 3 ∷ 97 ∷ 1 ∷ 1 ∷ 1 ∷ 1 ∷ 1 ∷ 1 ∷ 1 ∷ 1 ∷ 1 ∷ 1
    ∷ 1 ∷ 1 ∷ 1 ∷ 1 ∷ 1 ∷ 1 ∷ 1 ∷ 1 ∷ 1 ∷ 1 ∷ 1 ∷ 1 ∷ 1 ∷ 1 ∷ 1 ∷ 1 ∷ 1 ∷ 1 ∷ 1 ∷ 1 ∷ 1 ∷ 1 ∷ 47 ∷ 2
    ∷ 3 ∷ 3 ∷ 3 ∷ 3 ∷ 3 ∷ 3 ∷ 3 ∷ 3 ∷ 3 ∷ 3 ∷ 3 ∷ 3 ∷ []

default_encrypts : encrypt_path sample_lib photos (97 ∷ 47 ∷ []) root_store ≡ ok default_path
unfolding encrypt_path lookup_unencrypted storj_uplink.Encryption.Path.encrypt_iterator
    remaining_components storj_uplink.Encryption.Path.encrypt_path_component
    storj_uplink.Encryption.Cipher.encrypt storj_uplink.Encryption.Cipher.derive_nonce
    storj_uplink.Encryption.Sample.seal join_components
    storj_uplink.Encryption.Segment.encode_segment storj_uplink.Encryption.Segment.encode_bytes
    storj_uplink.Encryption.Segment.encode_byte
default_encrypts = refl

decrypt_path-encrypt_path_example :
    decrypt_path sample_lib photos default_path root_store ≡ ok (97 ∷ 47 ∷ [])
unfolding storj_uplink.Common.Tables.get
decrypt_path-encrypt_path_example =
    decrypt_path-encrypt_path sample_lib sample-Laws root_store photos (97 ∷ 47 ∷ []) default_path
      root_key refl refl refl by_gcm default_encrypts

-- The first component of that path.
abbrev first_hidden : Bytes
first_hidden = take 46 default_path

abbrev prefix_info : PrefixInfo
prefix_info = record {
  path_cipher = aes_gcm;
  parent_key =
      derive_path_component sample_lib (derive_path_component sample_lib root_key photos) (97 ∷ []);
  parent_enc = first_hidden;
}

prefix_found : get_prefix_info sample_lib photos (97 ∷ 47 ∷ []) root_store ≡ ok prefix_info
unfolding get_prefix_info lookup_unencrypted remaining_components
    storj_uplink.Encryption.Path.encrypt_path_component storj_uplink.Encryption.Cipher.encrypt
    storj_uplink.Encryption.Cipher.derive_nonce storj_uplink.Encryption.Sample.seal join_components
    storj_uplink.Encryption.Segment.encode_segment storj_uplink.Encryption.Segment.encode_bytes
    storj_uplink.Encryption.Segment.encode_byte
prefix_found = refl

prefix_components : remaining_components (new (97 ∷ 47 ∷ [])) ≡ (97 ∷ []) ∷ [] ∷ []
unfolding remaining_components new
prefix_components = refl

get_prefix_info_lem_example :
    (encs : List Bytes) × (encrypt_components sample_lib
        (or_aes_gcm aes_gcm)
        (derive_path_component sample_lib root_key photos)
        ((97 ∷ []) ∷ [])
      ≡ ok encs)
    × (prefix_info ≡ record {
      path_cipher = or_aes_gcm aes_gcm;
      parent_key =
          derive_components sample_lib
            (derive_path_component sample_lib root_key photos)
            ((97 ∷ []) ∷ []);
      parent_enc = join_components encs;
    })
unfolding storj_uplink.Common.Tables.get
get_prefix_info_lem_example =
    get_prefix_info_lem sample_lib root_store photos (97 ∷ 47 ∷ []) [] ((97 ∷ []) ∷ []) root_key
      prefix_info refl refl refl prefix_components prefix_found
