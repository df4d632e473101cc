-- ===== src/Encryption/Store.antt =====
-- crates/storj-encryption/src/store.rs: the trie of encryption bases for each bucket, with its
-- default key. A `HashMap` is an association list, a bucket's name its bytes.
pub mod Steps
pub mod Mappings
pub mod Ends
pub mod Lookups
pub mod Mapped
pub mod Bases
use storj_uplink.Encryption.Error.{Error, conflict, out_of_fuel}
use storj_uplink.Encryption.Cipher.{CipherSuite, unspecified, null_base64_url, Key}
use storj_uplink.Encryption.Path.{PathIter, new, done, next}
use storj_uplink.Common.Tables.{get, insert}
use storj_uplink.Common.{
  ℕ, zero, suc, Bool, true, false, not, ◌||◌, List, [], ◌∷◌, Option, none, some, if◌then◌else◌,
  Result, ok, err, ◌>>=◌, ◌>>◌, Bytes, bytes_eq, length,
}

-- `Base`
pub record Base : Type 0 where
  pub unencrypted : Bytes
  pub encrypted : Bytes
  pub key : Key
  pub path_cipher : CipherSuite
  pub default : Bool

abbrev pub Revealed : Type 0
Revealed = List (Bytes × Bytes)

-- `Lookup`
pub record Lookup : Type 0 where
  pub revealed : Option Revealed
  pub remaining : PathIter
  pub base : Option Base

-- `Node`, the map `unenc` of its children being a list of its own.
mutual
  -- The fields `base`, `unenc`, `unenc_map` and `enc_map`.
  pub data Node : Type 0 where
    node : Option Base → Children → Revealed → Revealed → Node

  pub data Children : Type 0 where
    no_children : Children
    child : Bytes → Node → Children → Children

abbrev pub empty_node : Node
empty_node = node none no_children [] []

-- `self.unenc.get(part)` and `self.unenc.insert(part, child)`
unfoldable pub get_child : Bytes → Children → Option Node
get_child part no_children = none
get_child part (child name sub more) = if bytes_eq name part then some sub else get_child part more

unfoldable pub put_child : Bytes → Node → Children → Children
put_child part value no_children = child part value no_children
put_child part value (child name sub more) =
    if bytes_eq name part then child name value more else child name sub (put_child part value more)

-- `Store`
pub record Store : Type 0 where
  pub roots : List (Bytes × Node)
  pub default_key : Option Key
  pub default_path_cipher : CipherSuite
  pub encryption_bypass : Bool

unfoldable pub new_store : Store
new_store = record {
  roots = [];
  default_key = none;
  default_path_cipher = unspecified;
  encryption_bypass = false;
}

unfoldable pub set_default_key : Store → Key → Store
set_default_key s key = record s { default_key = some key }

unfoldable pub set_default_path_cipher : Store → CipherSuite → Store
set_default_path_cipher s cipher = record s { default_path_cipher = cipher }

-- The map holds another value than the given one at this key.
unfoldable pub conflicts : Revealed → Bytes → Bytes → Bool
conflicts entries key value = elim (get key entries) [
  | none ↦ false
  | some ex ↦ not (bytes_eq ex value)
]

abbrev pub or_empty : Option Node → Node
or_empty none = empty_node
or_empty (some n) = n

-- `Node::add`; the fuel bounds the components of the two paths. `next` gives nothing exactly when
-- the iterator is done.
unfoldable pub add_node : ℕ → Node → PathIter → PathIter → Base → Result Error Node
add_node zero n unenc enc base = err out_of_fuel
add_node (suc fuel) (node held subs unenc_map enc_map) unenc enc base =
    if (if done unenc then not (done enc) else done enc) then err conflict else elim (next unenc) [
      | none ↦ ok (node (some base) subs unenc_map enc_map)
      | some (unenc_part, unenc') ↦ elim (next enc) [
        | none ↦ err conflict
        | some (enc_part, enc') ↦
            if conflicts enc_map enc_part unenc_part || conflicts unenc_map unenc_part enc_part
            then err conflict
            else do
              sub ← add_node fuel (or_empty (get_child unenc_part subs)) unenc' enc' base
              ok (
                  node held (put_child unenc_part sub subs) (insert unenc_part enc_part unenc_map)
                    (insert enc_part unenc_part enc_map))
      ]
    ]

abbrev pub is_some {ℓ} : {A : Type ℓ} → Option A → Bool
is_some none = false
is_some (some a) = true

-- `Node::lookup`, with the search for the child as a function of its own.
unfoldable mutual
  unfolding next get

  pub lookup_node : Node → PathIter → PathIter → Option Base → Bool → Lookup
  lookup_node (node held subs unenc_map enc_map) iter best_remaining best_base unenc =
      let better = is_some held || not (is_some best_base) in
      let remaining : PathIter = if better then iter else best_remaining in
      let base : Option Base = if better then held else best_base in
      elim (next iter) [
        | none ↦ record {
          revealed = some (if unenc then enc_map else unenc_map);
          remaining = remaining;
          base = base;
        }
        | some (part, iter') ↦ elim (if unenc then some part else get part enc_map) [
          | none ↦ record { revealed = none; remaining = remaining; base = base }
          | some name ↦ lookup_child subs name iter' remaining base unenc
        ]
      ]

  pub lookup_child : Children → Bytes → PathIter → PathIter → Option Base → Bool → Lookup
  lookup_child no_children name iter remaining base unenc = record {
    revealed = none;
    remaining = remaining;
    base = base;
  }
  lookup_child (child n sub more) name iter remaining base unenc = elim (bytes_eq n name) [
    | true ↦ lookup_node sub iter remaining base unenc
    | false ↦ lookup_child more name iter remaining base unenc
  ]

-- `Store::add_with_cipher`
unfoldable pub add_with_cipher :
    Store → Bytes → Bytes → Bytes → Key → CipherSuite → Result Error Store
unfolding add_node get insert
add_with_cipher s bucket unenc enc key cipher = do
  let base : Base = record {
    unencrypted = unenc;
    encrypted = enc;
    key = key;
    path_cipher = cipher;
    default = false;
  }
  root ←
      add_node (suc (suc (length unenc))) (or_empty (get bucket s.roots)) (new unenc) (new enc) base
  ok (record s { roots = insert bucket root s.roots })

unfoldable pub add : Store → Bytes → Bytes → Bytes → Key → Result Error Store
unfolding add_with_cipher
add s bucket unenc enc key = add_with_cipher s bucket unenc enc key s.default_path_cipher

unfoldable pub default_base : Store → Key → Base
default_base s key = record {
  unencrypted = [];
  encrypted = [];
  key = key;
  path_cipher = s.default_path_cipher;
  default = true;
}

abbrev pub with_bypass : Bool → Option Base → Option Base
with_bypass bypass none = none
with_bypass bypass (some b) =
    some (if bypass then record b { path_cipher = null_base64_url } else b)

unfoldable pub apply_bypass : Store → Lookup → Lookup
apply_bypass s found = record found { base = with_bypass s.encryption_bypass found.base }

-- The walk in the bucket's trie, and what stands for it in a bucket that has none.
unfoldable pub lookup_root : Option Node → Bytes → Bool → Lookup
unfolding lookup_node new
lookup_root none path unenc = record { revealed = none; remaining = new []; base = none }
lookup_root (some root) path unenc = lookup_node root (new path) (new []) none unenc

-- `Store::lookup`
unfoldable pub lookup : Store → Bytes → Bytes → Bool → Lookup
unfolding lookup_root default_base apply_bypass get new
lookup s bucket path unenc =
    let walked = lookup_root (get bucket s.roots) path unenc in
    let fallback = λ (key : Key).
      apply_bypass s
        (record { revealed = none; remaining = new path; base = some (default_base s key) }) in
    elim walked.base [
      | some b ↦ apply_bypass s walked
      | none ↦ elim s.default_key [ none ↦ apply_bypass s walked | some key ↦ fallback key ]
    ]

unfoldable pub lookup_unencrypted : Store → Bytes → Bytes → Lookup
unfolding lookup
lookup_unencrypted s bucket path = lookup s bucket path true

unfoldable pub lookup_encrypted : Store → Bytes → Bytes → Lookup
unfolding lookup
lookup_encrypted s bucket path = lookup s bucket path false

-- `iterate_with_cipher` with the callback's own state threaded through.
module _ {ℓ} {S : Type ℓ} (fn : S → Bytes → Base → Result Error S) where
  abbrev visit_base : Bytes → Option Base → S → Result Error S
  visit_base bucket none s = ok s
  visit_base bucket (some b) s = fn s bucket b

  unfoldable mutual
    pub iterate_node : Bytes → Node → S → Result Error S
    iterate_node bucket (node held subs unenc_map enc_map) s =
        visit_base bucket held s >>= λ s'. iterate_children bucket subs s'

    pub iterate_children : Bytes → Children → S → Result Error S
    iterate_children bucket no_children s = ok s
    iterate_children bucket (child name sub more) s =
        iterate_node bucket sub s >>= λ s'. iterate_children bucket more s'

  unfoldable pub iterate_roots : List (Bytes × Node) → S → Result Error S
  unfolding iterate_node
  iterate_roots [] s = ok s
  iterate_roots ((bucket, root) ∷ roots) s =
      iterate_node bucket root s >>= λ s'. iterate_roots roots s'

  unfoldable pub iterate_with_cipher : Store → S → Result Error S
  unfolding iterate_roots
  iterate_with_cipher store s = iterate_roots store.roots s
