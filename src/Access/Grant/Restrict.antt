-- ===== src/Access/Grant/Restrict.antt =====
-- `restrict`: the new key still validates, and what is left of the encryption access lies within
-- the prefixes that are shared.
use storj_uplink.Access.Error.{Error, no_randomness, encryption}
use storj_uplink.Access.Macaroon.{Macaroon, serialize, add_first_party_caveat, validate}
use storj_uplink.Access.Macaroon.Chain.{validate-add}
use storj_uplink.Access.ApiKey.{ApiKey, parse_raw, serialize_raw, restrict_key}
use storj_uplink.Access.Prefixes.{CaveatPath, Group, is_within, collapse_prefixes}
use storj_uplink.Access.Prefixes.Meaning.{restrictions, is_allowed, collapse_prefixes-unrestricted}
use storj_uplink.Access.Caveat.{Codec, CodecLaws, Caveat, encode, decode, from_permission}
use storj_uplink.Access.Caveat.RoundTrip.{IsHeld, decode-encode_caveat}
use storj_uplink.Access.Permission.{Permission, validate_permission}
use storj_uplink.Access.EncAccess.{
  StoreEntry, EncryptionAccess, store_from_enc, limit_to, decode_paths,
}
use storj_uplink.Access.EncAccess.Limited.{place, EntryIsAllowed, limit_to-EntryIsAllowed}
use storj_uplink.Access.Grant.{
  Platform, Grant, grant_from_parts, SharePrefix, share_paths, restrict,
}
use storj_uplink.Encryption.Store.{Store}
use storj_uplink.Encryption.StorePaths.{encrypt_path, strip_trailing}
use storj_uplink.Common.Members.{here, any, all, all-Elem, Elem-append_right}
use storj_uplink.Common.{
  ◌≡◌, ◌≢◌, inl, inr, refl, sym, ap, ◌∙◌, Bool, true, false, List, [], ◌∷◌, ◌++◌, Option, none,
  Result, ok, ok_or, map_err, >>=-eq-ok, Result-cases, ok_injective, Bytes, All,
}

-- The caveat that `restrict` attaches.
abbrev pub shared_caveat : Permission → Bytes → List CaveatPath → Caveat
shared_caveat permission nonce paths = record (from_permission permission) {
  nonce = nonce;
  allowed_paths = paths;
}

restrictions-append :
    (decode : Bytes → Result Error Group) (cs : List Bytes) (c : Bytes) (p : CaveatPath)
    (ps : List CaveatPath)
    → decode c ≡ ok (p ∷ ps)
    → restrictions decode (cs ++ c ∷ []) ≡ restrictions decode cs ++ (p ∷ ps) ∷ []
unfolding restrictions
restrictions-append decode [] c p ps h = rw h refl
restrictions-append decode (d ∷ cs) c p ps h = elim (Result-cases (decode d)) [
  | inr (x, e) ↦ rw (e, restrictions) (restrictions-append decode cs c p ps h)
  | inl ([], e) ↦ rw (e, restrictions) (restrictions-append decode cs c p ps h)
  | inl (q ∷ qs, e) ↦
      rw (e, restrictions) (ap (◌∷◌ (q ∷ qs)) (restrictions-append decode cs c p ps h))
]

-- The steps of a `restrict` that succeeds.
restrict_inv :
    (lib : Platform) (g g' : Grant) (permission : Permission) (prefixes : List SharePrefix)
    (nonce : Option Bytes)
    → restrict lib g permission prefixes nonce ≡ ok g'
    → (fresh : Bytes) × (store : Store) × (paths : List CaveatPath) × (key : ApiKey)
      × (enc : EncryptionAccess) × (store_from_enc lib.is_utf8 g.enc_access ≡ ok store)
      × (share_paths lib store prefixes ≡ ok paths)
      × (parse_raw g.api_key ≡ ok key)
      × (limit_to lib.ciphers lib.is_utf8 lib.caveats g.enc_access
            (restrict_key lib.sign key (encode lib.caveats (shared_caveat permission fresh paths)))
          ≡ ok enc)
      × (g'
          ≡ grant_from_parts g.satellite_addr
              (serialize_raw (
                restrict_key lib.sign key
                  (encode lib.caveats (shared_caveat permission fresh paths))))
              enc)
unfolding restrict
restrict_inv lib g g' permission prefixes nonce h =
    let (u, valid, h1) = >>=-eq-ok (validate_permission permission) _ h in
    let (store, from, h2) = >>=-eq-ok (store_from_enc lib.is_utf8 g.enc_access) _ h1 in
    let (fresh, drawn, h3) = >>=-eq-ok (ok_or nonce no_randomness) _ h2 in
    let (paths, shared, h4) = >>=-eq-ok (share_paths lib store prefixes) _ h3 in
    let (key, parsed, h5) = >>=-eq-ok (parse_raw g.api_key) _ h4 in
    let (enc, limited, h6) =
      >>=-eq-ok
        (limit_to lib.ciphers lib.is_utf8 lib.caveats g.enc_access
          (restrict_key lib.sign key (encode lib.caveats (shared_caveat permission fresh paths))))
        _ h5 in
    (fresh, store, paths, key, enc, from, shared, parsed, limited, sym (ok_injective _ g' h6))

-- An entry whose encrypted path lies within one of the paths, in its bucket.
abbrev pub IsShared : List CaveatPath → StoreEntry → Type 0
IsShared paths e = any (is_within (place e.bucket e.encrypted_path)) paths ≡ true

decoded_paths :
    (codec : Codec) (laws : CodecLaws codec) (c : Caveat) (p : CaveatPath) (ps : List CaveatPath)
    → IsHeld c
    → c.allowed_paths ≡ p ∷ ps
    → decode_paths codec (encode codec c) ≡ ok (p ∷ ps)
unfolding decode_paths
decoded_paths codec laws c p ps v q = rw (decode-encode_caveat codec laws c v) (ap ok q)

allowed_groups :
    (codec : Codec) (key : ApiKey) (e : StoreEntry)
    → EntryIsAllowed codec key e
    → all
        (λ g. any (is_within (place e.bucket e.encrypted_path)) g)
        (restrictions (decode_paths codec) key.mac.caveats)
      ≡ true
unfolding is_allowed
allowed_groups codec key e h = h

entry-IsShared :
    (codec : Codec) (laws : CodecLaws codec) (sign : Bytes → Bytes → Bytes) (key : ApiKey)
    (c : Caveat) (p : CaveatPath) (ps : List CaveatPath) (e : StoreEntry)
    → IsHeld c
    → c.allowed_paths ≡ p ∷ ps
    → EntryIsAllowed codec (restrict_key sign key (encode codec c)) e
    → IsShared (p ∷ ps) e
entry-IsShared codec laws sign key c p ps e v q h =
    let groups =
      restrictions-append (decode_paths codec) key.mac.caveats (encode codec c) p ps
        (decoded_paths codec laws c p ps v q) in
    let all_groups : all (λ g. any (is_within (place e.bucket e.encrypted_path)) g)
          (restrictions (decode_paths codec) (key.mac.caveats ++ encode codec c ∷ []))
        ≡ true =
      unfold restrict_key add_first_party_caveat in
      allowed_groups codec (restrict_key sign key (encode codec c)) e h in
    all-Elem (λ g. any (is_within (place e.bucket e.encrypted_path)) g) (p ∷ ps)
      (restrictions (decode_paths codec) key.mac.caveats ++ (p ∷ ps) ∷ []) (rw groups at all_groups)
      (Elem-append_right (p ∷ ps) (restrictions (decode_paths codec) key.mac.caveats)
        ((p ∷ ps) ∷ []) here)

entries-IsShared :
    (codec : Codec) (laws : CodecLaws codec) (sign : Bytes → Bytes → Bytes) (key : ApiKey)
    (c : Caveat) (p : CaveatPath) (ps : List CaveatPath)
    → IsHeld c
    → c.allowed_paths ≡ p ∷ ps
    → (es : List StoreEntry)
    → All (EntryIsAllowed codec (restrict_key sign key (encode codec c))) es
    → All (IsShared (p ∷ ps)) es
entries-IsShared codec laws sign key c p ps v q [] h = tt
entries-IsShared codec laws sign key c p ps v q (e ∷ es) h = (
  entry-IsShared codec laws sign key c p ps e v q h.0,
  entries-IsShared codec laws sign key c p ps v q es h.1,
)

shared_nonempty :
    (lib : Platform) (store : Store) (first : SharePrefix) (others : List SharePrefix)
    (paths : List CaveatPath)
    → share_paths lib store (first ∷ others) ≡ ok paths
    → (p : CaveatPath) × (ps : List CaveatPath) × (paths ≡ p ∷ ps)
unfolding share_paths
shared_nonempty lib store first others paths h =
    let (enc_path, one, h1) =
      >>=-eq-ok
        (map_err encryption
          (encrypt_path lib.ciphers first.bucket (strip_trailing first.prefix).1 store))
        _ h in
    let (ps, more, h2) = >>=-eq-ok (share_paths lib store others) _ h1 in
    (
      record { bucket = first.bucket; encrypted_path_prefix = enc_path },
      ps,
      sym (ok_injective _ paths h2),
    )

not_empty : (gs : List Group) (g : Group) → gs ++ g ∷ [] ≢ []
not_empty [] g e = cc
not_empty (h ∷ gs) g e = cc

-- A key with a caveat that has paths is reported as restricted.
restricted_flag :
    (decode : Bytes → Result Error Group) (cs : List Bytes) (c : Bytes) (p : CaveatPath)
    (ps prefixes : List CaveatPath) (flag : Bool)
    → decode c ≡ ok (p ∷ ps)
    → collapse_prefixes decode (cs ++ c ∷ []) ≡ ok (prefixes, flag)
    → collapse_prefixes decode (cs ++ c ∷ []) ≡ ok (prefixes, true)
restricted_flag decode cs c p ps prefixes true d e = e
restricted_flag decode cs c p ps prefixes false d e =
    let (empty, gone, more) = collapse_prefixes-unrestricted decode (cs ++ c ∷ []) prefixes e in
    absurd (
      not_empty (restrictions decode cs) (p ∷ ps)
        (sym (restrictions-append decode cs c p ps d) ∙ empty))

restricted :
    (lib : Platform) (laws : CodecLaws lib.caveats) (key : ApiKey) (c : Caveat) (p : CaveatPath)
    (ps : List CaveatPath) (enc limited : EncryptionAccess)
    → IsHeld c
    → c.allowed_paths ≡ p ∷ ps
    → limit_to lib.ciphers lib.is_utf8 lib.caveats enc
        (restrict_key lib.sign key (encode lib.caveats c))
      ≡ ok limited
    → (prefixes : List CaveatPath) × (collapse_prefixes
          (decode_paths lib.caveats)
          (key.mac.caveats ++ encode lib.caveats c ∷ [])
        ≡ ok (prefixes, true))
unfolding limit_to restrict_key add_first_party_caveat
restricted lib laws key c p ps enc limited v q h =
    let cs = key.mac.caveats ++ encode lib.caveats c ∷ [] in
    let (r, e, rest) =
      >>=-eq-ok
        (collapse_prefixes (decode_paths lib.caveats)
          (key.mac.caveats ++ encode lib.caveats c ∷ []))
        _ h in
    (
      r.0,
      restricted_flag (decode_paths lib.caveats) key.mac.caveats (encode lib.caveats c) p ps r.0 r.1
          (decoded_paths lib.caveats laws c p ps v q) e,
    )

-- A grant that is restricted to prefixes keeps no default key, and each entry that is left has an
-- encrypted path within one of the paths that the prefixes are encrypted to, in its bucket. The
-- permission's times have seconds in i64 and all its nanoseconds are below a second, as the types of
-- the platform have them. The caveat codec is assumed to keep its law.
pub restrict-IsShared :
    (lib : Platform) (laws : CodecLaws lib.caveats) (g g' : Grant) (permission : Permission)
    (first : SharePrefix) (others : List SharePrefix) (nonce : Option Bytes)
    → IsHeld (from_permission permission)
    → restrict lib g permission (first ∷ others) nonce ≡ ok g'
    → (store : Store) × (paths : List CaveatPath) × (store_from_enc lib.is_utf8 g.enc_access
        ≡ ok store)
      × (share_paths lib store (first ∷ others) ≡ ok paths)
      × (g'.enc_access.default_key ≡ none)
      × All (IsShared paths) g'.enc_access.store_entries
unfolding grant_from_parts
restrict-IsShared lib laws g g' permission first others nonce v h =
    let (fresh, store, paths, key, enc, from, shared, parsed, limited, q) =
      restrict_inv lib g g' permission (first ∷ others) nonce h in
    let (p, ps, some_paths) = shared_nonempty lib store first others paths shared in
    let c = shared_caveat permission fresh paths in
    let timed : IsHeld c = record {
      after_time = v.after_time;
      before_time = v.before_time;
      ttl = v.ttl;
    } in
    let (prefixes, collapse) =
      restricted lib laws key c p ps g.enc_access enc timed some_paths limited in
    let (no_key, allowed) =
      limit_to-EntryIsAllowed lib.ciphers lib.is_utf8 lib.caveats g.enc_access enc
        (restrict_key lib.sign key (encode lib.caveats c)) prefixes
        (unfold restrict_key add_first_party_caveat in collapse) limited in
    (
      store,
      paths,
      from,
      shared,
      rw q no_key,
      rw q (
          rw some_paths (
            entries-IsShared lib.caveats laws lib.sign key c p ps timed some_paths enc.store_entries
              allowed)),
    )

-- The key of a restricted grant is the grant's key with one caveat more, and it validates under
-- every secret under which the grant's key does.
pub restrict_validates :
    (lib : Platform) (g g' : Grant) (permission : Permission) (prefixes : List SharePrefix)
    (nonce : Option Bytes) (secret : Bytes) (key : ApiKey)
    → restrict lib g permission prefixes nonce ≡ ok g'
    → parse_raw g.api_key ≡ ok key
    → validate lib.sign key.mac secret ≡ true
    → (m : Macaroon) × (c : Caveat) × (g'.api_key ≡ serialize m)
      × (validate lib.sign m secret ≡ true)
      × (m.caveats ≡ key.mac.caveats ++ encode lib.caveats c ∷ [])
restrict_validates lib g g' permission prefixes nonce secret key h parsed valid =
    let (fresh, store, paths, key', enc, from, shared, parsed', limited, q) =
      restrict_inv lib g g' permission prefixes nonce h in
    let same : key' ≡ key = ok_injective key' key (sym parsed' ∙ parsed) in
    let c = shared_caveat permission fresh paths in
    let bytes = encode lib.caveats c in
    (
      add_first_party_caveat lib.sign key.mac bytes,
      c,
      rw q (unfold grant_from_parts serialize_raw restrict_key in rw same refl),
      validate-add lib.sign key.mac bytes secret valid,
      unfold add_first_party_caveat in refl,
    )
