-- ===== src/Access/Prefixes.antt =====
-- crates/storj-access/src/restrict.rs: `collapse_prefixes`, which turns the path caveats of an API
-- key into the prefixes that all of them allow. `decode` stands for `Caveat::decode` (prost) as
-- far as the allowed paths go.
pub mod Meaning
use storj_uplink.Common.Members.{any, all, retain}
use storj_uplink.Access.Error.{Error}
use storj_uplink.Common.{
  Bool, true, false, ◌&&◌, ◌||◌, List, [], ◌∷◌, ◌++◌, if◌then◌else◌, Result, ok, ◌>>=◌, ◌>>◌, Bytes,
  bytes_eq, starts_with,
}

-- `CaveatPath`
pub record CaveatPath : Type 0 where
  pub bucket : Bytes
  pub encrypted_path_prefix : Bytes

abbrev pub Group : Type 0
Group = List CaveatPath

-- The test of `retain`: `cav` lies within `other`.
unfoldable pub is_within : CaveatPath → CaveatPath → Bool
is_within cav other =
    bytes_eq cav.bucket other.bucket
    && starts_with cav.encrypted_path_prefix other.encrypted_path_prefix

abbrev pub is_empty {ℓ} : {A : Type ℓ} → List A → Bool
is_empty [] = true
is_empty (x ∷ xs) = false

module _ (decode : Bytes → Result Error Group) where
  -- The loop over the caveats: `groups` and `prefixes`.
  unfoldable pub gather :
      List Group → List CaveatPath → List Bytes → Result Error (List Group × List CaveatPath)
  gather groups prefixes [] = ok (groups, prefixes)
  gather groups prefixes (cav_data ∷ rest) = decode cav_data >>= λ allowed_paths.
      let more = gather (groups ++ allowed_paths ∷ []) (prefixes ++ allowed_paths) rest in
      let same = gather groups prefixes rest in elim allowed_paths [ [] ↦ same | p ∷ ps ↦ more ]

  -- The prefixes, and whether the key is restricted at all.
  unfoldable pub collapse_prefixes : List Bytes → Result Error (List CaveatPath × Bool)
  unfolding gather is_within
  collapse_prefixes caveats = do
    (groups, prefixes) ← gather [] [] caveats
    if is_empty groups || is_empty prefixes
        then ok ([], false)
        else ok (retain (λ cav. all (λ group. any (is_within cav) group) groups) prefixes, true)
