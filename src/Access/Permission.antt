-- ===== src/Access/Permission.antt =====
-- crates/storj-access/src/macaroon.rs: `Permission`; restrict.rs: validate_permission.
use storj_uplink.Access.Error.{Error, permission_empty, time_range, non_positive_ttl}
use storj_uplink.Access.Time.{SystemTime, Duration}
use storj_uplink.Common.Integers.{ℤ, pos, negsuc}
use storj_uplink.Common.{
  Bool, true, false, not, ◌&&◌, ◌||◌, Option, none, some, ltb, ◌==◌, if◌then◌else◌, Result, ok, err,
}

-- `Permission`
pub record Permission : Type 0 where
  pub allow_download : Bool
  pub allow_upload : Bool
  pub allow_list : Bool
  pub allow_delete : Bool
  pub allow_lock : Bool
  pub allow_put_object_retention : Bool
  pub allow_get_object_retention : Bool
  pub allow_put_object_legal_hold : Bool
  pub allow_get_object_legal_hold : Bool
  pub allow_bypass_governance_retention : Bool
  pub allow_put_bucket_object_lock_configuration : Bool
  pub allow_get_bucket_object_lock_configuration : Bool
  pub not_before : Option SystemTime
  pub not_after : Option SystemTime
  pub max_object_ttl : Option Duration

-- `Permission::default`
unfoldable pub no_permission : Permission
no_permission = record {
  allow_download = false;
  allow_upload = false;
  allow_list = false;
  allow_delete = false;
  allow_lock = false;
  allow_put_object_retention = false;
  allow_get_object_retention = false;
  allow_put_object_legal_hold = false;
  allow_get_object_legal_hold = false;
  allow_bypass_governance_retention = false;
  allow_put_bucket_object_lock_configuration = false;
  allow_get_bucket_object_lock_configuration = false;
  not_before = none;
  not_after = none;
  max_object_ttl = none;
}

-- `Permission::full`, `read_only` and `write_only`.
unfoldable pub full : Permission
full = record {
  allow_download = true;
  allow_upload = true;
  allow_list = true;
  allow_delete = true;
  allow_lock = false;
  allow_put_object_retention = true;
  allow_get_object_retention = true;
  allow_put_object_legal_hold = true;
  allow_get_object_legal_hold = true;
  allow_bypass_governance_retention = true;
  allow_put_bucket_object_lock_configuration = true;
  allow_get_bucket_object_lock_configuration = true;
  not_before = none;
  not_after = none;
  max_object_ttl = none;
}

unfoldable pub read_only : Permission
unfolding no_permission
read_only = record no_permission { allow_download = true; allow_list = true }

unfoldable pub write_only : Permission
unfolding no_permission
write_only = record no_permission { allow_upload = true; allow_delete = true }

abbrev is_none {ℓ} : {A : Type ℓ} → Option A → Bool
is_none none = true
is_none (some a) = false

-- `*self == Self::default()`
unfoldable pub permission_is_empty : Permission → Bool
permission_is_empty p =
    not p.allow_download
    && not p.allow_upload
    && not p.allow_list
    && not p.allow_delete
    && not p.allow_lock
    && not p.allow_put_object_retention
    && not p.allow_get_object_retention
    && not p.allow_put_object_legal_hold
    && not p.allow_get_object_legal_hold
    && not p.allow_bypass_governance_retention
    && not p.allow_put_bucket_object_lock_configuration
    && not p.allow_get_bucket_object_lock_configuration
    && is_none p.not_before
    && is_none p.not_after
    && is_none p.max_object_ttl

-- The order of `SystemTime`.
abbrev secs_ltb : ℤ → ℤ → Bool
secs_ltb (pos n) (pos m) = ltb n m
secs_ltb (pos n) (negsuc m) = false
secs_ltb (negsuc n) (pos m) = true
secs_ltb (negsuc n) (negsuc m) = ltb m n

abbrev secs_eq : ℤ → ℤ → Bool
secs_eq (pos n) (pos m) = n == m
secs_eq (pos n) (negsuc m) = false
secs_eq (negsuc n) (pos m) = false
secs_eq (negsuc n) (negsuc m) = n == m

unfoldable pub time_ltb : SystemTime → SystemTime → Bool
time_ltb s t = secs_ltb s.secs t.secs || (secs_eq s.secs t.secs && ltb s.nanos t.nanos)

-- `not_after < not_before`, where both are set.
unfoldable pub ends_before_start : Option SystemTime → Option SystemTime → Bool
unfolding time_ltb
ends_before_start (some not_before) (some not_after) = time_ltb not_after not_before
ends_before_start (some not_before) none = false
ends_before_start none not_after = false

unfoldable pub is_zero_ttl : Option Duration → Bool
is_zero_ttl none = false
is_zero_ttl (some d) = d.secs == 0 && d.nanos == 0

-- restrict.rs: `validate_permission`
unfoldable pub validate_permission : Permission → Result Error (Unit {0})
unfolding permission_is_empty ends_before_start is_zero_ttl
validate_permission p =
    if permission_is_empty p
    then err permission_empty
    else if ends_before_start p.not_before p.not_after
    then err time_range
    else if is_zero_ttl p.max_object_ttl
    then err non_positive_ttl
    else ok tt
