-- ===== src/Access/Caveat.antt =====
-- crates/storj-access/src/macaroon.rs: `Caveat`, its protobuf form and the conversions.
-- The encoding of the protobuf message (prost) is a parameter.
pub mod RoundTrip
use mathlib.Core.Option
use storj_uplink.Access.Error.{Error, caveat_format}
use storj_uplink.Access.Prefixes.{CaveatPath}
use storj_uplink.Access.Time.{
  SystemTime, Duration, Timestamp, timestamp_from_system, system_from_timestamp, duration_from_std,
  std_from_duration,
}
use storj_uplink.Common.{
  ◌≡◌, Bool, true, not, List, [], map, Option, none, some, Result, ok, ◌>>=◌, ok_or, Bytes,
}
use storj_uplink.Access.Permission.{Permission}

-- `Caveat`, whose flags disallow.
pub record Caveat : Type 0 where
  pub disallow_reads : Bool
  pub disallow_writes : Bool
  pub disallow_lists : Bool
  pub disallow_deletes : Bool
  pub disallow_locks : Bool
  pub disallow_put_retention : Bool
  pub disallow_get_retention : Bool
  pub disallow_put_legal_hold : Bool
  pub disallow_get_legal_hold : Bool
  pub disallow_bypass_governance_retention : Bool
  pub disallow_put_bucket_object_lock_configuration : Bool
  pub disallow_get_bucket_object_lock_configuration : Bool
  pub disallow_put_bucket_notification_configuration : Bool
  pub disallow_get_bucket_notification_configuration : Bool
  pub allowed_paths : List CaveatPath
  pub not_after : Option SystemTime
  pub not_before : Option SystemTime
  pub max_object_ttl : Option Duration
  pub nonce : Bytes

-- `pb::CaveatPath` and `pb::Caveat`
pub record PathMessage : Type 0 where
  pub bucket : Bytes
  pub encrypted_path_prefix : Bytes

pub record Message : Type 0 where
  pub disallow_reads : Bool
  pub disallow_writes : Bool
  pub disallow_lists : Bool
  pub disallow_deletes : Bool
  pub disallow_locks : Bool
  pub disallow_put_retention : Bool
  pub disallow_get_retention : Bool
  pub disallow_put_legal_hold : Bool
  pub disallow_get_legal_hold : Bool
  pub disallow_bypass_governance_retention : Bool
  pub disallow_put_bucket_object_lock_configuration : Bool
  pub disallow_get_bucket_object_lock_configuration : Bool
  pub disallow_put_bucket_notification_configuration : Bool
  pub disallow_get_bucket_notification_configuration : Bool
  pub allowed_paths : List PathMessage
  pub not_after : Option Timestamp
  pub not_before : Option Timestamp
  pub max_object_ttl : Option Timestamp
  pub nonce : Bytes

unfoldable pub from_permission : Permission → Caveat
from_permission p = record {
  disallow_reads = not p.allow_download;
  disallow_writes = not p.allow_upload;
  disallow_lists = not p.allow_list;
  disallow_deletes = not p.allow_delete;
  disallow_locks = not p.allow_lock;
  disallow_put_retention = not p.allow_put_object_retention;
  disallow_get_retention = not p.allow_get_object_retention;
  disallow_put_legal_hold = not p.allow_put_object_legal_hold;
  disallow_get_legal_hold = not p.allow_get_object_legal_hold;
  disallow_bypass_governance_retention = not p.allow_bypass_governance_retention;
  disallow_put_bucket_object_lock_configuration = not p.allow_put_bucket_object_lock_configuration;
  disallow_get_bucket_object_lock_configuration = not p.allow_get_bucket_object_lock_configuration;
  disallow_put_bucket_notification_configuration = true;
  disallow_get_bucket_notification_configuration = true;
  allowed_paths = [];
  not_after = p.not_after;
  not_before = p.not_before;
  max_object_ttl = p.max_object_ttl;
  nonce = [];
}

abbrev path_to_proto : CaveatPath → PathMessage
path_to_proto p = record { bucket = p.bucket; encrypted_path_prefix = p.encrypted_path_prefix }

abbrev path_from_proto : PathMessage → CaveatPath
path_from_proto p = record { bucket = p.bucket; encrypted_path_prefix = p.encrypted_path_prefix }

abbrev and_then {ℓ κ} : {A : Type ℓ} {B : Type κ} → Option A → (A → Option B) → Option B
and_then none f = none
and_then (some a) f = f a

unfoldable pub to_proto : Caveat → Message
to_proto c = record {
  disallow_reads = c.disallow_reads;
  disallow_writes = c.disallow_writes;
  disallow_lists = c.disallow_lists;
  disallow_deletes = c.disallow_deletes;
  disallow_locks = c.disallow_locks;
  disallow_put_retention = c.disallow_put_retention;
  disallow_get_retention = c.disallow_get_retention;
  disallow_put_legal_hold = c.disallow_put_legal_hold;
  disallow_get_legal_hold = c.disallow_get_legal_hold;
  disallow_bypass_governance_retention = c.disallow_bypass_governance_retention;
  disallow_put_bucket_object_lock_configuration = c.disallow_put_bucket_object_lock_configuration;
  disallow_get_bucket_object_lock_configuration = c.disallow_get_bucket_object_lock_configuration;
  disallow_put_bucket_notification_configuration = c.disallow_put_bucket_notification_configuration;
  disallow_get_bucket_notification_configuration = c.disallow_get_bucket_notification_configuration;
  allowed_paths = map path_to_proto c.allowed_paths;
  not_after = Option.map timestamp_from_system c.not_after;
  not_before = Option.map timestamp_from_system c.not_before;
  max_object_ttl = Option.map duration_from_std c.max_object_ttl;
  nonce = c.nonce;
}

unfoldable pub from_proto : Message → Caveat
from_proto p = record {
  disallow_reads = p.disallow_reads;
  disallow_writes = p.disallow_writes;
  disallow_lists = p.disallow_lists;
  disallow_deletes = p.disallow_deletes;
  disallow_locks = p.disallow_locks;
  disallow_put_retention = p.disallow_put_retention;
  disallow_get_retention = p.disallow_get_retention;
  disallow_put_legal_hold = p.disallow_put_legal_hold;
  disallow_get_legal_hold = p.disallow_get_legal_hold;
  disallow_bypass_governance_retention = p.disallow_bypass_governance_retention;
  disallow_put_bucket_object_lock_configuration = p.disallow_put_bucket_object_lock_configuration;
  disallow_get_bucket_object_lock_configuration = p.disallow_get_bucket_object_lock_configuration;
  disallow_put_bucket_notification_configuration = p.disallow_put_bucket_notification_configuration;
  disallow_get_bucket_notification_configuration = p.disallow_get_bucket_notification_configuration;
  allowed_paths = map path_from_proto p.allowed_paths;
  not_after = and_then p.not_after system_from_timestamp;
  not_before = and_then p.not_before system_from_timestamp;
  max_object_ttl = and_then p.max_object_ttl std_from_duration;
  nonce = p.nonce;
}

-- `Message::encode_to_vec` and `pb::Caveat::decode`, and that decoding undoes encoding.
pub record Codec : Type 0 where
  pub encode_message : Message → Bytes
  pub decode_message : Bytes → Option Message

pub record CodecLaws (codec : Codec) : Type 0 where
  pub decode-encode : (m : Message) → codec.decode_message (codec.encode_message m) ≡ some m

module _ (codec : Codec) where
  unfoldable pub encode : Caveat → Bytes
  unfolding to_proto
  encode c = codec.encode_message (to_proto c)

  unfoldable pub decode : Bytes → Result Error Caveat
  unfolding from_proto
  decode input = ok_or (codec.decode_message input) caveat_format >>= λ p. ok (from_proto p)
