-- ===== src/Access/Error.antt =====
-- crates/storj-access: the messages of `Error::new`, one constructor for each text.
-- `out_of_fuel` is no error of the source: it stands for a loop that is cut off.
use storj_uplink.Encryption.Error as Encryption

pub data Error : Type 0 where
  empty_macaroon invalid_version invalid_header no_identifier invalid_field extra_fields : Error
  not_signature signature_length varint_error out_of_bounds past_end out_of_order : Error
  api_key_format caveat_format permission_empty time_range non_positive_ttl : Error
  empty_grant grant_format scope_format missing_satellite missing_api_key : Error
  missing_enc_access default_key_size entry_key_size bucket_not_utf8 prefix_slash : Error
  no_randomness : Error
  malformed_api_key malformed_enc_access invalid_entry : Error → Error
  encryption : Encryption.Error → Error
  out_of_fuel : Error
