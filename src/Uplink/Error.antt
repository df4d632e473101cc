-- ===== src/Uplink/Error.antt =====
-- crates/storj-uplink/src/lib.rs: `Error`, as far as the modelled code raises it. The messages of
-- `Error::protocol` are constructors of their own.
use storj_uplink.Encryption.Error as EncryptionError
use storj_uplink.Ec.Error as EcError

pub data Error : Type 0 where
  encryption : EncryptionError.Error → Error
  ec : EcError.Error → Error
  does_not_fit : Error
  invalid_redundancy : Error
  too_few_pieces : Error
  share_size_zero : Error
  piece_lengths_differ : Error
  not_a_multiple : Error
  past_piece_length : Error
  index_missing : Error
