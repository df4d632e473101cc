-- ===== src/Encryption/Error.antt =====
-- crates/storj-encryption/src/error.rs: `ErrorKind`, as far as the modelled code raises it.
-- `overflowed` stands for the panic of arithmetic that leaves its type, `out_of_fuel` for a loop
-- that is cut off; neither is an error of the source.
pub data Error : Type 0 where
  invalid_config : Error
  decryption_failed : Error
  conflict : Error
  missing_encryption_base : Error
  missing_decryption_base : Error
  overflowed : Error
  out_of_fuel : Error
