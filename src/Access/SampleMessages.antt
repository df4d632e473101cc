-- ===== src/Access/SampleMessages.antt =====
-- Coders of the messages of crates/storj-access, for examples.
use storj_uplink.Access.Coders.{Coder, Pair, both, bytes, flag, int, iso, list, option, pair}
use storj_uplink.Common.Integers.{ℤ}
use storj_uplink.Access.Time.{Timestamp}
use storj_uplink.Access.Caveat.{Message, PathMessage}
use storj_uplink.Access.EncAccess.{EncryptionParameters, StoreEntry, EncryptionAccess}
use storj_uplink.Access.EncAccess.Message.{ParametersMessage, EntryMessage, AccessMessage}
use storj_uplink.Access.Grant.{Scope}
use storj_uplink.Common.{◌≡◌, refl, Bool, List, [], Option, none, some, Bytes}

abbrev pub timestamp_tuple : Timestamp → Pair (ℤ) (ℤ)
timestamp_tuple b = pair (b.seconds) (b.nanos)

abbrev pub timestamp_record : Pair (ℤ) (ℤ) → Timestamp
timestamp_record p = record { seconds = p.fst; nanos = p.snd }

abbrev pub timestamp : Coder Timestamp
timestamp = iso (both (int) (int)) timestamp_tuple timestamp_record (λ b. refl)

abbrev pub path_tuple : PathMessage → Pair (Bytes) (Bytes)
path_tuple b = pair (b.bucket) (b.encrypted_path_prefix)

abbrev pub path_record : Pair (Bytes) (Bytes) → PathMessage
path_record p = record { bucket = p.fst; encrypted_path_prefix = p.snd }

abbrev pub path : Coder PathMessage
path = iso (both (bytes) (bytes)) path_tuple path_record (λ b. refl)

abbrev pub message_tuple :
    Message
    → Pair (Bool) (
        Pair (Bool) (
          Pair (Bool) (
            Pair (Bool) (
              Pair (Bool) (
                Pair (Bool) (
                  Pair (Bool) (
                    Pair (Bool) (
                      Pair (Bool) (
                        Pair (Bool) (
                          Pair (Bool) (
                            Pair (Bool) (
                              Pair (Bool) (
                                Pair (Bool) (
                                  Pair (List PathMessage) (
                                    Pair (Option Timestamp) (
                                      Pair
                                        (Option Timestamp)
                                        (Pair (Option Timestamp) (Bytes))))))))))))))))))
message_tuple b = pair (b.disallow_reads) (
    pair (b.disallow_writes) (
      pair (b.disallow_lists) (
        pair (b.disallow_deletes) (
          pair (b.disallow_locks) (
            pair (b.disallow_put_retention) (
              pair (b.disallow_get_retention) (
                pair (b.disallow_put_legal_hold) (
                  pair (b.disallow_get_legal_hold) (
                    pair (b.disallow_bypass_governance_retention) (
                      pair (b.disallow_put_bucket_object_lock_configuration) (
                        pair (b.disallow_get_bucket_object_lock_configuration) (
                          pair (b.disallow_put_bucket_notification_configuration) (
                            pair (b.disallow_get_bucket_notification_configuration) (
                              pair (b.allowed_paths) (
                                pair (b.not_after) (
                                  pair (b.not_before)
                                    (pair (b.max_object_ttl) (b.nonce))))))))))))))))))

abbrev pub message_record :
    Pair (Bool) (
      Pair (Bool) (
        Pair (Bool) (
          Pair (Bool) (
            Pair (Bool) (
              Pair (Bool) (
                Pair (Bool) (
                  Pair (Bool) (
                    Pair (Bool) (
                      Pair (Bool) (
                        Pair (Bool) (
                          Pair (Bool) (
                            Pair (Bool) (
                              Pair (Bool) (
                                Pair (List PathMessage) (
                                  Pair (Option Timestamp) (
                                    Pair
                                      (Option Timestamp)
                                      (Pair (Option Timestamp) (Bytes))))))))))))))))))
    → Message
message_record p = record {
  disallow_reads = p.fst;
  disallow_writes = p.snd.fst;
  disallow_lists = p.snd.snd.fst;
  disallow_deletes = p.snd.snd.snd.fst;
  disallow_locks = p.snd.snd.snd.snd.fst;
  disallow_put_retention = p.snd.snd.snd.snd.snd.fst;
  disallow_get_retention = p.snd.snd.snd.snd.snd.snd.fst;
  disallow_put_legal_hold = p.snd.snd.snd.snd.snd.snd.snd.fst;
  disallow_get_legal_hold = p.snd.snd.snd.snd.snd.snd.snd.snd.fst;
  disallow_bypass_governance_retention = p.snd.snd.snd.snd.snd.snd.snd.snd.snd.fst;
  disallow_put_bucket_object_lock_configuration = p.snd.snd.snd.snd.snd.snd.snd.snd.snd.snd.fst;
  disallow_get_bucket_object_lock_configuration = p.snd.snd.snd.snd.snd.snd.snd.snd.snd.snd.snd.fst;
  disallow_put_bucket_notification_configuration =
      p.snd.snd.snd.snd.snd.snd.snd.snd.snd.snd.snd.snd.fst;
  disallow_get_bucket_notification_configuration =
      p.snd.snd.snd.snd.snd.snd.snd.snd.snd.snd.snd.snd.snd.fst;
  allowed_paths = p.snd.snd.snd.snd.snd.snd.snd.snd.snd.snd.snd.snd.snd.snd.fst;
  not_after = p.snd.snd.snd.snd.snd.snd.snd.snd.snd.snd.snd.snd.snd.snd.snd.fst;
  not_before = p.snd.snd.snd.snd.snd.snd.snd.snd.snd.snd.snd.snd.snd.snd.snd.snd.fst;
  max_object_ttl = p.snd.snd.snd.snd.snd.snd.snd.snd.snd.snd.snd.snd.snd.snd.snd.snd.snd.fst;
  nonce = p.snd.snd.snd.snd.snd.snd.snd.snd.snd.snd.snd.snd.snd.snd.snd.snd.snd.snd;
}

abbrev pub message : Coder Message
message =
    iso
      (both (flag) (
        both (flag) (
          both (flag) (
            both (flag) (
              both (flag) (
                both (flag) (
                  both (flag) (
                    both (flag) (
                      both (flag) (
                        both (flag) (
                          both (flag) (
                            both (flag) (
                              both (flag) (
                                both (flag) (
                                  both (list path) (
                                    both (option timestamp) (
                                      both (option timestamp)
                                        (both (option timestamp) (bytes)))))))))))))))))))
      message_tuple message_record (λ b. refl)

abbrev pub parameters_tuple : ParametersMessage → Pair (ℤ) (ℤ)
parameters_tuple b = pair (b.cipher_suite) (b.block_size)

abbrev pub parameters_record : Pair (ℤ) (ℤ) → ParametersMessage
parameters_record p = record { cipher_suite = p.fst; block_size = p.snd }

abbrev pub parameters : Coder ParametersMessage
parameters = iso (both (int) (int)) parameters_tuple parameters_record (λ b. refl)

abbrev pub entry_tuple :
    EntryMessage
    → Pair
        (Bytes)
        (Pair (Bytes) (Pair (Bytes) (Pair (Bytes) (Pair (ℤ) (Option ParametersMessage)))))
entry_tuple b = pair (b.bucket) (
    pair (b.unencrypted_path)
      (pair (b.encrypted_path) (pair (b.key) (pair (b.path_cipher) (b.encryption_parameters)))))

abbrev pub entry_record :
    Pair (Bytes) (Pair (Bytes) (Pair (Bytes) (Pair (Bytes) (Pair (ℤ) (Option ParametersMessage)))))
    → EntryMessage
entry_record p = record {
  bucket = p.fst;
  unencrypted_path = p.snd.fst;
  encrypted_path = p.snd.snd.fst;
  key = p.snd.snd.snd.fst;
  path_cipher = p.snd.snd.snd.snd.fst;
  encryption_parameters = p.snd.snd.snd.snd.snd;
}

abbrev pub entry : Coder EntryMessage
entry =
    iso (both (bytes) (both (bytes) (both (bytes) (both (bytes) (both (int) (option parameters))))))
      entry_tuple entry_record (λ b. refl)

abbrev pub access_tuple :
    AccessMessage → Pair (Bytes) (Pair (List EntryMessage) (Pair (ℤ) (Option ParametersMessage)))
access_tuple b =
    pair (b.default_key)
      (pair (b.store_entries) (pair (b.default_path_cipher) (b.default_encryption_parameters)))

abbrev pub access_record :
    Pair (Bytes) (Pair (List EntryMessage) (Pair (ℤ) (Option ParametersMessage))) → AccessMessage
access_record p = record {
  default_key = p.fst;
  store_entries = p.snd.fst;
  default_path_cipher = p.snd.snd.fst;
  default_encryption_parameters = p.snd.snd.snd;
}

abbrev pub access : Coder AccessMessage
access =
    iso (both (bytes) (both (list entry) (both (int) (option parameters)))) access_tuple
      access_record (λ b. refl)

abbrev pub scope_tuple : Scope → Pair (Bytes) (Pair (Bytes) (Option AccessMessage))
scope_tuple b = pair (b.satellite_addr) (pair (b.api_key) (b.encryption_access))

abbrev pub scope_record : Pair (Bytes) (Pair (Bytes) (Option AccessMessage)) → Scope
scope_record p = record {
  satellite_addr = p.fst;
  api_key = p.snd.fst;
  encryption_access = p.snd.snd;
}

abbrev pub scope : Coder Scope
scope = iso (both (bytes) (both (bytes) (option access))) scope_tuple scope_record (λ b. refl)

abbrev pub owned_parameters_tuple : EncryptionParameters → Pair (ℤ) (ℤ)
owned_parameters_tuple b = pair (b.cipher_suite) (b.block_size)

abbrev pub owned_parameters_record : Pair (ℤ) (ℤ) → EncryptionParameters
owned_parameters_record p = record { cipher_suite = p.fst; block_size = p.snd }

abbrev pub owned_parameters : Coder EncryptionParameters
owned_parameters = iso (both (int) (int)) owned_parameters_tuple owned_parameters_record (λ b. refl)

abbrev pub owned_entry_tuple :
    StoreEntry
    → Pair
        (Bytes)
        (Pair (Bytes) (Pair (Bytes) (Pair (Bytes) (Pair (ℤ) (Option EncryptionParameters)))))
owned_entry_tuple b = pair (b.bucket) (
    pair (b.unencrypted_path)
      (pair (b.encrypted_path) (pair (b.key) (pair (b.path_cipher) (b.encryption_parameters)))))

abbrev pub owned_entry_record :
    Pair
      (Bytes)
      (Pair (Bytes) (Pair (Bytes) (Pair (Bytes) (Pair (ℤ) (Option EncryptionParameters)))))
    → StoreEntry
owned_entry_record p = record {
  bucket = p.fst;
  unencrypted_path = p.snd.fst;
  encrypted_path = p.snd.snd.fst;
  key = p.snd.snd.snd.fst;
  path_cipher = p.snd.snd.snd.snd.fst;
  encryption_parameters = p.snd.snd.snd.snd.snd;
}

abbrev pub owned_entry : Coder StoreEntry
owned_entry =
    iso
      (both (bytes)
        (both (bytes) (both (bytes) (both (bytes) (both (int) (option owned_parameters))))))
      owned_entry_tuple owned_entry_record (λ b. refl)

abbrev pub owned_access_tuple :
    EncryptionAccess
    → Pair (Option Bytes) (Pair (ℤ) (Pair (List StoreEntry) (Option EncryptionParameters)))
owned_access_tuple b =
    pair (b.default_key)
      (pair (b.default_path_cipher) (pair (b.store_entries) (b.default_encryption_parameters)))

abbrev pub owned_access_record :
    Pair (Option Bytes) (Pair (ℤ) (Pair (List StoreEntry) (Option EncryptionParameters)))
    → EncryptionAccess
owned_access_record p = record {
  default_key = p.fst;
  default_path_cipher = p.snd.fst;
  store_entries = p.snd.snd.fst;
  default_encryption_parameters = p.snd.snd.snd;
}

abbrev pub owned_access : Coder EncryptionAccess
owned_access =
    iso (both (option bytes) (both (int) (both (list owned_entry) (option owned_parameters))))
      owned_access_tuple owned_access_record (λ b. refl)

abbrev pub first {ℓ} : {A : Type ℓ} → Option (A × Bytes) → Option A
first none = none
first (some (a, rest)) = some a

pub first_back : {A : Type 0} (c : Coder A) (a : A) → first (c.read (c.put a [])) ≡ some a
first_back c a = rw (c.back a []) refl
