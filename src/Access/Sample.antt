-- ===== src/Access/Sample.antt =====
-- A platform for examples of crates/storj-access, with the laws of the real one: messages are
-- written as lists of numbers, and the digests pad their data.
use storj_uplink.Access.Base58 as Base58
use storj_uplink.Access.Caveat.{Codec, CodecLaws}
use storj_uplink.Access.Grant.{Platform}
use storj_uplink.Access.Grant.RoundTrip.{PlatformLaws}
use storj_uplink.Encryption.Sample.{sample_lib}
use storj_uplink.Common.{
  ℕ, refl, arith, true, [], ◌++◌, some, Bytes, bytes_eq, bytes_eq_refl, take, replicate,
  length-append, length-take,
}
use storj_uplink.Access.SampleMessages.{first, first_back, message, owned_access, scope}

abbrev pub sample_codec : Codec
sample_codec = record {
  encode_message = λ m. message.put m [];
  decode_message = λ input. first (message.read input);
}

pub sample_codec-CodecLaws : CodecLaws sample_codec
sample_codec-CodecLaws = record { decode-encode = λ m. first_back message m }

abbrev pub sample_base58 : Base58.Primitives
sample_base58 = record {
  encode = λ payload. payload;
  decode = λ input. some input;
  sha256 = λ payload. take 32 (payload ++ replicate 32 0);
}

pub sample_base58-Laws : Base58.Laws sample_base58
sample_base58-Laws = record {
  decode-encode = λ payload. refl;
  encode_nonempty = λ b payload. omega arith;
  sha256_length = λ payload. omega (
    arith,
    length-take 32 (payload ++ replicate 32 0),
    length-append payload (replicate {A = ℕ} 32 0),
  );
}

abbrev pub sample_sign : Bytes → Bytes → Bytes
sample_sign key data_bytes = take 32 (data_bytes ++ key ++ replicate 32 0)

abbrev pub sample_platform : Platform
sample_platform = record {
  ciphers = sample_lib;
  base58 = sample_base58;
  sign = sample_sign;
  is_utf8 = λ name. true;
  caveats = sample_codec;
  encode_scope = λ s. scope.put s [];
  decode_scope = λ input. first (scope.read input);
  enc_eq = λ a b. bytes_eq (owned_access.put a []) (owned_access.put b []);
}

pub sample_platform-PlatformLaws : PlatformLaws sample_platform
sample_platform-PlatformLaws = record {
  base58 = sample_base58-Laws;
  decode-encode_scope = λ s. first_back scope s;
  enc_eq_refl = λ enc. bytes_eq_refl (owned_access.put enc []);
}
