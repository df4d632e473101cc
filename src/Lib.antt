-- ===== src/Lib.antt =====
-- A verification library for the native uplink: the DRPC connection, access grants, path and
-- content encryption, and the transfer of pieces.
--
-- The program's parts. An access grant holds an API key, which is a macaroon, and the encryption
-- bases of its paths. A client encrypts the path and the content of an object, cuts the content
-- into segments, and sends its pieces to storage nodes over connections taken from a pool. Requests
-- travel as packets, which are cut into frames, on one connection for each peer.
--
-- Which file models what:
--   Rpc/Varint, Rpc/Frame      crates/storj-rpc/src/frame.rs: read_varint, append_varint, parse_frame,
--                              append_frame, append_packet. The payload field `data` is `payload`.
--   Rpc/Assembler              the same file: PacketAssembler, whose push is push, accept, start,
--                              extend and deliver here, one for each branch.
--   Rpc/Conn                   crates/storj-rpc/src/conn.rs: the buffer with its position, parse_one,
--                              read_packet up to the read that it needs, and the inner loop of
--                              drain_ready.
--   Rpc/Recv                   conn.rs: peer_terminated, and recv_msg over the queued packets, with
--                              the error payloads of frame.rs.
--   Access/Uvarint, Access/Packet, Access/Macaroon
--                              crates/storj-access/src/macaroon.rs: the wire format of a macaroon,
--                              its chain of tails, and validate.
--   Access/Prefixes            crates/storj-access/src/restrict.rs: collapse_prefixes.
--   Access/ApiKey, Access/Time, Access/Permission, Access/Caveat
--                              macaroon.rs: ApiKey, Permission, Caveat and its protobuf message, with
--                              the timestamps.
--   Access/EncAccess           restrict.rs: store_from_enc, enc_from_store, limit_to; and the
--                              conversions of EncryptionAccess in crates/storj-access/src/grant.rs.
--   Access/Grant               grant.rs: Grant; restrict.rs: Grant::restrict.
--   Access/Base58              crates/storj-access/src/base58.rs: check_encode, check_decode.
--   Encryption/Pad             crates/storj-encryption/src/pad.rs.
--   Encryption/Segment, Encryption/Path
--                              crates/storj-encryption/src/path.rs: encode_segment, decode_segment,
--                              PathIter, encrypt_iterator, decrypt_iterator.
--   Encryption/Store           crates/storj-encryption/src/store.rs: the trie of bases, Node::add as
--                              add_node, Store::lookup and the two lookups, and the iteration.
--   Encryption/StorePaths      path.rs: encrypt_path, decrypt_path, get_prefix_info, encrypt_prefix
--                              and the derived keys, over the store.
--   Encryption/Cipher          crates/storj-encryption/src/cipher.rs and key.rs, and the one-shot
--                              functions of aesgcm.rs and secretbox.rs.
--   Encryption/Transform       crates/storj-encryption/src/transform.rs, and the block transformers
--                              of aesgcm.rs and secretbox.rs.
--   Uplink/Pool                crates/storj-uplink/src/pool.rs: Inner with its idle map, checkout and
--                              the drops of Slot, Pooled and HeldPooled.
--   Uplink/Ranges              crates/storj-uplink/src/download.rs: resolve_range,
--                              segment_plain_range, proto_range.
--   Uplink/Pieces              crates/storj-uplink/src/pipeline.rs: Redundancy, encrypt_remote,
--                              calc_piece_size, encode_pieces; download.rs: decode_encrypted.
--   Ec/Field, Ec/Matrix        crates/storj-ec/src/gf.rs: the tables of GF(256), the Vandermonde matrix
--                              and the inversion of matrices, whose rows are lists.
--   Ec/Vector                  crates/storj-ec/src/gf_simd.rs: the SSSE3 path of addmul.
--   Ec/Codec                   crates/storj-ec/src/fec.rs: ReedSolomon and DecodePlan.
--   Common                     what the parts share. The modules Runs, StoreRuns, GrantRuns and
--                              PieceRuns hold examples.
--
-- Numbers. Bytes and machine integers are natural numbers, with wrapping, saturation and casts
-- written out where the source has them; a signed integer that may be negative is `pos` or `negsuc`.
-- Functions of other crates (HMAC, the ciphers, Base58, SHA-256, prost) are parameters, and theorems
-- that need their laws name them: `Laws` in Encryption/Cipher and Access/Base58, `CodecLaws` in
-- Access/Caveat, and `PlatformLaws` in Access/Grant. Hash maps are association
-- lists.
--
-- Fuel. The loop of append_packet has one more than the payload bytes, those of read_packet and
-- drain_ready one more than the unparsed bytes, parse_section one more than its input, and the
-- iterator of a path two more than its bytes: each round takes a byte at least, or is the last.
-- Node::add descends one component of the plain path in each call, so it has that fuel too. The
-- stripes of a segment have as much fuel as it has bytes.
--
-- Not modelled: sockets, TLS, noise, deadlines and the wake-up of waiting tasks; the bytes of protobuf
-- messages; the NEON code; uploads and orders; the client library.
pub mod Common
pub mod Rpc
pub mod Access
pub mod Encryption
pub mod Ec
pub mod Uplink
