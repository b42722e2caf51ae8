-- ===== src/Lib.antt =====
-- A verification library of telemt, a Telegram MTProto proxy.
--
-- A client connects over a disguised transport, is admitted against its user's limits, and has its
-- frames relayed to a datacentre: directly, or as RPC frames through shared connections to the
-- middle proxies. The library follows that path; file names stand below this folder, source paths
-- below the repository's root.
--
-- - Stream: the frames of the client connection (src/stream/frame.rs, src/stream/frame_codec.rs).
--   Stream/Frame has `Frame` and its constructors, Stream/FrameCodec/{Abridged,Intermediate,Secure}
--   the three wire formats, Stream/FrameCodec the codec that chooses by tag, and
--   Stream/FrameCodec/Typed the codecs of one format. A buffer is a list of bytes; a decoder
--   returns its answer and the bytes it leaves. The random padding of secure mode comes from
--   Crypto/Random.
-- - Stream/TlsStream: the FakeTLS reader and writer (src/stream/tls_stream.rs), with the buffers of
--   Stream/State (src/stream/state.rs). The upstream is a parameter, the interfaces of Stream/Io for
--   the traits of tokio: it may split its input and output as it likes, be pending and fail.
--   TlsStream/Decode is the reference: the records of the whole input, decoded at once.
--   TlsStream/Reader compares each poll with it, TlsStream/Writer has the writer and the records on
--   the wire, and Writer/Tunnel joins the two ends.
-- - Stream/CryptoStream: the streams that encrypt and decrypt with AES-CTR
--   (src/stream/crypto_stream.rs), over the same interfaces. `PendingCiphertext` is CryptoStream/Pending;
--   CryptoStream/Writer and CryptoStream/Reader have the writer and the reader, the position in the
--   keystream being all that is left of a cipher. CryptoStream/Tunnel joins the two ends, and
--   CryptoStream/Stack puts them over FakeTLS: TlsStream/{Reader,Writer}/Upstream fill the interfaces.
-- - Protocol/Constants: protocol tags and the lengths of secure mode (src/protocol/constants.rs).
-- - Protocol/Obfuscation: the 64 bytes that open an obfuscated connection
--   (src/protocol/obfuscation.rs), over SHA-256 and the keystream of AES-CTR as parameters.
-- - Protocol/Tls: the check of a ClientHello (`validate_tls_handshake` of src/protocol/tls.rs), with
--   HMAC-SHA-256 and the time as arguments. Tls/Sealed has the client's side, as a description.
--   Tls/ServerHello is the answer (`ServerHelloBuilder`, `build_server_hello`), and Tls/ClientHello
--   reads the names and protocols of a ClientHello. Tls/{Offered,Written,Named} describe the messages
--   that a client writes.
-- - IpTracker: the active addresses of each user (src/ip_tracker.rs). The read lock on the limits
--   and the write lock on the addresses are taken one after the other, so `add_under` is the part
--   behind the write lock, with the limit as it was read, and a history may interleave calls there.
-- - Proxy/Client: the admission checks and the guard that ends a session
--   (`check_user_limits_static`, `handle_authenticated_static` of src/proxy/client.rs). The relay
--   in the middle, and the counters that it reads of `Stats`, are arguments.
-- - Proxy/Handshake: the handshakes of a client and the nonce for a datacentre
--   (src/proxy/handshake.rs). Handshake and Handshake/Tls have the two handlers, over the replay checker
--   and the parts above; what the TLS front answers and what the socket says are arguments.
--   Handshake/Session carries an accepted opening on into the streams.
-- - MiddleProxy/Registry: the connection registry (src/transport/middle_proxy/registry.rs), a
--   record of its five tables and its counter. Each call is a step, as it holds the lock
--   throughout. Registry/Exact adds the order of calls that the sender keeps: it binds a
--   connection that has no writer. `route` takes the answers of the channel as arguments.
-- - MiddleProxy/Codec: RPC frames, the payloads of the two handshake frames, padded CBC and the
--   encrypting writer (src/transport/middle_proxy/codec.rs). A socket is the list of bytes read or
--   written.
-- - Crypto/Aes: CBC over a block cipher (src/crypto/aes.rs); the crate `aes` is the parameter
--   `BlockCipher`, of which it is known that blocks map to blocks and decryption undoes
--   encryption. Crypto/Ctr: a keystream, combined with bytes from a position on. Crypto/Random: the buffered generator (src/crypto/random.rs).
-- - Transport/ProxyProtocol: the PROXY header (src/transport/proxy_protocol.rs).
-- - Stats/Replay: the replay checker (src/stats/mod.rs), over the crate `lru` as the interface `Lru`
--   and the hasher as an argument. An instant is a number of ticks. A history of calls gives the log
--   of the additions, and the theorems read the answers off that log.
-- - Network/Addr: the addresses of the standard library, as numbers.
-- - Prelude: lists, bytes in both orders, bit operations on bytes, results, equality and
--   association lists for the maps and sets of the source.
--
-- Bytes and words are native numbers; a cast to 32 bits keeps its remainder, and lengths are not
-- bounded by the address space. Loops are structural, or count the rounds that the length of the
-- input, or of what waits, gives. Some loops are on fuel: the loop of a reader's poll, where each round takes a byte,
-- or goes to the next of three states, so that the length of the input gives enough; `read_exact`,
-- where each poll that is ready reads a byte at least; the generator's `fill_loop`, where each round
-- takes a byte at least; `generate_nonce` and
-- `generate_tg_nonce`, which draw until a nonce is valid, so that any fuel above the number of the
-- first valid draw is enough; and the readers of a ClientHello, whose every round moves on.
--
-- Not modelled: sockets, timers, the TLS front, configuration files, start-up, and text for logs. The
-- pool of middle-proxy connections, the driver of the middle-proxy handshake, and the relays are
-- open.
pub mod Prelude
pub mod Crypto
pub mod Protocol
pub mod Stream
pub mod Network
pub mod IpTracker
pub mod Proxy
pub mod MiddleProxy
pub mod Transport
pub mod Stats
