-- ===== src/Lib.antt =====
-- Flux Parsing Daemon fingerprints TLS and HTTP/2 clients from the bytes that they send. This library
-- models its computing crates and proves what makes them correct.
--
-- Parts, and the files that model them:
-- * crates/fingerprint-core. src/reader.rs is Tls/Reader, a cursor as a record that every read returns anew.
--   src/grease.rs is Tls/Grease. src/hello.rs is Tls/Hello: `parse_hello` is split where it changes its
--   reader, into the record, `handshake`, `hello_body`, `extensions_block` and `ext_loop`. src/ext.rs is
--   Tls/Ext, src/ja3.rs is Tls/Ja3, src/ja4.rs is Tls/Ja4.
-- * crates/fingerprint-h2. src/hpack is H2/Hpack (Integer, StaticTable, HuffmanTable, Huffman, Table,
--   Decoder, Encode); src/frame.rs, settings.rs, headers.rs, http.rs and akamai.rs are the modules of those
--   names in H2. The block decoder uses the tables, integers and Huffman strings; a preamble is split into
--   frames with the reader of fingerprint-core; the fingerprint is put together in H2/Akamai.
-- * crates/fingerprint-probe. src/profile.rs, diff.rs, inject.rs, verdict.rs, log.rs and admin.rs are the
--   modules of those names in Probe, with the display of a diff in Probe/Display and the lines of the admin
--   socket in Probe/Json and Probe/Base64; src/ua.rs is Probe/UserAgent, src/recording.rs and replaying.rs
--   are Probe/Streams, and src/serve.rs is Probe/Serve, Probe/Inject/Attach and Probe/Connection. A report
--   holds both fingerprints, a profile is made from a report, a diff compares them, a verdict ranks the
--   profiles, the log keeps the latest connections, and the headers attached go upstream. The tee keeps the
--   bytes of the handshake, the capture takes those of the preamble, and the replay hands these on. `handle`
--   puts these together: it publishes each connection to the log, from which the admin socket sends its
--   clients the history and then what follows.
-- * crates/fingerprint-emulate. src/h2.rs is Emulate/Preamble, src/ciphers.rs and the lists of src/build.rs
--   are Emulate/Ciphers, the set-up of a client in src/build.rs is Emulate/Build. An emitted preamble uses
--   the HPACK encoder and is read back by H2.
-- * crates/fingerprint-terms. src/gate.rs, record.rs and `load` of store.rs are Terms; Terms/Program has
--   `save` of store.rs, src/history.rs, and from crates/fpd src/main.rs and `accept` of
--   src/commands/terms.rs, each run as a step on the configuration directory.
-- * crates/fpd. The state, the keys and the rows of src/tui are Viewer, with the frames that it reads from
--   the admin socket in Viewer/Source, and the lines of render.rs and theme.rs in Viewer/Draw;
--   src/commands/capture.rs is Commands.
-- Base holds what these share, Tests the theorems at concrete inputs.
--
-- Numbers are natural numbers; a machine integer keeps its width as a bound or as an explicit remainder,
-- and `usize` has 64 bits. A `String` is the list of its bytes. A `Result` is `Base.Result`, whose third
-- value `stuck` stands for a loop that ran out of fuel. The loops on fuel are `ext_loop`, `frames_from`,
-- `decode_rounds`, `evict`, `capture_frames`, `pop_front_to`, `trim_front` and `pad_lines`; each is given
-- at least as many rounds as there are bytes, entries or lines left that it can consume or add, and the
-- theorems on `stuck`, the round trips and the refinements show that this is enough. `encode_rest` and
-- `whole_octets` are given the number that each round makes smaller. The tree of the Huffman decoder is
-- built as the source builds it, its `i32` slots being integers with a sign.
--
-- Parameters: the SHA-256 and MD5 digests of the crates sha2 and md-5 (`Digests`), the HMAC and the hash
-- of the terms (`Terms`), the operations of `f32` on scores (`Scores`), the calls that BoringSSL refuses
-- (`Boring`), the broadcast channel of tokio (`IsChannel`: a receiver that is not behind by more than its
-- depth gets all that is sent), the HTTP library (`Http`), JSON (`Json`, with the laws that serde_json
-- documents in `IsLawful`), the text of a whole address, clap, what an upstream and a TLS handshake give,
-- the clock, the case table of Unicode in the viewer's search, and whether a file is written. An inner
-- stream is what its reads return; the capture is given the bytes that arrive before its timeout.
--
-- Not modelled: binding and accepting on sockets, TLS, files and their JSON (the rest of
-- fingerprint-probe and fingerprint-terms, fingerprint-tower, and the other commands of fpd), what BoringSSL does
-- with the calls of fingerprint-emulate, and the terminal of the viewer. Locks other than the publisher's
-- are taken not to be poisoned. A `usize` sum over entries that are in memory, and the count of
-- connections, are taken not to overflow.
pub mod Base
pub mod Tls
pub mod H2
pub mod Probe
pub mod Emulate
pub mod Terms
pub mod Viewer
pub mod Commands
pub mod Tests
