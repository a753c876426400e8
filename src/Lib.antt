-- ===== src/Lib.antt =====
-- GlacialCast: end-to-end encrypted screen streams through a relay that cannot read them.
--
-- A publisher captures a screen, encodes it as H.264 and seals each access unit, epoch configuration
-- and cursor batch as a signed object under the key of its keyframe group. It seals the group's key to
-- each viewer as an envelope. The relay checks signatures and shapes, stores objects and envelopes
-- within its limits, and serves them from a group boundary on. A viewer opens its envelopes and with
-- them the objects, and decodes what they hold. A viewer and a publisher that do not know each other pair
-- through the relay, which queues their signed messages until the publisher's decision; certificate
-- authorities issue the credentials that a publisher or a relay accepts instead.
--
-- Which module is about which file:
--   Cursor            crates/protocol/src/cursor.rs, whole: `CursorBatch` and its parts as records,
--                     `encode_cursor_batch` and `decode_cursor_batch` with the bounds-checked `Reader`
--                     as a state-passing reader, and their validation. Cursor.Format, Cursor.Reader and
--                     Cursor.Decode define; Moves, Spans, Shapes, RoundTrip, Canonical, Valid,
--                     EventImages, ValidBitmap and ValidBatch prove.
--   Native            crates/protocol/src/native.rs, identity.rs and envelope.rs. Types, EnvelopeTypes:
--                     the data. Identity: `IdentityPublic::validate`, `id`, `sign` and `verify`.
--                     Descriptor: `StreamDescriptor`. H264, Header, Object: the checks, `open`, `encode`
--                     and `decode` of a `NativeObject`. Group: `GroupEncryptor::generate`, `restore` and
--                     `seal`. Guard: `LiveSequenceGuard`. Envelope: `KeyEnvelope`. Inversions, Sealing, Nonces,
--                     Keyframe, Replay, AnnexB, Canonical and Enveloping prove.
--   Native.External   what those files call and do not contain, as a record of functions that the
--                     definitions take: SHA-256, Ed25519, X25519, ChaCha20-Poly1305, HPKE and Postcard.
--                     `CryptoLaws`, `HpkeLaws` and `PostcardLaws` state what is relied on; nothing is
--                     assumed of secrecy or of collisions.
--   Relay             crates/relay/src/native_store.rs. Rows: the tables of `initialize_schema`.
--                     Statements: the SQL statements, with the schema's checks, primary and foreign keys
--                     and cascades. Retention: `check_group_growth` and `enforce_retention`. Groups,
--                     Store: `put_descriptor` and `store_object`. Upkeep: `store_envelope`,
--                     `enforce_retention_at` and `finalize_stream`. Queries: the methods that read, with
--                     `SubscriptionStart` of crates/protocol/src/wire.rs in Rows. Selections, Rowsets, Loop,
--                     Settling, Causes, Evicting, Streams, Objects, Appended, Appending, Storing, History, Marks,
--                     Sequences, Quota, Bounded, Limits and Anchors prove. The relay takes the objects,
--                     descriptors and envelopes of Native as they are.
--   Credential        crates/protocol/src/credential.rs. Authority: `CertificateAuthorityPublic` and the key
--                     file of `CertificateAuthoritySecret`. Request: `CredentialRequest`. Revocation:
--                     `sign_revocations` and `RevocationList`. Issued: `issue` and `NativeCredential`. Searching
--                     and Sorting are about the standard library's search and sort, which the code calls.
--                     Windows, Issuance, Issuing, Revoking, Authorized and Canonical prove.
--   Pairing           crates/protocol/src/pairing.rs and auth_words.rs. Checks: what its messages share.
--                     Request: `PairRequest`. Offer: `PairOffer`, `transcript_hash` and
--                     `ViewerConfirmation`. Decision: `PublisherDecision`. Words: `wordlist` and
--                     `authentication_string`. Windows, Signed, Ceremony, Completion, Comparison, Deciding,
--                     Policy and Canonical prove.
--   PairingStore      crates/relay/src/pairing_store.rs. Rows: the table of `initialize_schema`.
--                     Statements: the SQL statements and `store_once`. Store: `enqueue_request`,
--                     `store_offer`, `store_confirmation` and `store_decision`. Address: the standard
--                     library's parser of socket addresses, which the inbox calls. Inbox: `publisher_inbox`
--                     and `viewer_inbox`. Calls: a history of calls. Tables, Lookups, Effects, Queueing,
--                     Transactions, Ceremonies, Sound, Stages, Bounds, Waiting, Fresh, Listings and Delivery
--                     prove.
--                     The store takes the messages of Pairing as they are, and those take the
--                     identities of Native and the credentials of Credential.
--   Prelude           what these share: tests, lists, results, integers, `i64` arithmetic, big-endian bytes.
--
-- Credential.Postcard and Pairing.Postcard are to these modules what Postcard is in Native.External: records of
-- the serializer's functions, with the laws that it reads back what it wrote. The modules Tests hold
-- instances of every parameter, made of the combinators of Native.Formats.
--
-- How the code is modelled. A fallible function returns a `Result`, and `?` is the bind of a `do` block.
-- A method that changes its object returns the new one; a call that fails leaves the old one, as SQLite
-- rolls a failed transaction back. Machine integers are natural numbers with their bounds written out
-- where the code checks, converts or saturates; `i64` times and coordinates are signed integers. An
-- identifier or key of fixed size is the number that its bytes stand for, so that the nil one is 0, and
-- byte arrays are compared as those numbers. Times of arrival, nonces, serials and other randomness are
-- arguments. The store keeps a socket's address as its text, which delivery parses; a row whose text is
-- no address makes the call fail. The word list is the text of its file.
--
-- Loops are recursions on the list or the count that they consume. The loop of `enforce_retention`
-- takes fuel, one round more than there are groups: each round but the last removes a group, so that
-- the fuel suffices. The binary search takes as many rounds as there are serials, and each round
-- leaves fewer serials to search.
--
-- Not modelled: the identity file, the wire messages and their framing, trust and access control; the
-- opening of the database files, the quarantine of version 1, and the creation and loading of an
-- authority's key file; and what is input and output: sockets, TLS, capture, encoders, windows, command
-- lines.
pub mod Prelude
pub mod Cursor
pub mod Native
pub mod Relay
pub mod Credential
pub mod Pairing
pub mod PairingStore
