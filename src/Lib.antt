-- ===== src/Lib.antt =====
-- A verifier of SwornMail tokens and records, as the crate swornmail implements it.
--
-- The program has no state of its own and does no I/O: a receiver hands it the octets of a token, the
-- connecting address, the time, and the text of two DNS records. `parse` or `parse_excluding` checks
-- all that needs no key (envelope, headers, payload, source, time, membership) and gives an
-- `Unverified`; `authorize` checks it against the operator's policy record and gives an `Authorized`;
-- `verify_signature` checks the signature and gives an `Outcome`. `verify` chains the three. Each
-- stage is a pure function into `Result`, and the types of the stages are records here too.
--
-- Files and code:
--   Address      src/address.rs: prefixes, masks, the rules on prefixes and sources. A child for each
--                subject: Mask and Ranges for the bit arithmetic, Rules for the draft's rules, Parse,
--                Decimal and Display for the text form.
--   Key          src/key.rs: Ed25519 keys around the signature crate.
--   Reason       src/reason.rs: the reasons of a failure and their strings.
--   Payload      src/payload.rs: the signed claim, from a CBOR map.
--   Record       src/record.rs: tags, key records, policy records, authorization.
--   Cose         src/token.rs, the envelope: COSE_Sign1, header buckets, the signed octets.
--   Token        src/token.rs, the verification: parse_excluding, authorize, verify and the rest.
--                Issue describes a token as the draft has it issued, for Accept.
--   Receive      src/lib.rs: the receiver of the documentation's example, with the names it asks for.
--   Difftest     src/bin/difftest.rs: the evaluator, from the lines of a corpus to those of its report.
--   Text         the parts of Rust's str, u8, i64 and Ipv6Addr that the crate calls, on lists of
--                octets: splitting, trimming, numbers, and an address's text form in both directions.
--   Dns          what a DNS label and a domain are, independently of the code.
--   Backend      the crates ciborium, ed25519-dalek and base64, as records of functions: parameters.
--   Prelude      shared names, lists, tests, integers and `Result`.
--   UnitTests    the test modules of the source files, each test a Boolean.
--   Conformance  tests/vectors.rs: the conformance tests as functions of the shared vectors.
--   Tests        a CBOR codec, the unit tests and the shared vectors (tests/testdata/v1.json) run
--                through the model, and the theorems at concrete inputs.
--
-- Names follow the source: `Payload::from_value` is `from_value`, `Headers::from_value` is
-- `headers_of`, `Headers::get` is `get_header`, `CoseSign1::parse` is `parse_cose`,
-- `PolicyRecord::parse` is `parse_policy`, `KeyRecord::parse` is `parse_key`,
-- `Ipv6Prefix::from_str` is `parse_prefix`, `Outcome::auth_result` is `outcome_result`. A loop is
-- recursion over the list it walks, with the loop's variables as arguments (`collect`,
-- `read_headers`, `read_segments`, `read_prefixes`), so all functions are total and none takes fuel;
-- only the codec of the tests does, twice the length of its input and four.
--
-- Numbers: an `Ipv6Addr` and a `u128` are numbers below 2 ^ 128, where a theorem says so (`IsAddr`,
-- `IsPrefix`); an `i128` and the time are integers; the cast of a unit to `u8` is written `% 256`.
-- A text is the list of its octets.
--
-- Not modelled: reading the standard input and writing the standard output in the differential test
-- (`evaluate_corpus` goes from lines to lines, and is `none` where an `expect` panics), DNS queries
-- (`receive` takes the resolver as a function and returns the names it asked for), reading the JSON
-- file of the conformance tests, and what ciborium, ed25519-dalek and base64 compute. Where a
-- theorem needs something of these crates, it is a hypothesis: `DecodesOctets` says that a decoded
-- byte string consists of octets, `Encodes` that the decoder reads back the three values of a token
-- that the encoder wrote, `Unambiguous` that it decodes no byte string longer than its input and
-- encodes different Sig_structures differently, and the theorem on corpora that a key is read back
-- from its octets. They hold of the codec and the keys in Tests.
mod Prelude
pub mod Text
pub mod Address
pub mod Reason
pub mod Backend
pub mod Key
pub mod Dns
pub mod Payload
pub mod Record
pub mod Cose
pub mod Token
pub mod Receive
pub mod Difftest
pub mod Conformance
pub mod UnitTests
mod Tests
