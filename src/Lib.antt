-- ===== src/Lib.antt =====
-- The verifiable RPC sidecar: a proxy in front of a blockchain node, inside a confidential VM. It
-- signs each response with a key that the VM's guest agent derives, and serves encapsulated
-- requests whose plaintext only the VM sees.
--
-- The parts, how they interact, and where they are:
-- - Envelope (src/envelope.rs): open_request turns an encapsulated request into its plaintext and a
--   ResponseContext; seal and seal_in_place answer under that context. Envelope/Open says which
--   requests open, Envelope/Seal states the formula of RFC 9458, Envelope/Client is the client.
-- - Signing (src/signing.rs): SigningState holds the key, the encryption key derived from it and
--   the chain id; sign hashes a request and a response into the pre-image and signs it.
--   Signing/PreImage, Signing/ChainId, Signing/Keys and Signing/Verify have the proofs;
--   Signing/Headers is a client that reads the three signing headers.
-- - Proxy (src/proxy.rs): UpstreamClient::forward collects the request, sends it upstream without
--   hop-by-hop headers, collects the answer, signs the pair and relays it. Proxy/Headers is about
--   the request, Proxy/Branches and Proxy/Forward about the answer, Proxy/Task about the same as a
--   polled future.
-- - Confidential (src/confidential.rs, src/confidential/inner.rs, src/confidential/upstream.rs):
--   POST /confidential. Confidential/Errors has the classes, Confidential/Framing checks the field
--   sections, Confidential/Inner decodes the inner request and encodes the inner response,
--   Confidential/Upstream makes the one call upstream, Confidential/InnerCall is that call with the
--   sealing of its result, Confidential/Outcome the log line and the plaintext answers, and
--   Confidential/Exchange composes them with Envelope and Signing into confidential_exchange.
--   Confidential/Exchange/Ends is how an exchange ends, Exchange/Client the client's view of it.
--   Confidential/Task is the same call as a future that is polled at its awaits and may be dropped
--   there, with the line of OutcomeGuard; Task/Ends, Task/Settles, Task/Runs, Task/Progress,
--   Task/Guard and Task/Polls compare it with the call as one function.
-- - Attestation (src/attestation.rs): a fresh quote of the signing key and the caller's nonce.
-- - Configuration (src/config.rs): the arguments with their flags, variables, defaults and parsers.
-- - Server (src/server.rs, src/main.rs): the route table, and the start that derives the identity
--   and makes the state, with how the process ends. Server/Serve takes a request through the
--   router, a handler and the layers; Serve/Local is the routes that no upstream is asked for.
--   Server/Process has many calls at once, each a task of its handler, under one AppState:
--   Process/Heard is what one call meets of all events, Process/Ways and Process/Schedule their
--   interleaving, Process/Client about what clients get, and Process/Drain about their end. What
--   arrives and is woken next is chosen by axum and tokio, so the events are given. Server/Life is
--   main from its start over a signal to its end; that the drain ends with the last call is axum's
--   with_graceful_shutdown.
-- - Util (src/util.rs): hex text with its prefix.
-- - Signing/UnitTests, Attestation/UnitTests, Proxy/UnitTests, Configuration/Tests: the unit tests
--   of these files as functions, run against the definitions.
-- - Prelude: tests into Bool, lists, results, byte strings, machine words and text over the native
--   naturals. Crates: the crates that the program calls, as records of operations and of laws that
--   their documentation gives; Crates/Samples has values of them that compute, with the laws.
--
-- How code corresponds to definitions: a function keeps its name. A Result is Prelude's Result with
-- a third end, panic, for an index or a slice that does not fit. A value of another crate's type is
-- what the program reads of it: a header map is the sequence of its entries, a body is its size
-- hint and its frames, an HPKE or AES key is a parameter's type. What a call meets outside the
-- program is an argument: a reading of the clock, random bytes, the guest agent, the answer of the
-- upstream (a function of the request), whether the timer comes first, elapsed milliseconds. A call
-- upstream is also recorded in a list that the modelled function returns. A shared Arc is an
-- immutable value. An async function is modelled twice: as one function, and as a data type of the
-- awaits at which it stops with a function that wakes it; an executor is any sequence of wake-ups
-- and drops, so its fairness and its timers are not assumed.
--
-- Bounds and fuel: u64 and usize values are naturals with their wrap, saturation or check written
-- out at 2 ^ 64. The loop of visit_seq takes fuel, one more than the unread bytes, which is enough
-- since an element takes a byte. Decimal printing takes fuel for the 20 digits of a u64. All other
-- loops are structural.
--
-- Not modelled: the crates themselves (cryptography, HTTP, Binary HTTP, JSON, the agent's client),
-- zeroization of memory beyond what a function returns, the compression itself, the splitting of a
-- command line into flags, logging other than the outcome line, and sockets: axum and tokio appear
-- as the order of steps that they choose. The guest agent is one function of what it is asked: that
-- it may answer the same question in another way later is not modelled.
pub mod Prelude
pub mod Crates
pub mod Util
pub mod Envelope
pub mod Signing
pub mod Proxy
pub mod Confidential
pub mod Attestation
pub mod Configuration
pub mod Server
