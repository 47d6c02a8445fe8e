-- ===== src/Lib.antt =====
-- The remote agent connector: enrolled devices hold one relay connection each, and the connector
-- sends them the commands of its clients. This library models the connector's own logic, in
-- remote_agent_connector/, and proves it correct.
--
-- Parts, and the files that model them
--   Prelude        what the program uses of Python and SQL: tables as lists of rows (Table, Distinct),
--                  dictionaries (Dict), JSON values (Json), texts (Texts), signed integers (Int)
--   Protocol       protocol.py: capability profiles, the verbs that change state, the validators
--   Errors         errors.py: the relay error contract
--   Store          store.py and migrations/: one record with a list of rows for each table; a method
--                  is a function of the same name from the store to its answer and the new store
--   Relay          relay.py: sessions, the registry, futures, response frames
--   Service        service.py: enrollment and authentication (Enrollment), devices (Devices), and
--                  device commands (Checks, Collision, Commands) with their cancellation (Cancel);
--                  Connection is what relay.py does with the service for one connection
--   Delegation     protocol.py: the identity that the Hub delegates, from the request's headers
--                  (Headers), the agent scopes (Scopes) and the app assertion's envelope (Assertion)
--   Verifier       app_assertion.py: what a device checks of an assertion (Check), of a keyset (Keyset),
--                  and its cache of the ids that it has accepted (Replay)
--   Server         server.py: the MCP tools (Tools), with the identity that each call is made under,
--                  and the operator's routes with their statuses (Operator)
--   Config         config.py: the configuration, read from the environment
--   Redaction      redaction.py: what an audit event keeps of its details
--   Database       db.py: migrations and the transaction around them, over a driver (Driver) whose
--                  statements act on the whole database
--   Tests          a small fleet of devices on which the theorems are applied
-- A tool of the server verifies the delegation headers and calls the service's `device_command`.
-- Store/Ledger states what the idempotency ledger promises, without rows: an owner, a digest and a
-- first outcome for each key.
-- The service calls the store and the registry: its state, `App`, holds both, with the collision
-- guard `_in_flight`. A method is an action that returns or raises and changes the state in either
-- case. `device_command` waits once, so it is two steps: `dispatch` runs to the send of the frame, and
-- `settle` from the end of the wait, for each way in which it ends. Service/Commands/Interleaving
-- takes these steps in any order, with steps of other tasks between them; what other tasks do is
-- left open there, except that they leave the collision guard alone, which only commands touch.
--
-- Choices
--   A time is a number of microseconds. The store writes whole seconds, as texts of one length and
--   form, which compare as the numbers do.
--   Tokens, challenges, uuids and connection generations are drawn at random; what is drawn is an
--   argument. SHA-256, `json.dumps`, `uuid.UUID`, Ed25519 verification, fingerprints and the
--   redaction of audit values are fields of `Env`, about which nothing is assumed.
--   Base64, HMAC, `int` of a text, canonical JSON and Ed25519 are fields of `Codec`, `int` and
--   `urlparse` for the configuration fields of `Reader`; nothing is assumed about them either.
--   The service's redaction is a field of `Env`, for which Redaction gives the code's; what its four
--   `re.sub` calls make of a text is a parameter there.
--   A header's value is one text, and an id in the replay cache that is not a text is kept with a mark.
--   `verify` of app_assertion.py reads the clock twice, so it takes two times; a tool call reads it for
--   the headers and again for the command. A key's bound that is a float is not modelled.
--   The body of a request for an enrollment token is taken as read, with fields of their types.
--   A transaction, and the code between two waits, is one step: the connector runs on one event loop
--   and one database lock. The registry's lock is held over code that never waits.
--   A token's capability profile is a text, which nothing checks until a device enrols with it. A
--   device's is an enumeration: the table checks it.
--   A stored `context_epoch` is a natural number, as the table demands. The one of a connection is an
--   integer, and a negative one fails when its row is written; a value of another type, or beyond 64
--   bits, is not modelled.
--   Sessions and futures are shared objects: each has a number, and the relay's state maps the number
--   to the object.
--   `str.lower` is exact on the ASCII letters and on the one other character whose lower case is
--   ASCII; the validators refuse every other text in either case.
--   Among rows with equal heartbeats, which the query does not order, the first inserted is the latest.
--   The id of an audit event is fresh.
--   No function runs on fuel: every loop is a recursion on a list, a text or a value.
--
-- Not modelled: the connections of db.py, the migration of store.py, the X.509 code of
-- certificate_authority.py and tls_publication.py, whose answers the two certificate routes take as a
-- parameter (`Certificates`), the scripts (these call packages); the reading and writing of websockets
-- and the order of the handshake, the frames that a command and a cancellation send.
pub mod Prelude
pub mod Protocol
pub mod Errors
pub mod Store
pub mod Relay
pub mod Service
pub mod Delegation
pub mod Verifier
pub mod Server
pub mod Config
pub mod Redaction
pub mod Database
pub mod Tests
