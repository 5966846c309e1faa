-- ===== src/Lib.antt =====
-- Verification of pgapp's TypeScript code: the client library and the console of the administrator.
--
-- pgapp serves a cache, message queues and a configuration centre over gRPC, backed by PostgreSQL.
-- Its TypeScript library (sdk/typescript/src/index.ts) wraps the service clients and the message
-- classes that protobuf-ts generates from the proto files (sdk/typescript/src/gen/pgapp/v1). Its
-- console (apps/admin-ui/src/App.tsx) is a React page over the HTTP API of the administrator.
--
-- Files and code:
-- Common, Number: lists, texts, exceptions as values (`Result`, `Thrown`), and the numbers of the
-- language. A number is an integer below 10^21, `to_string` is `String(n)`, which writes the
-- shortest digits that are read as `n` again, and `number` is `Number(s)`, which rounds to the 53
-- bits of a double. `integer_text` writes all digits, as a `bigint` does. Fractions, infinities,
-- negative zero and exponents are not modelled.
-- Wire: what all generated classes share. `MessageType` is a class: its type name, `create`, the
-- cases of `internalBinaryRead` (`read_field`) and the field writes of `internalBinaryWrite`
-- (`write_fields`). `internal_binary_read` and `internal_binary_write` are the methods. The reader
-- and the writer of @protobuf-ts/runtime are a parameter (`Runtime`); Wire/Documented states their
-- documented behaviour, and Tests/Dictionary gives a runtime that has it. A reader is a position
-- and the bytes behind it. The loop of a read runs on fuel, the given length: every round reads a
-- tag, which moves the reader forward by a byte at least.
-- Proto: each interface of gen/pgapp/v1/{cache,mq,config,health,common}.ts is a record, and each
-- class `X$Type` a function `x_type` from a runtime to a `MessageType`. 64-bit integers are decimal
-- texts, as in the code. The modules `RoundTrip` are about the messages of the module above them,
-- and the modules `Kinds` gather the messages of a file.
-- Sdk: `PGAppClient`, `PGAppError` and `wrap` (Sdk/Client), `encodeBytes` (Sdk/Bytes, for texts
-- without lone surrogates), `CacheClient` (Sdk/Cache), `MQClient` (Sdk/Mq, its generator
-- `streamRead` in Sdk/Mq/Stream) and `ConfigClient` (Sdk/Config), one function for each method, and
-- one for the request that it sends. A generated service client is a record of calls, a parameter
-- of the methods; `JSON.parse` and `JSON.stringify` are parameters, which may throw. A rejected
-- promise is a thrown value. An argument with a default is always given.
-- Admin: `useAsyncData` (Admin/Async, events and steps), `fetchJson` and its callers (Admin/Http),
-- the selection of a scope (Admin/Scopes), the editor of a scope (Admin/Editor), the form for
-- clients (Admin/Clients), the view of queues (Admin/Queues), the page and its token (Admin/App),
-- and `trim` and `split` (Admin/Text). The requests of the editor carry the scope. An action of a
-- form is one step, with the requests that it makes and the state that it leaves.
-- Tests: the theorems at concrete values.
--
-- Not modelled: the Rust server, the libraries in other languages, the generated service clients
-- (they forward each call to the gRPC transport), the reflection data and the JSON form of messages
-- (they belong to the runtime library), and the markup, the tables, the sums of the metrics and the
-- styles of the console.
pub mod Common
pub mod Number
pub mod Wire
pub mod Proto
pub mod Sdk
pub mod Admin
pub mod Tests
