-- ===== src/Sdk/Client.antt =====
-- `PGAppError`, the options of a call, and the `wrap` of the three clients.
-- Code: sdk/typescript/src/index.ts
pub mod Laws
use pgapp.Common.{ℕ, String, Option, none, some, List, [], ◌∷◌, ◌++◌, template}
use pgapp.Common.Result.{Thrown, error, message_like, value, textless, nullish, Result, ok, throw}
use pgapp.Wire.{Message}

pub record Credentials : Type 0 where
  pub key : String
  pub secret : String

-- The fields that a call reads; the transport and the three clients built on it are arguments of
-- the calls.
pub record PgAppClient : Type 0 where
  pub endpoint : String
  pub timeout_ms : Option ℕ
  pub credentials : Option Credentials

pub record PgAppClientOptions : Type 0 where
  pub timeout_ms : Option ℕ
  pub credentials : Option Credentials

abbrev default_endpoint : Option String → String
default_endpoint none = "127.0.0.1:50051"
default_endpoint (some endpoint) = endpoint

abbrev default_options : Option PgAppClientOptions → PgAppClientOptions
default_options none = record { timeout_ms = none; credentials = none }
default_options (some options) = options

-- The constructor; an argument that is left out is `none`.
unfoldable pub new_client : Option String → Option PgAppClientOptions → PgAppClient
new_client endpoint options = record {
  endpoint = default_endpoint endpoint;
  timeout_ms = (default_options options).timeout_ms;
  credentials = (default_options options).credentials;
}

-- The metadata of a call, as a record's entries in the order of their assignment, and its timeout.
pub record RpcOptions : Type 0 where
  pub meta : List (String × String)
  pub timeout : Option ℕ

abbrev credential_entries : Option Credentials → List (String × String)
credential_entries none = []
credential_entries (some c) = ("x-pgapp-key", c.key) ∷ ("x-pgapp-secret", c.secret) ∷ []

unfoldable pub rpc_options : PgAppClient → RpcOptions
rpc_options client = record {
  meta = credential_entries client.credentials;
  timeout = client.timeout_ms;
}

-- `PGAppError.from(error)`, and what it throws itself: `null` has no property `message` to read, and
-- `String(error)` may throw.
unfoldable pub from : Thrown → Thrown
from (error name message code) = error "PGAppError" message code
from (message_like message code) = error "PGAppError" message code
from (value text) = error "PGAppError" text none
from (textless reason) = reason
from (nullish text) =
    error "TypeError" (template ("Cannot read properties of " ∷ text ∷ " (reading 'message')" ∷ []))
      none

-- `try { return await fn(); } catch (error) { throw PGAppError.from(error); }`
unfoldable pub wrap {ℓ} : {A : Type ℓ} → Result A → Result A
wrap (ok a) = ok a
wrap (throw e) = throw (from e)

-- A unary call of a generated service client: its awaited response, or what its promise rejects with.
abbrev pub Unary : Type 0 → Type 0 → Type 0
Unary Request Response = Message Request → RpcOptions → Result (Message Response)
