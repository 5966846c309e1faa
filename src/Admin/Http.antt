-- ===== src/Admin/Http.antt =====
-- `fetchJson`, `sendJson`, `postAction` and `deleteAction`.
-- Code: apps/admin-ui/src/App.tsx
-- The browser's `fetch` is a parameter, as are JSON values: the text of a value, and the property
-- `message` of a parsed body (`none` if the body or its message is missing).
pub mod Laws
use text.Mathlib.Text.{◌==◌ as str_eq}
use pgapp.Common.{
  ℕ, String, Bool, Option, none, some, List, [], ◌∷◌, ◌++◌, pos, template, if◌then◌else◌,
}
use pgapp.Common.Result.{Thrown, error, Result, ok, throw}
use pgapp.Number.{to_string}

-- The entries of an object, the first of a name being its value.
abbrev pub Headers : Type 0
Headers = List (String × String)

pub record Init : Type 0 where
  pub method : Option String
  pub headers : Headers
  pub body : Option String

pub record Request : Type 0 where
  pub path : String
  pub method : Option String
  pub headers : Headers
  pub body : Option String

-- What a response gives; `json` may reject.
pub record Response (Json : Type 0) : Type 0 where
  pub ok : Bool
  pub status : ℕ
  pub json : Result Json

-- The token in the session storage; an empty one counts as none.
unfoldable pub token_headers : Option String → Headers
token_headers none = ("Accept", "application/json") ∷ []
token_headers (some token) =
    if str_eq token ""
    then ("Accept", "application/json") ∷ []
    else ("Authorization", template ("Bearer " ∷ token ∷ [])) ∷ ("Accept", "application/json") ∷ []

-- `{ ...init, headers: { ...headers, ...init.headers } }`
unfoldable pub request : Option String → String → Init → Request
unfolding token_headers
request token path init = record {
  path = path;
  method = init.method;
  headers = init.headers ++ token_headers token;
  body = init.body;
}

abbrev pub no_init : Init
no_init = record { method = none; headers = []; body = none }

module _ {Json : Type 0} (message_of : Json → Option String) where
  -- `body.message ?? message`, in a `try` that keeps the fallback.
  abbrev pub message_or : String → Result Json → String
  message_or fallback (throw e) = fallback
  message_or fallback (Result.ok body) = elim (message_of body) [
    | none ↦ fallback
    | some message ↦ message
  ]

  unfoldable pub failure_message : Response Json → String
  failure_message response =
      message_or (template ("Request failed with " ∷ to_string (pos response.status) ∷ []))
        response.json

  -- What follows the call of `fetch`.
  unfoldable pub answer : Result (Response Json) → Result Json
  unfolding failure_message
  answer (throw e) = throw (error "Error" "Admin API unavailable" none)
  answer (Result.ok response) =
      if response.ok then response.json else throw (error "Error" (failure_message response) none)

  module _ (token : Option String) (fetch : Request → Result (Response Json)) where
    unfoldable pub fetch_json : String → Init → Result Json
    unfolding answer request
    fetch_json path init = answer (fetch (request token path init))

    unfoldable pub send_json : (Json → String) → String → String → Json → Result Json
    unfolding fetch_json
    send_json stringify path method body = fetch_json path (record {
      method = some method;
      headers = ("Content-Type", "application/json") ∷ [];
      body = some (stringify body);
    })

    unfoldable pub post_action : String → Result Json
    unfolding fetch_json
    post_action path = fetch_json path (record { method = some "POST"; headers = []; body = none })

    unfoldable pub delete_action : String → Result Json
    unfolding fetch_json
    delete_action path =
        fetch_json path (record { method = some "DELETE"; headers = []; body = none })
