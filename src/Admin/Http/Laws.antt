-- ===== src/Admin/Http/Laws.antt =====
-- The headers that are sent, and what a component shows of a failed request.
-- Code: apps/admin-ui/src/App.tsx
use text.Mathlib.Text.{◌==◌ as str_eq}
use text.Mathlib.TextEquality.{eq_iff}
use pgapp.Common.{
  ℕ, template, pos, ◌≡◌, refl, sym, subst, ap, ◌∙◌, String, true, false, Option, none, some, [],
  ◌∷◌, ◌++◌, template, if◌then◌else◌, arith, Bool-cases, inl, inr,
}
use pgapp.Common.Result.{Thrown, Result, ok, throw}
use pgapp.Number.{to_string}
use pgapp.Admin.Http.{
  Headers, Init, Request, Response, token_headers, request, failure_message, answer, fetch_json,
}
use pgapp.Admin.Async.{error_message, LoadState, ready, failed, settled}

str_eq→eq : (s t : String) → str_eq s t ≡ true → s ≡ t
str_eq→eq s t e = ground (arith, e, eq_iff s t)

-- The value of a name.
abbrev pub header : String → Headers → Option String
header name [] = none
header name ((key, value) ∷ headers) = if str_eq name key then some value else header name headers

-- The token that counts.
abbrev pub effective_token : Option String → Option String
effective_token none = none
effective_token (some token) = if str_eq token "" then none else some token

abbrev pub bearer : Option String → Option String
bearer none = none
bearer (some token) = some (template ("Bearer " ∷ token ∷ []))

-- The value of a name where the caller gives none.
abbrev pub default_value : Option String → String → Option String
default_value token name =
    if str_eq name "Authorization"
    then bearer (effective_token token)
    else if str_eq name "Accept"
    then some "application/json"
    else none

abbrev pub or_default : Option String → Option String → Option String
or_default (some value) other = some value
or_default none other = other

header-append :
    (name : String) (first second : Headers)
    → header name (first ++ second) ≡ or_default (header name first) (header name second)
header-append name [] second = refl
header-append name ((key, value) ∷ first) second = elim (Bool-cases (str_eq name key)) [
  | inl e ↦ rw e refl
  | inr e ↦ rw e (header-append name first second)
]

distinct_names : (name : String) → str_eq name "Authorization" ≡ true → str_eq name "Accept" ≡ false
distinct_names name e =
    subst (λ n. str_eq n "Accept" ≡ false) (sym (str_eq→eq name "Authorization" e)) refl

accept_only :
    (name : String) → header name (("Accept", "application/json") ∷ []) ≡ default_value none name
accept_only name = elim (Bool-cases (str_eq name "Authorization")) [
  | inl e ↦ rw (e, distinct_names name e) refl
  | inr e ↦ rw e refl
]

header-token_headers :
    (token : Option String) (name : String)
    → header name (token_headers token) ≡ default_value token name
unfolding token_headers
header-token_headers none name = accept_only name
header-token_headers (some token) name = elim (Bool-cases (str_eq token "")) [
  | inl e ↦ rw e (accept_only name)
  | inr e ↦
      rw e
        (elim (Bool-cases (str_eq name "Authorization")) [ inl f ↦ rw f refl | inr f ↦ rw f refl ])
]

-- A request carries every header that its caller gives, the bearer token of the session unless there
-- is none or it is empty, and `Accept: application/json`; the caller's own value of a header goes
-- before.
pub request-header :
    (token : Option String) (path : String) (init : Init) (name : String)
    → header name ((request token path init).headers)
      ≡ or_default (header name init.headers) (default_value token name)
unfolding request
request-header token path init name =
    header-append name init.headers (token_headers token)
    ∙ ap (or_default (header name init.headers)) (header-token_headers token name)

-- The message of a body that is no success.
abbrev pub refusal : {Json : Type 0} → (Json → Option String) → ℕ → Result Json → String
refusal message_of status (throw e) =
    template ("Request failed with " ∷ to_string (pos status) ∷ [])
refusal message_of status (ok body) = elim (message_of body) [
  | none ↦ template ("Request failed with " ∷ to_string (pos status) ∷ [])
  | some message ↦ message
]

-- What is shown of a body that was read.
abbrev pub body_view : {Json : Type 0} → Result Json → LoadState Json
body_view (ok body) = ready body
body_view (throw (Thrown.error name message code)) = failed message
body_view (throw _) = failed "Unknown error"

-- What a component shows that loads with `fetch_json`, by what the browser's `fetch` gave.
abbrev pub view : {Json : Type 0} → (Json → Option String) → Result (Response Json) → LoadState Json
view message_of (throw e) = failed "Admin API unavailable"
view message_of (ok response) =
    if response.ok
    then body_view response.json
    else failed (refusal message_of response.status response.json)

body_view-settled : {Json : Type 0} (body : Result Json) → settled body ≡ body_view body
unfolding settled error_message
body_view-settled (ok body) = refl
body_view-settled (throw (Thrown.error name message code)) = refl
body_view-settled (throw (Thrown.message_like message code)) = refl
body_view-settled (throw (Thrown.value text)) = refl
body_view-settled (throw (Thrown.textless reason)) = refl
body_view-settled (throw (Thrown.nullish text)) = refl

failure_message-refusal :
    {Json : Type 0} (message_of : Json → Option String) (response : Response Json)
    (body : Result Json)
    → response.json ≡ body
    → failure_message message_of response ≡ refusal message_of response.status body
unfolding failure_message
failure_message-refusal message_of response (throw e) h = rw h refl
failure_message-refusal message_of response (ok body) h = rw h refl

answer-shown :
    {Json : Type 0} (message_of : Json → Option String) (result : Result (Response Json))
    → settled (answer message_of result) ≡ view message_of result
unfolding answer settled error_message
answer-shown message_of (throw e) = refl
answer-shown message_of (ok response) = elim (Bool-cases response.ok) [
  | inl e ↦ rw e (body_view-settled response.json)
  | inr e ↦ rw e (ap failed (failure_message-refusal message_of response response.json refl))
]

-- A component that loads with `fetch_json` shows "Admin API unavailable" if `fetch` rejects; the data of
-- the response, or the error of reading it, if the response is successful; and else the message of the
-- response's body, or the text with the status if there is none.
pub fetch_json-shown :
    {Json : Type 0} (message_of : Json → Option String) (token : Option String)
    (fetch : Request → Result (Response Json)) (path : String) (init : Init)
    → settled (fetch_json message_of token fetch path init)
      ≡ view message_of (fetch (request token path init))
unfolding fetch_json
fetch_json-shown message_of token fetch path init =
    answer-shown message_of (fetch (request token path init))
