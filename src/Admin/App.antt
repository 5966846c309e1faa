-- ===== src/Admin/App.antt =====
-- `App` and `TokenPrompt`: which page is shown, and the token of the session.
-- Code: apps/admin-ui/src/App.tsx
pub mod Laws
use text.Mathlib.Text.{◌==◌ as str_eq}
use pgapp.Common.{
  ℕ, ◌+◌, String, Bool, true, false, not, Option, none, some, List, [], ◌∷◌, if◌then◌else◌,
}
use pgapp.Admin.Text.{trim}

pub data View : Type 0 where
  overview cache mq config logs clients : View

pub record NavItem : Type 0 where
  pub view : View
  pub label : String

unfoldable pub nav_items : List NavItem
nav_items =
    record { view = overview; label = "Overview" }
    ∷ record { view = cache; label = "Cache" }
    ∷ record { view = mq; label = "MQ" }
    ∷ record { view = config; label = "Config" }
    ∷ record { view = logs; label = "Logs" }
    ∷ record { view = clients; label = "Clients" }
    ∷ []

unfoldable pub title_for : View → String
title_for overview = "PGApp Console"
title_for cache = "Cache"
title_for mq = "MQ"
title_for config = "Config"
title_for logs = "Logs"
title_for clients = "Clients"

-- The state of the page, the text in the prompt, and the token in the session storage.
pub record AppState : Type 0 where
  pub view : View
  pub token_ready : Bool
  pub value : String
  pub stored : Option String

-- `Boolean(window.sessionStorage.getItem(...))`
unfoldable pub has_token : Option String → Bool
has_token none = false
has_token (some token) = not (str_eq token "")

unfoldable pub open_app : Option String → AppState
unfolding has_token
open_app stored = record {
  view = overview;
  token_ready = has_token stored;
  value = "";
  stored = stored;
}

pub data AppEvent : Type 0 where
  navigate : View → AppEvent
  type_token : String → AppEvent
  submit_token : AppEvent

-- The prompt is there only without a token.
unfoldable pub app_step : AppEvent → AppState → AppState
app_step (navigate view) state = record state { view = view }
app_step (type_token value) state =
    if state.token_ready then state else record state { value = value }
app_step submit_token state =
    if state.token_ready
    then state
    else if str_eq (trim state.value) ""
    then state
    else record state { token_ready = true; stored = some (trim state.value) }

unfoldable pub app_steps : List AppEvent → AppState → AppState
unfolding app_step
app_steps [] state = state
app_steps (event ∷ events) state = app_steps events (app_step event state)

-- What stands below the head of the page: the prompt, or the page of a view.
pub data Content : Type 0 where
  prompt : Content
  page : View → Content

unfoldable pub content : AppState → Content
content state = if state.token_ready then page state.view else prompt
