-- ===== src/Tests/Admin.antt =====
-- The console with concrete answers of the API.
use text.Mathlib.Text.{◌==◌ as str_eq}
use pgapp.Common.{
  ◌≡◌, refl, String, Bool, true, false, Option, none, some, List, [], ◌∷◌, ◌++◌, All, ℤ, pos, arith,
  ◌⊎◌, inl, inr, if◌then◌else◌,
}
use pgapp.Common.Result.{error, Result, ok, throw}
use pgapp.Admin.Async.{
  LoadState, ready, settled, initial, Event, effect, settle, unmount, run_events,
}
use pgapp.Admin.Async.Laws.{turns, blank, run_events-turns, newest_result}
use pgapp.Admin.Http.{Request, Response, no_init, request, fetch_json}
use pgapp.Admin.Http.Laws.{
  header, or_default, default_value, request-header, view, fetch_json-shown,
}
use pgapp.Admin.Scopes.{ConfigScope, ConfigScopeSummary, scope_id, selected_scope}
use pgapp.Admin.Scopes.Laws.{IsPlainScope, selected_scope-click}
use pgapp.Admin.Clients.{CreatedClient, NewClient, ClientForm, create_client}
use pgapp.Admin.Clients.Laws.{
  ClientSent, create_client-ClientSent, rotating, acted, secret_of, acted-secret,
}
use pgapp.Admin.Editor.{
  ConfigDraftItem, Editor, Call, put_item, first_item, find_kept, draft_loaded, save_item,
}
use pgapp.Admin.Editor.Laws.{saving_item, act, Sends, act-Sends, save_item-loaded, first_item-kept}
use pgapp.Admin.Queues.{QueueSummary, selected_queue}
use pgapp.Admin.Queues.Laws.{reprocessing, requests, AreForFirst, requests-AreForFirst}
use pgapp.Admin.App.{navigate, type_token, submit_token, mq, app_steps, open_app, content}
use pgapp.Admin.App.Laws.{guarded, content-guarded}
use pgapp.Admin.Text.{is_space}

-- A second effect runs, then the first one's answer comes, then the second one's.
abbrev late_answers : List (Event String)
late_answers =
    effect true
    ∷ effect true
    ∷ settle 0 (ok "old")
    ∷ settle 1 (ok "new")
    ∷ unmount
    ∷ settle 0 (ok "old")
    ∷ []

run_events-turns_example :
    (run_events late_answers initial).state ≡ (turns late_answers blank).shown
run_events-turns_example = run_events-turns late_answers

-- What comes after one effect: a second effect, the first one's answer, the second one's, and the first
-- one's again.
abbrev first_answer : List (Event String)
first_answer = settle 0 (ok "old") ∷ []

abbrev second_answer : Result String
second_answer = ok "new"

newest_result_example :
    (run_events
      ((effect true ∷ [])
        ++ (effect true ∷ (first_answer ++ (settle 1 second_answer ∷ first_answer))))
      initial).state
    ≡ settled second_answer
newest_result_example =
    newest_result (effect true ∷ []) first_answer first_answer second_answer (omega arith, tt)
      (tt, tt)

abbrev no_message : String → Option String
no_message body = none

abbrev refused : Request → Result (Response String)
refused r =
    ok (record { ok = false; status = 401; json = throw (error "SyntaxError" "no body" none) })

fetch_json-shown_example :
    settled (fetch_json no_message (some "tok") refused "/api/admin/overview" no_init)
    ≡ view no_message (refused (request (some "tok") "/api/admin/overview" no_init))
fetch_json-shown_example =
    fetch_json-shown no_message (some "tok") refused "/api/admin/overview" no_init

request-header_example :
    header "Authorization" ((request (some "tok") "/api/admin/overview" no_init).headers)
    ≡ or_default (header "Authorization" []) (default_value (some "tok") "Authorization")
request-header_example = request-header (some "tok") "/api/admin/overview" no_init "Authorization"

abbrev dev_scope : ConfigScope
dev_scope = record { app_id = "a"; environment = "d"; cluster = "m"; namespace = "a/b" }

abbrev live_scope : ConfigScope
live_scope = record { app_id = "a"; environment = "l"; cluster = "m"; namespace = "a/b" }

abbrev scope_items : List ConfigScopeSummary
scope_items =
    record { scope = live_scope; current_revision = 2 }
    ∷ record { scope = dev_scope; current_revision = 5 }
    ∷ []

plain_dev : IsPlainScope dev_scope
plain_dev =
    (((λ e. omega (arith, e)), tt), ((λ e. omega (arith, e)), tt), ((λ e. omega (arith, e)), tt))

plain_live : IsPlainScope live_scope
plain_live =
    (((λ e. omega (arith, e)), tt), ((λ e. omega (arith, e)), tt), ((λ e. omega (arith, e)), tt))

selected_scope-click_example : selected_scope (scope_id dev_scope) scope_items ≡ some dev_scope
selected_scope-click_example =
    selected_scope-click dev_scope scope_items plain_dev (plain_live, (plain_dev, tt))
      (inr (inl refl))

abbrev decline : NewClient → Result CreatedClient
decline body = throw (error "Error" "client exists" none)

abbrev client_form : ClientForm
client_form = record {
  client_key = " web ";
  roles = "reader, ,writer ";
  secret = "";
  feedback = "";
}

create_client-ClientSent_example :
    ClientSent client_form ((create_client decline client_form).calls)
create_client-ClientSent_example = create_client-ClientSent decline client_form

abbrev parse : String → Result String
parse s = if str_eq s "" then throw (error "SyntaxError" "no value" none) else ok s

abbrev accept : Call String → Result String
accept call = ok "{}"

abbrev draft_items : List (ConfigDraftItem String)
draft_items =
    record { key = "old"; value = "1"; deleted = true }
    ∷ record { key = "k"; value = "5"; deleted = false }
    ∷ []

abbrev limit_item : ConfigDraftItem String
limit_item = record { key = "k"; value = "5"; deleted = false }

abbrev blank_editor : Editor
blank_editor = record { selected_key = " k "; json_value = "5"; schema_value = "{}"; feedback = "" }

act-Sends_example :
    Sends parse accept dev_scope saving_item blank_editor
      ((act parse accept dev_scope saving_item blank_editor).calls)
act-Sends_example = act-Sends parse accept dev_scope saving_item blank_editor

abbrev same_text : String → String
same_text s = s

save_item-loaded_example :
    (save_item parse accept dev_scope (draft_loaded same_text draft_items blank_editor)).calls
    ≡ put_item dev_scope "k" "5" ∷ []
unfolding first_item find_kept is_space
save_item-loaded_example =
    save_item-loaded parse same_text accept dev_scope draft_items limit_item blank_editor refl
      ((λ e. cc), refl, ((λ _. refl), tt)) refl

first_item-kept_example :
    (limit_item.deleted ≡ false)
    ⊎ All (λ (i : ConfigDraftItem String). i.deleted ≡ true) draft_items
unfolding first_item find_kept
first_item-kept_example = first_item-kept draft_items limit_item refl

abbrev queues : LoadState (List QueueSummary)
queues = ready (
    record {
      name = "orders";
      visible_message_count = 3;
      in_flight_message_count = 0;
      archived_message_count = 1;
    }
    ∷ [])

abbrev succeed : String → Result Bool
succeed path = ok true

abbrev purge_none : String → Result ℤ
purge_none path = ok (pos 0)

requests-AreForFirst_example :
    AreForFirst succeed purge_none "" queues
      (reprocessing (pos 5))
      (requests succeed purge_none "" (reprocessing (pos 5)) (selected_queue queues))
requests-AreForFirst_example =
    requests-AreForFirst succeed purge_none "" queues (reprocessing (pos 5))

content-guarded_example :
    content (app_steps (navigate mq ∷ type_token " tok " ∷ submit_token ∷ []) (open_app none))
    ≡ guarded
        ((app_steps (navigate mq ∷ type_token " tok " ∷ submit_token ∷ []) (open_app none)).stored)
        ((app_steps (navigate mq ∷ type_token " tok " ∷ submit_token ∷ []) (open_app none)).view)
content-guarded_example =
    content-guarded none (navigate mq ∷ type_token " tok " ∷ submit_token ∷ [])

abbrev rotated : String → Result CreatedClient
rotated path = ok (record { id = 1; client_key = "web"; secret = "tok"; roles = [] })

acted-secret_example :
    ((acted decline rotated (rotating "web") client_form).form).secret
    ≡ secret_of decline rotated ((acted decline rotated (rotating "web") client_form).calls)
acted-secret_example = acted-secret decline rotated (rotating "web") client_form
