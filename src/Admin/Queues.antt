-- ===== src/Admin/Queues.antt =====
-- `MqView`: which queue is shown, and the actions on its dead letters.
-- Code: apps/admin-ui/src/App.tsx
-- The calls of the API are parameters.
pub mod Laws
use text.Mathlib.Text.{◌==◌ as str_eq}
use pgapp.Common.{
  ℕ, String, Bool, Option, none, some, List, [], ◌∷◌, ℤ, pos, template, if◌then◌else◌,
}
use pgapp.Common.Result.{Result, ok, throw}
use pgapp.Number.{to_string}
use pgapp.Admin.Async.{LoadState, loading, failed, ready, error_message}

pub record QueueSummary : Type 0 where
  pub name : String
  pub visible_message_count : ℕ
  pub in_flight_message_count : ℕ
  pub archived_message_count : ℕ

-- `items[0]?.name`, an empty name counting as none.
abbrev pub first_name : List QueueSummary → Option String
first_name [] = none
first_name (queue ∷ queues) = if str_eq queue.name "" then none else some queue.name

unfoldable pub selected_queue : LoadState (List QueueSummary) → Option String
selected_queue loading = none
selected_queue (failed message) = none
selected_queue (ready queues) = first_name queues

abbrev pub queue_path : String → List String → String
queue_path name parts = template ("/api/admin/mq/queues/" ∷ name ∷ parts)

-- The request of the factory of messages and of the factory of dead letters.
unfoldable pub messages_request : Option String → List String
messages_request none = []
messages_request (some name) = queue_path name ("/messages?limit=50&offset=0" ∷ []) ∷ []

unfoldable pub dlq_request : Option String → List String
dlq_request none = []
dlq_request (some name) = queue_path name ("/dlq?limit=50&offset=0" ∷ []) ∷ []

-- The paths that an action posts to, and the feedback that it leaves.
pub record Acted : Type 0 where
  pub posted : List String
  pub feedback : String

abbrev pub reprocessed : ℤ → Result Bool → String
reprocessed id (ok success) = template ("Reprocessed " ∷ to_string id ∷ [])
reprocessed id (throw e) = error_message e

abbrev pub reprocess_path : String → ℤ → String
reprocess_path name id = queue_path name ("/dlq/" ∷ to_string id ∷ "/reprocess" ∷ [])

unfoldable pub reprocess_dlq : (String → Result Bool) → Option String → ℤ → String → Acted
reprocess_dlq post none id feedback = record { posted = []; feedback = feedback }
reprocess_dlq post (some name) id feedback = record {
  posted = reprocess_path name id ∷ [];
  feedback = reprocessed id (post (reprocess_path name id));
}

abbrev pub purged : Result ℤ → String
purged (ok deleted_count) = template ("Purged " ∷ to_string deleted_count ∷ [])
purged (throw e) = error_message e

abbrev pub purge_path : String → String
purge_path name = queue_path name ("/dlq/purge" ∷ [])

unfoldable pub purge_dlq : (String → Result ℤ) → Option String → String → Acted
purge_dlq post none feedback = record { posted = []; feedback = feedback }
purge_dlq post (some name) feedback = record {
  posted = purge_path name ∷ [];
  feedback = purged (post (purge_path name));
}
