-- ===== src/Admin/Queues/Laws.antt =====
-- Lemmas about the requests of the view of queues.
-- Code: apps/admin-ui/src/App.tsx
use text.Mathlib.Text.{◌==◌ as str_eq}
use text.Mathlib.TextEquality.{eq_iff}
use pgapp.Common.{
  ◌⊎◌, template, ◌≡◌, ◌≢◌, String, Bool, Bool-cases, inl, inr, Option, none, some, List, [], ◌∷◌, ℤ,
  refl, arith,
}
use pgapp.Common.Result.{Result}
use pgapp.Number.{to_string}
use pgapp.Admin.Async.{LoadState, loading, failed, ready}
use pgapp.Admin.Queues.{
  QueueSummary, selected_queue, messages_request, dlq_request, reprocess_dlq, purge_dlq,
}

-- What makes requests: loading the messages and the dead letters, and the two actions.
pub data QueueAction : Type 0 where
  load_messages load_dlq purging : QueueAction
  reprocessing : ℤ → QueueAction

module _ (post : String → Result Bool) (post_purge : String → Result ℤ) (feedback : String) where
  abbrev pub requests : QueueAction → Option String → List String
  requests load_messages queue = messages_request queue
  requests load_dlq queue = dlq_request queue
  requests purging queue = (purge_dlq post_purge queue feedback).posted
  requests (reprocessing id) queue = (reprocess_dlq post queue id feedback).posted

  -- The path of each request for a queue.
  abbrev pub path : QueueAction → String → String
  path load_messages name =
      template ("/api/admin/mq/queues/" ∷ name ∷ "/messages?limit=50&offset=0" ∷ [])
  path load_dlq name = template ("/api/admin/mq/queues/" ∷ name ∷ "/dlq?limit=50&offset=0" ∷ [])
  path purging name = template ("/api/admin/mq/queues/" ∷ name ∷ "/dlq/purge" ∷ [])
  path (reprocessing id) name =
      template ("/api/admin/mq/queues/" ∷ name ∷ "/dlq/" ∷ to_string id ∷ "/reprocess" ∷ [])

  -- Either there is a first queue with a name and the request for it alone, or no request.
  abbrev pub AreForFirst : LoadState (List QueueSummary) → QueueAction → List String → Type 0
  AreForFirst loading action paths = paths ≡ []
  AreForFirst (failed message) action paths = paths ≡ []
  AreForFirst (ready []) action paths = paths ≡ []
  AreForFirst (ready (queue ∷ queues)) action paths =
      ((queue.name ≡ "") × (paths ≡ []))
      ⊎ ((queue.name ≢ "") × (paths ≡ path action queue.name ∷ []))

  requests-none : (action : QueueAction) → requests action none ≡ []
  unfolding messages_request dlq_request purge_dlq reprocess_dlq
  requests-none load_messages = refl
  requests-none load_dlq = refl
  requests-none purging = refl
  requests-none (reprocessing id) = refl

  requests-some :
      (action : QueueAction) (name : String) → requests action (some name) ≡ path action name ∷ []
  unfolding messages_request dlq_request purge_dlq reprocess_dlq
  requests-some load_messages name = refl
  requests-some load_dlq name = refl
  requests-some purging name = refl
  requests-some (reprocessing id) name = refl

  -- Loading the messages or the dead letters, reprocessing and purging each make one request, at the path
  -- of the action for the queue that is listed first. While the queues are not loaded, if there is none,
  -- or if the first has no name, they make none.
  pub requests-AreForFirst :
      (state : LoadState (List QueueSummary)) (action : QueueAction)
      → AreForFirst state action (requests action (selected_queue state))
  unfolding selected_queue
  requests-AreForFirst loading action = requests-none action
  requests-AreForFirst (failed message) action = requests-none action
  requests-AreForFirst (ready []) action = requests-none action
  requests-AreForFirst (ready (queue ∷ queues)) action = elim (Bool-cases (str_eq queue.name "")) [
    | inl e ↦ inl (ground (arith, e, eq_iff queue.name ""), rw e (requests-none action))
    | inr e ↦
        inr (
          (λ q. ground (arith, e, q, eq_iff queue.name "")),
          rw e (requests-some action queue.name),
        )
  ]
