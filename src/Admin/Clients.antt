-- ===== src/Admin/Clients.antt =====
-- `ClientsView`: the form for client credentials.
-- Code: apps/admin-ui/src/App.tsx
-- The calls of the API are parameters: what `sendJson` and `postAction` return or throw. An action
-- is taken as one step: nobody types into the form while its request is on the way.
pub mod Laws
use Prim.Native.String
use text.Mathlib.Text.{◌==◌ as str_eq}
use pgapp.Common.{ℕ, String, Bool, List, [], ◌∷◌, map, template, if◌then◌else◌}
use pgapp.Common.Result.{Result, ok, throw}
use pgapp.Admin.Text.{trim, split_at}
use pgapp.Admin.Async.{error_message}

pub record CreatedClient : Type 0 where
  pub id : ℕ
  pub client_key : String
  pub secret : String
  pub roles : List String

-- The body that `createClient` sends.
pub record NewClient : Type 0 where
  pub client_key : String
  pub roles : List String

pub record ClientForm : Type 0 where
  pub client_key : String
  pub roles : String
  pub secret : String
  pub feedback : String

-- `.filter(Boolean)`
unfoldable pub filled : List String → List String
filled [] = []
filled (s ∷ ss) = let rest = filled ss in if str_eq s "" then rest else s ∷ rest

unfoldable pub roles_of : String → List String
unfolding filled trim split_at
roles_of roles = filled (map trim (split_at b',' roles))

unfoldable pub new_client_body : ClientForm → NewClient
unfolding roles_of
new_client_body form = record { client_key = trim form.client_key; roles = roles_of form.roles }

-- The requests that an action makes, and the form that it leaves.
pub data Call : Type 0 where
  post_client : NewClient → Call
  post_path : String → Call

pub record Acted : Type 0 where
  pub calls : List Call
  pub form : ClientForm

abbrev pub shown_secret : ClientForm → String → Result CreatedClient → ClientForm
shown_secret form verb (ok client) = record form {
  secret = client.secret;
  feedback = template (verb ∷ " " ∷ client.client_key ∷ []);
}
shown_secret form verb (throw e) = record form { secret = ""; feedback = error_message e }

module _ (send : NewClient → Result CreatedClient) where
  unfoldable pub create_client : ClientForm → Acted
  unfolding new_client_body
  create_client form =
      if str_eq (trim form.client_key) ""
      then record {
        calls = [];
        form = record form { secret = ""; feedback = "Client key required" };
      }
      else record {
        calls = post_client (new_client_body form) ∷ [];
        form = shown_secret form "Created" (send (new_client_body form));
      }

unfoldable pub client_path : String → String → String
client_path client_key action = template ("/api/admin/clients/" ∷ client_key ∷ "/" ∷ action ∷ [])

unfoldable pub rotate_client : (String → Result CreatedClient) → String → ClientForm → Acted
unfolding client_path
rotate_client post client_key form = record {
  calls = post_path (client_path client_key "rotate") ∷ [];
  form = shown_secret form "Rotated" (post (client_path client_key "rotate"));
}

abbrev deactivated : ClientForm → String → Result Bool → ClientForm
deactivated form client_key (ok success) = record form {
  feedback = template ("Deactivated " ∷ client_key ∷ []);
}
deactivated form client_key (throw e) = record form { feedback = error_message e }

unfoldable pub deactivate_client : (String → Result Bool) → String → ClientForm → Acted
unfolding client_path
deactivate_client post client_key form = record {
  calls = post_path (client_path client_key "deactivate") ∷ [];
  form = deactivated form client_key (post (client_path client_key "deactivate"));
}
