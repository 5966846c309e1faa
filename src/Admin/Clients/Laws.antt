-- ===== src/Admin/Clients/Laws.antt =====
-- What the form for client credentials sends and shows.
-- Code: apps/admin-ui/src/App.tsx

use text.Mathlib.Text.{◌==◌ as str_eq}
use text.Mathlib.TextEquality.{eq_iff}
use pgapp.Common.{
  sym, subst, ◌⊎◌, true, refl, ◌≡◌, ◌≢◌, String, false, Bool-cases, inl, inr, List, [], ◌∷◌, map,
  All, arith,
}
use pgapp.Common.Result.{Result, ok, throw}
use pgapp.Admin.Text.{trim, split_at}
use pgapp.Admin.Text.Laws.{StartsDark, EndsDark, trim-Dark}
use pgapp.Admin.Clients.{
  CreatedClient, NewClient, ClientForm, filled, roles_of, new_client_body, Call, post_client,
  create_client, rotate_client, shown_secret, client_path, post_path, Acted,
}

-- A name that is sent: not empty, and without white space at its ends.
abbrev pub IsClean : String → Type 0
IsClean s = (s ≢ "") × StartsDark s × EndsDark s

pub trim-IsClean : (s : String) → str_eq (trim s) "" ≡ false → IsClean (trim s)
trim-IsClean s e =
    ((λ empty. ground (arith, e, empty, eq_iff (trim s) "")), (trim-Dark s).0, (trim-Dark s).1)

filled-map-trim : (ss : List String) → All IsClean (filled (map trim ss))
unfolding filled
filled-map-trim [] = tt
filled-map-trim (s ∷ ss) = elim (Bool-cases (str_eq (trim s) "")) [
  | inl e ↦ rw e (filled-map-trim ss)
  | inr e ↦ rw e (trim-IsClean s e, filled-map-trim ss)
]

-- Every role that is sent is filled and trimmed.
roles_of-IsClean : (roles : String) → All IsClean (roles_of roles)
unfolding roles_of
roles_of-IsClean roles = filled-map-trim (split_at b',' roles)

-- A text of the list.
abbrev pub IsAmong : String → List String → Type 0
IsAmong s [] = ⊥
IsAmong s (t ∷ ts) = (t ≡ s) ⊎ IsAmong s ts

-- Each piece is blank, or its trimmed form is among the roles.
abbrev pub AreKept : List String → List String → Type 0
AreKept roles = All (λ piece. (trim piece ≡ "") ⊎ IsAmong (trim piece) roles)

AreKept-more :
    (role : String) (roles pieces : List String)
    → AreKept roles pieces
    → AreKept (role ∷ roles) pieces
AreKept-more role roles [] kept = tt
AreKept-more role roles (piece ∷ pieces) (h, kept) = (
  elim h [ inl blank ↦ inl blank | inr among ↦ inr (inr among) ],
  AreKept-more role roles pieces kept,
)

filled-blank : (s : String) (ss : List String) → str_eq s "" ≡ true → filled (s ∷ ss) ≡ filled ss
unfolding filled
filled-blank s ss e = rw e refl

filled-more :
    (s : String) (ss : List String) → str_eq s "" ≡ false → filled (s ∷ ss) ≡ s ∷ filled ss
unfolding filled
filled-more s ss e = rw e refl

filled-map-AreKept : (pieces : List String) → AreKept (filled (map trim pieces)) pieces
filled-map-AreKept [] = tt
filled-map-AreKept (piece ∷ pieces) = elim (Bool-cases (str_eq (trim piece) "")) [
  | inl e ↦
      subst (λ roles. AreKept roles (piece ∷ pieces))
        (sym (filled-blank (trim piece) (map trim pieces) e))
        (inl (ground (arith, e, eq_iff (trim piece) "")), filled-map-AreKept pieces)
  | inr e ↦
      subst (λ roles. AreKept roles (piece ∷ pieces))
        (sym (filled-more (trim piece) (map trim pieces) e))
        (
          inr (inl refl),
          AreKept-more (trim piece) (filled (map trim pieces)) pieces (filled-map-AreKept pieces),
        )
]

IsAmong-more :
    (s : String) (ss roles : List String)
    → All (λ role. IsAmong role ss) roles
    → All (λ role. IsAmong role (s ∷ ss)) roles
IsAmong-more s ss [] among = tt
IsAmong-more s ss (role ∷ roles) (h, among) = (inr h, IsAmong-more s ss roles among)

filled-IsAmong : (ss : List String) → All (λ role. IsAmong role ss) (filled ss)
filled-IsAmong [] = unfold filled in tt
filled-IsAmong (s ∷ ss) = elim (Bool-cases (str_eq s "")) [
  | inl e ↦
      subst (All (λ role. IsAmong role (s ∷ ss))) (sym (filled-blank s ss e))
        (IsAmong-more s ss (filled ss) (filled-IsAmong ss))
  | inr e ↦
      subst (All (λ role. IsAmong role (s ∷ ss))) (sym (filled-more s ss e))
        (inl refl, IsAmong-more s ss (filled ss) (filled-IsAmong ss))
]

-- What creating a client sends: nothing if the key is blank, and else one client.
abbrev pub ClientSent : ClientForm → List Call → Type 0
ClientSent form calls =
    ((calls ≡ []) × (trim form.client_key ≡ ""))
    ⊎ ((body : NewClient) × (calls ≡ post_client body ∷ [])
        × (body.client_key ≡ trim form.client_key)
        × IsClean body.client_key
        × All IsClean body.roles
        × AreKept body.roles (split_at b',' form.roles)
        × All (λ role. IsAmong role (map trim (split_at b',' form.roles))) body.roles)

-- Creating a client sends nothing if the key is blank, and else one client: under the trimmed key, with
-- roles that are not empty and have no white space at their ends: trimmed pieces between commas, and
-- each such piece that is not blank.
pub create_client-ClientSent :
    (send : NewClient → Result CreatedClient) (form : ClientForm)
    → ClientSent form ((create_client send form).calls)
unfolding create_client new_client_body roles_of
create_client-ClientSent send form = elim (Bool-cases (str_eq (trim form.client_key) "")) [
  | inl e ↦ inl (rw e refl, ground (arith, e, eq_iff (trim form.client_key) ""))
  | inr e ↦ inr (
    new_client_body form,
    rw e refl,
    refl,
    trim-IsClean form.client_key e,
    roles_of-IsClean form.roles,
    filled-map-AreKept (split_at b',' form.roles),
    filled-IsAmong (map trim (split_at b',' form.roles)),
  )
]

-- The two actions that show a secret.
pub data SecretAction : Type 0 where
  creating : SecretAction
  rotating : (client_key : String) → SecretAction

module _ (send : NewClient → Result CreatedClient) (post : String → Result CreatedClient) where
  abbrev pub acted : SecretAction → ClientForm → Acted
  acted creating form = create_client send form
  acted (rotating client_key) form = rotate_client post client_key form

  -- What the API answers to a request.
  abbrev pub answer_to : Call → Result CreatedClient
  answer_to (post_client body) = send body
  answer_to (post_path path) = post path

  -- The secret of an answered request.
  abbrev pub secret_in : Result CreatedClient → String
  secret_in (ok client) = client.secret
  secret_in (throw e) = ""

  abbrev pub secret_of : List Call → String
  secret_of [] = ""
  secret_of (call ∷ calls) = secret_in (answer_to call)

  shown_secret-secret :
      (form : ClientForm) (verb : String) (result : Result CreatedClient)
      → (shown_secret form verb result).secret ≡ secret_in result
  shown_secret-secret form verb (ok client) = refl
  shown_secret-secret form verb (throw e) = refl

  -- After creating a client or rotating its secret the form shows the secret of the answer, and none if
  -- there was no request or it failed: no secret of an earlier client stays.
  pub acted-secret :
      (action : SecretAction) (form : ClientForm)
      → ((acted action form).form).secret ≡ secret_of ((acted action form).calls)
  unfolding create_client rotate_client
  acted-secret creating form = elim (Bool-cases (str_eq (trim form.client_key) "")) [
    | inl e ↦ rw e refl
    | inr e ↦ rw e (shown_secret-secret form "Created" (send (new_client_body form)))
  ]
  acted-secret (rotating client_key) form =
      shown_secret-secret form "Rotated" (post (client_path client_key "rotate"))
