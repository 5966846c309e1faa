-- ===== src/Admin/App/Laws.antt =====
-- Lemmas about the page and the token of the session.
-- Code: apps/admin-ui/src/App.tsx
use text.Mathlib.Text.{◌==◌ as str_eq}
use pgapp.Common.{
  ◌≡◌, refl, sym, ap, ◌∙◌, String, Bool, not, Bool-cases, inl, inr, Option, List, [], ◌∷◌,
  if◌then◌else◌,
}
use pgapp.Admin.Text.{trim}
use pgapp.Admin.App.{
  View, AppState, has_token, open_app, AppEvent, navigate, type_token, submit_token, app_step,
  app_steps, Content, prompt, page, content,
}

-- The page counts on a token exactly if the session has one.
abbrev IsReady : AppState → Type 0
IsReady state = state.token_ready ≡ has_token state.stored

app_step-IsReady :
    (event : AppEvent) (state : AppState) → IsReady state → IsReady (app_step event state)
unfolding app_step has_token
app_step-IsReady (navigate view) state h = h
app_step-IsReady (type_token value) state h = elim (Bool-cases state.token_ready) [
  | inl e ↦ rw e (sym e ∙ h)
  | inr e ↦ rw e (sym e ∙ h)
]
app_step-IsReady submit_token state h = elim (Bool-cases state.token_ready) [
  | inl e ↦ rw e (sym e ∙ h)
  | inr e ↦ elim (Bool-cases (str_eq (trim state.value) "")) [
    | inl f ↦ rw (e, f) (sym e ∙ h)
    | inr f ↦ rw (e, f) (ap not (sym f))
  ]
]

app_steps-IsReady :
    (events : List AppEvent) (state : AppState) → IsReady state → IsReady (app_steps events state)
unfolding app_steps
app_steps-IsReady [] state h = h
app_steps-IsReady (event ∷ events) state h =
    app_steps-IsReady events (app_step event state) (app_step-IsReady event state h)

-- What is shown for a stored token.
abbrev pub guarded : Option String → View → Content
guarded stored view = if has_token stored then page view else prompt

pub content-guarded :
    (stored : Option String) (events : List AppEvent)
    → content (app_steps events (open_app stored))
      ≡ guarded
          ((app_steps events (open_app stored)).stored)
          ((app_steps events (open_app stored)).view)
unfolding content
content-guarded stored events =
    let state = app_steps events (open_app stored) in
    ap (λ (ready : Bool). if ready then page state.view else prompt)
      (app_steps-IsReady events (open_app stored) (unfold open_app in refl))
