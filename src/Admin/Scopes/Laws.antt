-- ===== src/Admin/Scopes/Laws.antt =====
-- Lemmas about the selection of a scope.
-- Code: apps/admin-ui/src/App.tsx
use Prim.Native.Char.{Char, code}
use Prim.Native.String
use text.Mathlib.Text.{◌==◌ as str_eq}
use text.Mathlib.TextEquality.{eq_iff}
use text.Mathlib.TextLemmas.{
  nil-append, cons-append, append_cancel_left, append_cancel_right, head-eq_of_cons-eq,
  tail-eq_of_cons-eq,
}
use pgapp.Common.{
  ◌⊎◌, ◌≡◌, ◌≢◌, refl, sym, ap, ◌∙◌, String, Bool-cases, inl, inr, some, List, [], ◌∷◌, All, arith,
}
use pgapp.Admin.Scopes.{ConfigScope, ConfigScopeSummary, scope_id, find_scope, selected_scope}

abbrev pub HasNoSlash : String → Type 0
HasNoSlash String.[] = Unit
HasNoSlash (String.◌∷◌ c s) = (code c ≢ b'/') × HasNoSlash s

-- The application, the environment and the cluster have no slash; the namespace may have one. The
-- server admits letters, digits, underscores and dashes alone (crates/pgapp-core/src/validation.rs).
abbrev pub IsPlainScope : ConfigScope → Type 0
IsPlainScope scope =
    HasNoSlash scope.app_id × HasNoSlash scope.environment × HasNoSlash scope.cluster

abbrev joined : String → String → String
joined a s = String.◌++◌ a (String.◌++◌ "/" s)

head-code :
    (c : Char) (b s t : String) → String.◌++◌ "/" s ≡ String.◌++◌ (String.◌∷◌ c b) t → code c ≡ b'/'
head-code c b s t e =
    ap code (sym (head-eq_of_cons-eq (sym (cons-append _ "" s) ∙ e ∙ cons-append c b t)))

joined-injective :
    (a b s t : String) → HasNoSlash a → HasNoSlash b → joined a s ≡ joined b t → (a ≡ b) × (s ≡ t)
joined-injective String.[] String.[] s t h k e =
    (refl, append_cancel_left "/" s t (sym (nil-append _) ∙ e ∙ nil-append _))
joined-injective String.[] (String.◌∷◌ c b) s t h k e =
    absurd (k.0 (head-code c b s _ (sym (nil-append _) ∙ e)))
joined-injective (String.◌∷◌ c a) String.[] s t h k e =
    absurd (h.0 (head-code c a t _ (sym (nil-append _) ∙ sym e)))
joined-injective (String.◌∷◌ c a) (String.◌∷◌ d b) s t h k e =
    let both = sym (cons-append c a _) ∙ e ∙ cons-append d b _ in
    let rest = joined-injective a b s t h.1 k.1 (tail-eq_of_cons-eq both) in (cc, rest.1)

-- Different scopes have different ids, if their applications, environments and clusters have no slash.
pub scope_id-injective :
    (s t : ConfigScope) → IsPlainScope s → IsPlainScope t → scope_id s ≡ scope_id t → s ≡ t
unfolding scope_id
scope_id-injective s t (a, b, c) (d, f, g) e =
    let first = joined-injective s.app_id t.app_id _ _ a d e in
    let second = joined-injective s.environment t.environment _ _ b f first.1 in
    let third = joined-injective s.cluster t.cluster _ _ c g second.1 in
    let fourth = append_cancel_right s.namespace t.namespace "" third.1 in
    (λ i. record {
      app_id = first.0 i;
      environment = second.0 i;
      cluster = third.0 i;
      namespace = fourth i;
    })

-- A scope of the list.
abbrev pub IsListed : ConfigScope → List ConfigScopeSummary → Type 0
IsListed scope [] = ⊥
IsListed scope (item ∷ items) = (item.scope ≡ scope) ⊎ IsListed scope items

find_scope-listed :
    (scope : ConfigScope) (items : List ConfigScopeSummary)
    → IsPlainScope scope
    → All (λ item. IsPlainScope item.scope) items
    → IsListed scope items
    → find_scope (scope_id scope) items ≡ some scope
unfolding find_scope
find_scope-listed scope [] plain all listed = absurd listed
find_scope-listed scope (item ∷ items) plain (p, all) listed =
    elim (Bool-cases (str_eq (scope_id item.scope) (scope_id scope))) [
      | inl e ↦ rw e (
          ap some (
            scope_id-injective item.scope scope p plain
              (ground (arith, e, eq_iff (scope_id item.scope) (scope_id scope)))))
      | inr e ↦ rw e (elim listed [
        | inl same ↦
            absurd
              (ground (arith, e, ap scope_id same, eq_iff (scope_id item.scope) (scope_id scope)))
        | inr more ↦ find_scope-listed scope items plain all more
      ])
    ]

-- If the listed scopes are plain, a click on the row of any of them selects that scope.
pub selected_scope-click :
    (scope : ConfigScope) (items : List ConfigScopeSummary)
    → IsPlainScope scope
    → All (λ item. IsPlainScope item.scope) items
    → IsListed scope items
    → selected_scope (scope_id scope) items ≡ some scope
unfolding selected_scope
selected_scope-click scope items plain all listed =
    rw (find_scope-listed scope items plain all listed, selected_scope) refl
