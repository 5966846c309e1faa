-- ===== src/Admin/Text/Laws.antt =====
-- Lemmas about `trim`.
-- Code: apps/admin-ui/src/App.tsx

use text.Mathlib.Text.{◌==◌ as str_eq}
use text.Mathlib.TextEquality.{eq_iff}
use pgapp.Common.{◌≡◌, refl, ap, ◌∙◌, Bool-cases, inl, inr, String, false, ◌&&◌, arith}
use pgapp.Admin.Text.{is_space, trim_start, trim_end, trim}

abbrev pub StartsDark : String → Type 0
StartsDark String.[] = Unit
StartsDark (String.◌∷◌ c s) = is_space c ≡ false

-- Neither the first nor the last character is white space.
abbrev pub EndsDark : String → Type 0
EndsDark String.[] = Unit
EndsDark (String.◌∷◌ c s) = (s ≡ "" → is_space c ≡ false) × EndsDark s

trim_start-StartsDark : (s : String) → StartsDark (trim_start s)
unfolding trim_start
trim_start-StartsDark String.[] = tt
trim_start-StartsDark (String.◌∷◌ c s) = elim (Bool-cases (is_space c)) [
  | inl e ↦ rw e (trim_start-StartsDark s)
  | inr e ↦ rw e e
]

trim_end-EndsDark : (s : String) → EndsDark (trim_end s)
unfolding trim_end
trim_end-EndsDark String.[] = tt
trim_end-EndsDark (String.◌∷◌ c s) = elim (Bool-cases (is_space c)) [
  | inl e ↦ elim (Bool-cases (str_eq (trim_end s) "")) [
    | inl f ↦ rw (e, f) tt
    | inr f ↦
        rw (e, f)
          ((λ q. absurd (ground (arith, f, q, eq_iff (trim_end s) ""))), trim_end-EndsDark s)
  ]
  | inr e ↦ rw e ((λ _. e), trim_end-EndsDark s)
]

trim_end-StartsDark : (s : String) → StartsDark s → StartsDark (trim_end s)
unfolding trim_end
trim_end-StartsDark String.[] h = tt
trim_end-StartsDark (String.◌∷◌ c s) h = rw h h

pub trim-Dark : (s : String) → StartsDark (trim s) × EndsDark (trim s)
unfolding trim
trim-Dark s =
    (trim_end-StartsDark (trim_start s) (trim_start-StartsDark s), trim_end-EndsDark (trim_start s))

-- A text that is dark at both ends stays.
trim_start-same : (s : String) → StartsDark s → trim_start s ≡ s
unfolding trim_start
trim_start-same String.[] h = refl
trim_start-same (String.◌∷◌ c s) h = rw h refl

trim_end-same : (s : String) → EndsDark s → trim_end s ≡ s
unfolding trim_end
trim_end-same String.[] h = refl
trim_end-same (String.◌∷◌ c s) (h, k) =
    let same = trim_end-same s k in
    elim (Bool-cases (is_space c && str_eq s "")) [
      | inl e ↦ absurd (ground (arith, h, e, eq_iff s ""))
      | inr e ↦ rw (same, e) refl
    ]

pub trim-same : (s : String) → StartsDark s → EndsDark s → trim s ≡ s
unfolding trim
trim-same s h k = ap trim_end (trim_start-same s h) ∙ trim_end-same s k
