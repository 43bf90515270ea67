-- ===== src/Tasks/Exit.antt =====
-- When a task's exit status counts as a success.
use go_proxmox.Prelude.{
  ◌≤◌, ◌≡◌, refl, ◌≢◌, ◌↔◌, ◌⊎◌, inl, inr, true, [], ◌∷◌, ◌++◌, arith, All, all, Option-cases,
  ||-eq-true_iff, ap, sym, ◌∙◌,
}
use go_proxmox.Prelude.Text.{Text, codes, drop_prefix, is_digit}
use go_proxmox.Prelude.Text.Laws.{text_eq_iff, drop_prefix-append, drop_prefix-eq-some}
use go_proxmox.Tasks.{task_exit_succeeded, is_task_warnings, all_digits, digits_after}

abbrev pub IsDigits : Text → Type 0
IsDigits = All (λ c. (b'0' ≤ c) × (c ≤ b'9'))

all-is_digit_sound : (s : Text) → all is_digit s ≡ true → IsDigits s
all-is_digit_sound [] h = tt
all-is_digit_sound (c ∷ s) h = ground (arith, all-is_digit_sound s)

all-is_digit_complete : (s : Text) → IsDigits s → all is_digit s ≡ true
all-is_digit_complete [] h = refl
all-is_digit_complete (c ∷ s) h = ground (arith, all-is_digit_complete s h.1)

-- "WARNINGS: " and a number.
pub record IsWarnings (s : Text) : Type 0 where
  pub count : Text
  pub some_digit : count ≢ []
  pub digits : IsDigits count
  pub text : s ≡ codes "WARNINGS: " ++ count

all_digits_iff : (n : Text) → (all_digits n ≡ true) ↔ ((n ≢ []) × IsDigits n)
all_digits_iff [] = (λ h. cc, λ h. absurd (h.0 refl))
all_digits_iff (c ∷ s) =
    (λ h. ((λ e. cc), all-is_digit_sound (c ∷ s) h), λ h. all-is_digit_complete (c ∷ s) h.1)

is_task_warnings_sound : (s : Text) → is_task_warnings s ≡ true → IsWarnings s
unfolding is_task_warnings
is_task_warnings_sound s h = elim (Option-cases (drop_prefix s (codes "WARNINGS: "))) [
  | inl e ↦ cc (ap digits_after (sym e) ∙ h)
  | inr (n, e) ↦
      let good = (all_digits_iff n).0 (ap digits_after (sym e) ∙ h) in
      record {
        count = n;
        some_digit = good.0;
        digits = good.1;
        text = drop_prefix-eq-some s (codes "WARNINGS: ") n e;
      }
]

is_task_warnings_complete : (s : Text) → IsWarnings s → is_task_warnings s ≡ true
unfolding is_task_warnings
is_task_warnings_complete s w =
    ap digits_after (
      ap (λ x. drop_prefix x (codes "WARNINGS: ")) w.text
      ∙ drop_prefix-append (codes "WARNINGS: ") w.count)
    ∙ (all_digits_iff w.count).1 (w.some_digit, w.digits)

-- An exit status counts as a success exactly if it is "OK", or "WARNINGS: " and then one or more
-- decimal digits and nothing else.
pub task_exit_succeeded_iff :
    (s : Text) → (task_exit_succeeded s ≡ true) ↔ ((s ≡ codes "OK") ⊎ IsWarnings s)
unfolding task_exit_succeeded
task_exit_succeeded_iff s = (
  λ h. elim ((||-eq-true_iff _ _).0 h) [
    | inl e ↦ inl ((text_eq_iff s (codes "OK")).0 e)
    | inr w ↦ inr (is_task_warnings_sound s w)
  ],
  λ h. elim h [
    | inl e ↦ (||-eq-true_iff _ _).1 (inl ((text_eq_iff s (codes "OK")).1 e))
    | inr w ↦ (||-eq-true_iff _ _).1 (inr (is_task_warnings_complete s w))
  ],
)
