-- ===== src/Devices/Key.antt =====
-- What `indexedDeviceKey` accepts.
use go_proxmox.Prelude.{
  ℕ, ◌≡◌, refl, ◌≢◌, ◌↔◌, true, false, some, [], ◌∷◌, ◌++◌, arith, All, all, ap, subst, ◌∙◌,
  Bool-cases, inl, inr, append_assoc, append-nil, All-append,
}
use go_proxmox.Prelude.Text.{Text, is_digit}
use go_proxmox.Devices.{key_from, indexed_device_key}

abbrev pub IsDigits : Text → Type 0
IsDigits = All (λ c. is_digit c ≡ true)

abbrev pub HasNoDigit : Text → Type 0
HasNoDigit = All (λ c. is_digit c ≡ false)

-- A name without digits, and a number behind it.
pub record IsIndexed (k prefix : Text) : Type 0 where
  pub number : Text
  pub parts : k ≡ prefix ++ number
  pub some_prefix : prefix ≢ []
  pub some_number : number ≢ []
  pub name : HasNoDigit prefix
  pub digits : IsDigits number

all_digits : (s : Text) → (all is_digit s ≡ true) ↔ IsDigits s
all_digits [] = (λ h. tt, λ h. refl)
all_digits (c ∷ s) = ground (arith, all_digits s)

key_from_digits :
    (before : Text) (c : ℕ) (s : Text)
    → before ≢ []
    → IsDigits (c ∷ s)
    → key_from before (c ∷ s) ≡ some before
unfolding key_from
key_from_digits [] c s n h = absurd (n refl)
key_from_digits (b ∷ before) c s n h = rw (h.0, (all_digits s).1 h.1) refl

-- The loop passes over a name.
key_from_name :
    (before name rest : Text)
    → HasNoDigit name
    → key_from before (name ++ rest) ≡ key_from (before ++ name) rest
unfolding key_from
key_from_name before [] rest h = rw (append-nil before) refl
key_from_name before (c ∷ name) rest h = rw (h.0) (
    key_from_name (before ++ (c ∷ [])) name rest h.1
    ∙ ap (λ b. key_from b rest) (append_assoc before (c ∷ []) name))

key_from_complete : (k p : Text) → IsIndexed k p → indexed_device_key k ≡ some p
unfolding indexed_device_key
key_from_complete k p i = go i.number i.parts i.some_number i.digits
  where
    go : (n : Text) → k ≡ p ++ n → n ≢ [] → IsDigits n → key_from [] k ≡ some p
    go [] e some_number h = absurd (some_number refl)
    go (c ∷ n) e some_number h =
        rw e (key_from_name [] p (c ∷ n) i.name ∙ key_from_digits p c n i.some_prefix h)

at_digit :
    (before : Text) (c : ℕ) (s p : Text)
    → HasNoDigit before
    → is_digit c ≡ true
    → key_from before (c ∷ s) ≡ some p
    → IsIndexed (before ++ (c ∷ s)) p
unfolding key_from
at_digit [] c s p h x e = cc (rw x at e)
at_digit (b ∷ before) c s p h x e = elim (Bool-cases (all is_digit s)) [
  | inl ds ↦
      let same : b ∷ before ≡ p = ground arith in
      subst (IsIndexed ((b ∷ before) ++ (c ∷ s))) same (record {
        number = c ∷ s;
        parts = refl;
        some_prefix = λ q. cc;
        some_number = λ q. cc;
        name = h;
        digits = (x, (all_digits s).0 ds);
      })
  | inr y ↦ cc (rw (x, y) at e)
]

key_from_sound :
    (before s p : Text) → HasNoDigit before → key_from before s ≡ some p → IsIndexed (before ++ s) p
unfolding key_from
key_from_sound before [] p h e = cc
key_from_sound before (c ∷ s) p h e = elim (Bool-cases (is_digit c)) [
  | inr x ↦
      subst (λ k. IsIndexed k p) (append_assoc before (c ∷ []) s)
        (key_from_sound (before ++ (c ∷ [])) s p (All-append _ before (c ∷ []) h (x, tt))
          (rw x at e))
  | inl x ↦ at_digit before c s p h x e
]

-- A key is that of an indexed device exactly if it is a name without digits, not empty, with one or
-- more digits behind it and nothing else; the prefix is that name.
pub indexed_device_key_iff : (k p : Text) → (indexed_device_key k ≡ some p) ↔ IsIndexed k p
unfolding indexed_device_key
indexed_device_key_iff k p = (key_from_sound [] k p tt, key_from_complete k p)
