-- ===== src/Vm/Tags.antt =====
-- What a tag added to a machine's configuration changes.
use go_proxmox.Prelude.{
  ◌≡◌, refl, ◌≢◌, true, false, ◌||◌, none, some, List, [], ◌∷◌, ◌++◌, arith, any, All, ap, sym, ◌∙◌,
  Option-cases, Bool-cases, inl, inr, All-append,
}
use go_proxmox.Prelude.Text.{Text, codes, is_empty, text_eq, join}
use go_proxmox.Prelude.Text.Laws.{Lacks, join-split, split-Lacks}
use go_proxmox.Vm.{VirtualMachineConfig, tag_seperator, slice_of, ensure_split, has_tag, tagged}

-- Where the slice of tags is there, the text of tags is that slice's, joined.
abbrev pub IsCoherent : VirtualMachineConfig → Type 0
IsCoherent c = elim c.tags_slice [
  | none ↦ Unit
  | some l ↦ (c.tags ≡ join (codes ";") l) × All (Lacks tag_seperator) l
]

-- The tags of a configuration.
abbrev pub tags_of : VirtualMachineConfig → List Text
tags_of c = slice_of (ensure_split c)

pub tags_of_lem :
    (c : VirtualMachineConfig)
    → IsCoherent c
    → (c.tags ≡ join (codes ";") (tags_of c)) × All (Lacks tag_seperator) (tags_of c)
unfolding ensure_split
tags_of_lem c h = elim (Option-cases c.tags_slice) [
  | inl e ↦ rw e (sym (join-split tag_seperator c.tags), split-Lacks tag_seperator c.tags)
  | inr (l, e) ↦ rw e (rw e at h)
]

any-join_nil :
    (l : List Text) (x : Text) → join (codes ";") l ≡ [] → x ≢ [] → any (λ t. text_eq t x) l ≡ false
unfolding join text_eq
any-join_nil [] x h n = refl
any-join_nil ([] ∷ []) [] h n = absurd (n refl)
any-join_nil ([] ∷ []) (y ∷ x) h n = refl
any-join_nil ((c ∷ p) ∷ []) x h n = cc
any-join_nil ([] ∷ q ∷ ps) x h n = cc
any-join_nil ((c ∷ p) ∷ q ∷ ps) x h n = cc

is_empty_nil : (t : Text) → is_empty t ≡ true → t ≡ []
is_empty_nil [] h = refl
is_empty_nil (c ∷ t) h = cc

-- `HasTag` looks for a tag among those of the configuration.
pub has_tag-any :
    (c : VirtualMachineConfig) (x : Text)
    → IsCoherent c
    → x ≢ []
    → (has_tag c x).0 ≡ any (λ t. text_eq t x) (tags_of c)
unfolding has_tag
has_tag-any c x h n = elim (Bool-cases (is_empty c.tags)) [
  | inl e ↦
      rw e (sym (any-join_nil (tags_of c) x (sym (tags_of_lem c h).0 ∙ is_empty_nil c.tags e) n))
  | inr e ↦ rw e
]

tagged-ensure_split : (c : VirtualMachineConfig) (v : Text) → tagged (ensure_split c) v ≡ tagged c v
unfolding tagged ensure_split
tagged-ensure_split c v = elim (Option-cases c.tags_slice) [ inl e ↦ rw e | inr (l, e) ↦ rw e ]

pub tagged-has_tag : (c : VirtualMachineConfig) (x v : Text) → tagged (has_tag c x).1 v ≡ tagged c v
unfolding has_tag
tagged-has_tag c x v = elim (Bool-cases (is_empty c.tags)) [
  | inl e ↦ rw e
  | inr e ↦ rw e (tagged-ensure_split c v)
]

any_append :
    (x v : Text) (l : List Text)
    → any (λ t. text_eq t x) (l ++ (v ∷ [])) ≡ (any (λ t. text_eq t x) l || text_eq v x)
any_append x v [] = ground arith
any_append x v (t ∷ l) = ground (arith, any_append x v l)

pub tagged_agree :
    (c : VirtualMachineConfig) (value : Text)
    → IsCoherent c
    → Lacks tag_seperator value
    → IsCoherent (tagged c value)
unfolding tagged
tagged_agree c value h lacks =
    (refl, All-append _ (tags_of c) (value ∷ []) (tags_of_lem c h).1 (lacks, tt))

pub tagged-tags :
    (c : VirtualMachineConfig) (value : Text) → tags_of (tagged c value) ≡ tags_of c ++ (value ∷ [])
unfolding tagged ensure_split
tagged-tags c value = refl

-- After AddTag has changed a configuration whose slice and text of tags agree, by a tag without
-- the separator, they agree again, and HasTag finds that tag and those that it found before, and
-- no others; the empty tag aside.
pub tagged-IsCoherent :
    (c : VirtualMachineConfig) (value : Text)
    → IsCoherent c
    → Lacks tag_seperator value
    → IsCoherent (tagged (has_tag c value).1 value)
      × ((x : Text)
          → x ≢ []
          → (has_tag (tagged (has_tag c value).1 value) x).0 ≡ ((has_tag c x).0 || text_eq value x))
tagged-IsCoherent c value h lacks = rw (tagged-has_tag c value value) (
  tagged_agree c value h lacks,
  λ x n.
      has_tag-any (tagged c value) x (tagged_agree c value h lacks) n
      ∙ ap (any (λ t. text_eq t x)) (tagged-tags c value)
      ∙ any_append x value (tags_of c)
      ∙ ap (λ b. b || text_eq value x) (sym (has_tag-any c x h n)),
)
