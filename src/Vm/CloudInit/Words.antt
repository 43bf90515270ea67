-- ===== src/Vm/CloudInit/Words.antt =====
-- The tests of deleteCloudInitISO, said without its functions.
use go_proxmox.Prelude.{
  ℕ, Bool, ◌≡◌, ◌≢◌, ◌⊎◌, refl, inl, inr, true, false, ◌||◌, Option, none, some, List, [], ◌∷◌,
  ◌++◌, All, arith, any, not, ◌&&◌, Bool-cases,
}
use go_proxmox.Prelude.Text.{Text, codes, is_empty, text_eq, has_prefix, contains, split}
use go_proxmox.Prelude.Text.Laws.{text_eq_iff, has_prefix-append}
use go_proxmox.Prelude.Int.{pos, eq_ℤ, eq_ℤ_iff}
use go_proxmox.Vm.{VirtualMachineConfig, has_tag, make_tag, ensure_split, split_tags}
use go_proxmox.Vm.CloudInit.{Storage, has_volume}

-- The text does not stand anywhere in another.
abbrev pub IsNowhere : Text → Text → Type 0
IsNowhere sub t = (pre post : Text) → t ≢ pre ++ (sub ++ post)

-- The configuration's tags, in its slice or else in its text, do not have the cloud-init tag; or the
-- text is empty.
abbrev pub HasNoTag : Option (List Text) → Text → Type 0
HasNoTag (some l) tags = (tags ≡ []) ⊎ All (λ t. t ≢ codes "go-proxmox+cloud-init") l
HasNoTag none tags = (tags ≡ []) ⊎ All (λ t. t ≢ codes "go-proxmox+cloud-init") (split b';' tags)

abbrev pub IsUntagged : Option VirtualMachineConfig → Type 0
IsUntagged none = Unit
IsUntagged (some c) = HasNoTag c.tags_slice c.tags

pub is_empty_sound : (t : Text) → is_empty t ≡ true → t ≡ []
is_empty_sound [] h = refl
is_empty_sound (c ∷ t) h = cc

pub is_empty-append : (a : Text) (c : ℕ) (b : Text) → is_empty (a ++ (c ∷ b)) ≡ false
is_empty-append [] c b = refl
is_empty-append (d ∷ a) c b = refl

some-inj : (t v : Text) → Option.some t ≡ Option.some v → t ≡ v
some-inj t v e = cc

starts-contains : (s sub : Text) → has_prefix s sub ≡ true → contains s sub ≡ true
unfolding contains
starts-contains [] sub h = h
starts-contains (a ∷ s) sub h = rw h refl

or_true : (a b : Bool) → b ≡ true → (a || b) ≡ true
or_true a b h = ground (arith, h)

contains-inside : (pre sub post : Text) → contains (pre ++ (sub ++ post)) sub ≡ true
unfolding contains
contains-inside [] sub post = starts-contains (sub ++ post) sub (has_prefix-append sub post)
contains-inside (a ∷ pre) sub post = or_true _ _ (contains-inside pre sub post)

not_false : (b : Bool) → b ≡ false → b ≢ true
not_false b h e = cc

second_false : (a b : Bool) → (not a && b) ≡ false → a ≡ false → b ≡ false
second_false a b h e = ground (arith, h, e)

differ : (t v : Text) → text_eq t v ≡ false → t ≢ v
differ t v h e = not_false (text_eq t v) h ((text_eq_iff t v).1 e)

absent_word : (sub t : Text) → contains t sub ≡ false → IsNowhere sub t
absent_word sub t h pre post q = not_false (contains t sub) h (rw q (contains-inside pre sub post))

pub not_candidate :
    (x : Storage)
    → (not (eq_ℤ x.enabled (pos 0)) && contains x.content (codes "iso")) ≡ false
    → (x.enabled ≡ pos 0) ⊎ IsNowhere (codes "iso") x.content
not_candidate x h = elim (Bool-cases (eq_ℤ x.enabled (pos 0))) [
  | inl e ↦ inl ((eq_ℤ_iff x.enabled (pos 0)).0 e)
  | inr e ↦ inr (absent_word (codes "iso") x.content (second_false _ _ h e))
]

or_false : (a b : Bool) → (a || b) ≡ false → (a ≡ false) × (b ≡ false)
or_false a b h = ground (arith, h)

pub All-volume :
    (content : List (Option Text)) (v : Text)
    → has_volume content v ≡ false
    → All (λ o. o ≢ some v) content
unfolding has_volume
All-volume [] v h = tt
All-volume (none ∷ l) v h = ((λ e. cc), All-volume l v h)
All-volume (some t ∷ l) v h =
    let (first, rest) = or_false (text_eq t v) _ h in
    ((λ e. differ t v first (some-inj t v e)), All-volume l v rest)

All-tag : (l : List Text) (v : Text) → any (λ t. text_eq t v) l ≡ false → All (λ t. t ≢ v) l
All-tag [] v h = tt
All-tag (t ∷ l) v h =
    let (first, rest) = or_false (text_eq t v) _ h in (differ t v first, All-tag l v rest)

no_tag :
    (o : Option (List Text)) (tags boot : Text)
    → (has_tag
        (record { tags = tags; tags_slice = o; boot = boot })
        (make_tag (codes "cloud-init"))).0
      ≡ false
    → HasNoTag o tags
unfolding has_tag make_tag ensure_split split_tags
no_tag none [] boot h = inl refl
no_tag (some l) [] boot h = inl refl
no_tag none (c ∷ t) boot h = inr (All-tag (split b';' (c ∷ t)) (codes "go-proxmox+cloud-init") h)
no_tag (some l) (c ∷ t) boot h = inr (All-tag l (codes "go-proxmox+cloud-init") h)

pub has_tag-HasNoTag :
    (c : VirtualMachineConfig)
    → (has_tag c (make_tag (codes "cloud-init"))).0 ≡ false
    → HasNoTag c.tags_slice c.tags
has_tag-HasNoTag c h = no_tag c.tags_slice c.tags c.boot h
