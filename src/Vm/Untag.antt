-- ===== src/Vm/Untag.antt =====
-- What a tag removed from a machine's configuration changes.
use go_proxmox.Prelude.{
  ◌≡◌, refl, ◌≢◌, true, not, ◌&&◌, ◌||◌, some, List, [], ◌∷◌, ◌++◌, arith, any, All, ap, sym, ◌∙◌,
  Option-cases, Bool-cases, inl, inr, length, take, subst, append_assoc,
}
use go_proxmox.Prelude.Text.{Text, codes, is_empty, text_eq, join}
use go_proxmox.Prelude.Text.Laws.{Lacks, text-cases}
use go_proxmox.Vm.{
  VirtualMachineConfig, tag_seperator, ensure_split, has_tag, untagged, remove_from, with_slice,
}
use go_proxmox.Vm.Tags.{IsCoherent, tags_of, tags_of_lem, has_tag-any}
use go_proxmox.Vm.Remove.{Without, remove_from_once, last_of, text_ne, take-length}

-- No tag stands twice.
abbrev pub IsDistinct : List Text → Type 0
IsDistinct [] = Unit
IsDistinct (t ∷ ts) = Without t ts × IsDistinct ts

-- Where a tag stands.
pub record Found (v : Text) (l : List Text) : Type 0 where
  pub before : List Text
  pub after : List Text
  pub parts : l ≡ before ++ (v ∷ after)
  pub not_before : Without v before
  pub not_after : Without v after

pub find : (v : Text) (l : List Text) → any (λ t. text_eq t v) l ≡ true → IsDistinct l → Found v l
find v [] h d = cc
find v (t ∷ l) h d = elim (text-cases t v) [
  | inl (e, s) ↦ record {
    before = [];
    after = l;
    parts = ap (λ x. x ∷ l) s;
    not_before = tt;
    not_after = subst (λ x. Without x l) s d.0;
  }
  | inr (e, n) ↦
      let f = find v l (ground arith) d.1 in
      record {
        before = t ∷ f.before;
        after = f.after;
        parts = ap (λ k. t ∷ k) f.parts;
        not_before = (n, f.not_before);
        not_after = f.not_after;
      }
]

-- Of tags that are not `v`, one that is found is not `v`.
any_absent :
    (v x : Text) (l : List Text)
    → Without v l
    → any (λ t. text_eq t x) l ≡ (any (λ t. text_eq t x) l && not (text_eq v x))
any_absent v x [] h = refl
any_absent v x (t ∷ l) h = elim (text-cases v x) [
  | inl (e, s) ↦ ground (arith, any_absent v x l h.1, text_ne t x (λ q. h.0 (q ∙ sym s)), e)
  | inr (e, n) ↦ ground (arith, any_absent v x l h.1, e)
]

any-append :
    (x : Text) (l m : List Text)
    → any (λ t. text_eq t x) (l ++ m) ≡ (any (λ t. text_eq t x) l || any (λ t. text_eq t x) m)
any-append x [] m = refl
any-append x (t ∷ l) m = ground (arith, any-append x l m)

any_but :
    (v x : Text) (pre post : List Text)
    → any (λ t. text_eq t x) pre ≡ (any (λ t. text_eq t x) pre && not (text_eq v x))
    → any (λ t. text_eq t x) post ≡ (any (λ t. text_eq t x) post && not (text_eq v x))
    → any (λ t. text_eq t x) (pre ++ post)
      ≡ (any (λ t. text_eq t x) (pre ++ (v ∷ post)) && not (text_eq v x))
any_but v x pre post a b =
    rw (any-append x pre post, any-append x pre (v ∷ post)) (ground (arith, a, b))

pub any_others :
    (v x : Text) (pre post : List Text)
    → Without v pre
    → Without v post
    → any (λ t. text_eq t x) (pre ++ post)
      ≡ (any (λ t. text_eq t x) (pre ++ (v ∷ post)) && not (text_eq v x))
any_others v x pre post hp hq =
    any_but v x pre post (any_absent v x pre hp) (any_absent v x post hq)

pub All-parts :
    (v : Text) (pre post : List Text)
    → All (Lacks tag_seperator) (pre ++ (v ∷ post))
    → All (Lacks tag_seperator) (pre ++ post)
All-parts v [] post h = h.1
All-parts v (p ∷ pre) post h = (h.0, All-parts v pre post h.1)

untagged-ensure_split :
    (c : VirtualMachineConfig) (v : Text) → untagged (ensure_split c) v ≡ untagged c v
unfolding untagged ensure_split
untagged-ensure_split c v = elim (Option-cases c.tags_slice) [ inl e ↦ rw e | inr (l, e) ↦ rw e ]

pub untagged-has_tag :
    (c : VirtualMachineConfig) (x v : Text) → untagged (has_tag c x).1 v ≡ untagged c v
unfolding has_tag
untagged-has_tag c x v = elim (Bool-cases (is_empty c.tags)) [
  | inl e ↦ rw e
  | inr e ↦ rw e (untagged-ensure_split c v)
]

abbrev pub without_tag : VirtualMachineConfig → List Text → VirtualMachineConfig
without_tag c l = record c { tags_slice = some l; tags = join (codes ";") l }

pub untagged_lem :
    (c : VirtualMachineConfig) (v : Text) (f : Found v (tags_of c))
    → untagged c v ≡ some (without_tag c (f.before ++ f.after))
unfolding untagged
untagged_lem c v f =
    ap (λ l. with_slice c (remove_from (length l) 0 v l (length l))) f.parts
    ∙ ap (with_slice c) (remove_from_once v f.before f.after f.not_before f.not_after)
    ∙ ap (λ l. some (without_tag c l))
        (ap (take (length (f.before ++ f.after)))
            (sym (append_assoc f.before f.after (last_of v f.after)))
          ∙ take-length (f.before ++ f.after) (last_of v f.after))

pub kept_tags : (c : VirtualMachineConfig) (l : List Text) → tags_of (without_tag c l) ≡ l
unfolding ensure_split
kept_tags c l = refl

-- After RemoveTag has removed a tag from a configuration whose slice and text of tags agree and
-- hold no tag twice, they agree again, and HasTag finds the tags that it found before, without
-- that one; the empty tag aside. The loop does not panic.
pub untagged-IsCoherent :
    (c : VirtualMachineConfig) (value : Text)
    → IsCoherent c
    → IsDistinct (tags_of c)
    → value ≢ []
    → (has_tag c value).0 ≡ true
    → (c' : VirtualMachineConfig) × (untagged (has_tag c value).1 value ≡ some c')
      × IsCoherent c'
      × ((x : Text) → x ≢ [] → (has_tag c' x).0 ≡ ((has_tag c x).0 && not (text_eq value x)))
untagged-IsCoherent c value h d n there =
    let f = find value (tags_of c) (sym (has_tag-any c value h n) ∙ there) d in
    let l = f.before ++ f.after in
    let c' = without_tag c l in
    let coherent : IsCoherent c' = (
      refl,
      All-parts value f.before f.after
          (subst (All (Lacks tag_seperator)) f.parts (tags_of_lem c h).1),
    ) in
    (
      c',
      untagged-has_tag c value value ∙ untagged_lem c value f,
      coherent,
      λ x m.
          has_tag-any c' x coherent m
          ∙ ap (any (λ t. text_eq t x)) (kept_tags c l)
          ∙ any_others value x f.before f.after f.not_before f.not_after
          ∙ ap (λ k. any (λ t. text_eq t x) k && not (text_eq value x)) (sym f.parts)
          ∙ ap (λ b. b && not (text_eq value x)) (sym (has_tag-any c x h m)),
    )
