-- ===== src/Vm/TagSet.antt =====
-- The tags of a configuration as a set.
use go_proxmox.Prelude.{
  ◌≡◌, ◌≢◌, Bool, true, false, not, ◌&&◌, ◌||◌, none, some, List, [], ◌∷◌, ◌++◌, arith, any, ap,
  sym, ◌∙◌, Option-cases, Bool-cases, inl, inr, subst, All-append, Option,
}
use go_proxmox.Prelude.Text.{Text, text_eq, is_empty}
use go_proxmox.Prelude.Text.Laws.{Lacks, text-cases}
use go_proxmox.Vm.{VirtualMachineConfig, tag_seperator, ensure_split, has_tag, tagged, untagged}
use go_proxmox.Vm.Tags.{
  IsCoherent, tags_of, tags_of_lem, has_tag-any, tagged-IsCoherent, tagged-has_tag, tagged-tags,
}
use go_proxmox.Vm.Remove.{Without}
use go_proxmox.Vm.Untag.{
  IsDistinct, Found, find, untagged_lem, untagged-has_tag, without_tag, kept_tags,
  untagged-IsCoherent,
}

-- The tags are a set, of which `holds` is the test: the slice and the text agree, no tag stands
-- twice, and `HasTag` answers by the test; the empty tag aside.
pub record IsSetOf (holds : Text → Bool) (c : VirtualMachineConfig) : Type 0 where
  pub coherent : IsCoherent c
  pub distinct : IsDistinct (tags_of c)
  pub tests : (x : Text) → x ≢ [] → (has_tag c x).0 ≡ holds x

-- Two configurations with the same text and the same slice of tags.
pub same-IsSetOf :
    (holds : Text → Bool) (c d : VirtualMachineConfig)
    → IsCoherent d
    → tags_of d ≡ tags_of c
    → IsSetOf holds c
    → IsSetOf holds d
same-IsSetOf holds c d coherent same h = record {
  coherent = coherent;
  distinct = subst IsDistinct (sym same) h.distinct;
  tests = λ x n.
      has_tag-any d x coherent n
      ∙ ap (any (λ t. text_eq t x)) same
      ∙ sym (has_tag-any c x h.coherent n)
      ∙ h.tests x n;
}

pub holds-IsSetOf :
    (holds other : Text → Bool) (c : VirtualMachineConfig)
    → ((x : Text) → holds x ≡ other x)
    → IsSetOf holds c
    → IsSetOf other c
holds-IsSetOf holds other c same h = record {
  coherent = h.coherent;
  distinct = h.distinct;
  tests = λ x n. h.tests x n ∙ same x;
}

ensure_split-IsCoherent : (c : VirtualMachineConfig) → IsCoherent c → IsCoherent (ensure_split c)
unfolding ensure_split
ensure_split-IsCoherent c h = elim (Option-cases c.tags_slice) [
  | inl e ↦ let q = tags_of_lem c h in rw e (rw e at q)
  | inr (l, e) ↦ rw e (rw e at h)
]

ensure_split-tags : (c : VirtualMachineConfig) → tags_of (ensure_split c) ≡ tags_of c
unfolding ensure_split
ensure_split-tags c = elim (Option-cases c.tags_slice) [ inl e ↦ rw e | inr (l, e) ↦ rw e ]

-- Asking for a tag leaves the set as it is.
pub asked-IsSetOf :
    (holds : Text → Bool) (c : VirtualMachineConfig) (v : Text)
    → IsSetOf holds c
    → IsSetOf holds (has_tag c v).1
unfolding has_tag
asked-IsSetOf holds c v h = elim (Bool-cases (is_empty c.tags)) [
  | inl e ↦ rw e h
  | inr e ↦ rw e (
      same-IsSetOf holds c (ensure_split c) (ensure_split-IsCoherent c h.coherent)
        (ensure_split-tags c) h)
]

append-Without :
    (t : Text) (l : List Text) (v : Text) → v ≢ t → Without t l → Without t (l ++ (v ∷ []))
append-Without t l v n h = All-append (λ x. x ≢ t) l (v ∷ []) h (n, tt)

not_same : (t v : Text) → text_eq t v ≡ false → v ≢ t
not_same t v h = elim (text-cases t v) [ inl (e, _) ↦ cc | inr (_, n) ↦ λ q. n (sym q) ]

append-IsDistinct :
    (l : List Text) (v : Text)
    → any (λ t. text_eq t v) l ≡ false
    → IsDistinct l
    → IsDistinct (l ++ (v ∷ []))
append-IsDistinct [] v h d = (tt, tt)
append-IsDistinct (t ∷ l) v h d = (
  append-Without t l v (not_same t v (ground arith)) d.0,
  append-IsDistinct l v (ground arith) d.1,
)

pub tagged-IsSetOf :
    (holds : Text → Bool) (c : VirtualMachineConfig) (v : Text)
    → IsSetOf holds c
    → Lacks tag_seperator v
    → v ≢ []
    → holds v ≡ false
    → IsSetOf (λ x. holds x || text_eq v x) (tagged (has_tag c v).1 v)
tagged-IsSetOf holds c v h lacks n absent =
    let q = tagged-IsCoherent c v h.coherent lacks in
    record {
      coherent = q.0;
      distinct =
          rw (tagged-has_tag c v v, tagged-tags c v)
            (append-IsDistinct (tags_of c) v
              (sym (has_tag-any c v h.coherent n) ∙ h.tests v n ∙ absent) h.distinct);
      tests = λ x m. q.1 x m ∙ ap (λ b. b || text_eq v x) (h.tests x m);
    }

parts-Without :
    (p v : Text) (pre post : List Text) → Without p (pre ++ (v ∷ post)) → Without p (pre ++ post)
parts-Without p v [] post h = h.1
parts-Without p v (q ∷ pre) post h = (h.0, parts-Without p v pre post h.1)

parts-IsDistinct :
    (v : Text) (pre post : List Text) → IsDistinct (pre ++ (v ∷ post)) → IsDistinct (pre ++ post)
parts-IsDistinct v [] post h = h.1
parts-IsDistinct v (p ∷ pre) post h =
    (parts-Without p v pre post h.0, parts-IsDistinct v pre post h.1)

abbrev value_or : VirtualMachineConfig → Option VirtualMachineConfig → VirtualMachineConfig
value_or c none = c
value_or c (some d) = d

untagged-IsDistinct :
    (c c' : VirtualMachineConfig) (v : Text) (f : Found v (tags_of c))
    → IsDistinct (tags_of c)
    → untagged (has_tag c v).1 v ≡ some c'
    → IsDistinct (tags_of c')
untagged-IsDistinct c c' v f d e =
    let l = f.before ++ f.after in
    let same : without_tag c l ≡ c' =
      ap (value_or c) (sym (untagged-has_tag c v v ∙ untagged_lem c v f) ∙ e) in
    subst (λ k. IsDistinct (tags_of k)) same
      (subst IsDistinct (sym (kept_tags c l))
        (parts-IsDistinct v f.before f.after (subst IsDistinct f.parts d)))

pub untagged-IsSetOf :
    (holds : Text → Bool) (c : VirtualMachineConfig) (v : Text)
    → IsSetOf holds c
    → v ≢ []
    → holds v ≡ true
    → (c' : VirtualMachineConfig) × (untagged (has_tag c v).1 v ≡ some c')
      × IsSetOf (λ x. holds x && not (text_eq v x)) c'
untagged-IsSetOf holds c v h n there =
    let here = h.tests v n ∙ there in
    let (c', e, coherent, tests) = untagged-IsCoherent c v h.coherent h.distinct n here in
    (
      c',
      e,
      record {
        coherent = coherent;
        distinct =
            untagged-IsDistinct c c' v
              (find v (tags_of c) (sym (has_tag-any c v h.coherent n) ∙ here) h.distinct) h.distinct
              e;
        tests = λ x m. tests x m ∙ ap (λ b. b && not (text_eq v x)) (h.tests x m);
      },
    )
