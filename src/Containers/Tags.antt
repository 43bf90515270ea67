-- ===== src/Containers/Tags.antt =====
-- A container's tags beside a set of tags.
use Prim.Native.Nat.{suc}
use go_proxmox.Prelude.{
  ℕ, ◌≤◌, ◌++◌, ◌≡◌, refl, ◌≢◌, Bool, true, false, not, ◌&&◌, ◌||◌, some, List, [], ◌∷◌, arith,
  Bool-cases, All, inl, inr, if◌then◌else◌, ap, sym, ◌∙◌, Option-cases,
}
use go_proxmox.Prelude.Text.{Text, codes, text_eq, is_empty}
use go_proxmox.Prelude.Text.Laws.{Lacks, text-cases}
use go_proxmox.Prelude.Map.{Map}
use go_proxmox.Errors.{sentinel, noop, Result, ok, err}
use go_proxmox.Json.{Json}
use go_proxmox.World.{Env}
use go_proxmox.Client.{Action, State, ◌>>=◌, pure}
use go_proxmox.Client.Ends.{Ends, Ends-bind, Ends-try, Ends-lift}
use go_proxmox.Session.Req.{put}
use go_proxmox.Tasks.Ping.{IsAccepting, IsClock, Later, req_accepted-ends}
use go_proxmox.Vm.{
  to_members, from_options, task_of, VirtualMachineConfig, tag_seperator, has_tag, tagged,
  ensure_split, split_tags,
}
use go_proxmox.Vm.Tags.{tags_of}
use go_proxmox.Vm.TagSet.{
  IsSetOf, same-IsSetOf, holds-IsSetOf, asked-IsSetOf, tagged-IsSetOf, untagged-IsSetOf,
}
use go_proxmox.Containers.{
  container_path, Container, ContainerConfig, as_vm, of_vm, with_tags, WithContainer,
  container_config, send_container_tags, add_container_tag, remove_container_tag,
}

-- An edit of a set of tags.
pub data Edit : Type 0 where
  add : Text → Edit
  remove : Text → Edit

abbrev pub tag_in : Edit → Text
tag_in (add v) = v
tag_in (remove v) = v

abbrev pub IsTag : Text → Type 0
IsTag v = (v ≢ []) × Lacks tag_seperator v

-- The set after an edit, and whether it changes.
abbrev pub edited : (Text → Bool) → Edit → Text → Bool
edited holds (add v) x = holds x || text_eq v x
edited holds (remove v) x = holds x && not (text_eq v x)

abbrev pub changes : (Text → Bool) → Edit → Bool
changes holds (add v) = not (holds v)
changes holds (remove v) = holds v

-- The container has a configuration, whose tags are the set, and its own text of tags is the
-- configuration's.
pub record Represents (holds : Text → Bool) (c : Container) : Type 0 where
  pub config : ContainerConfig
  pub configured : c.config ≡ some config
  pub copied : c.tags ≡ config.tags
  pub tag_set : IsSetOf holds (as_vm config)

-- `AddTag` or `RemoveTag`.
abbrev pub edit : Env → ℕ → Edit → Container → Action WithContainer
edit env calls (add v) c = add_container_tag env calls c v
edit env calls (remove v) c = remove_container_tag env calls c v

-- An edit that changes nothing is ErrNoop, and nothing is sent.
abbrev pub Edited : (Text → Bool) → Edit → State → Result WithContainer → State → Type 0
Edited holds e s (err _) t = ⊥
Edited holds e s (ok (r, c)) t =
    Represents (edited holds e) c
    × (if changes holds e then Unit else (r ≡ err (sentinel noop)) × (t ≡ s))

-- Edits one after the other, whatever the server says to each.
abbrev pub edit_all : Env → ℕ → List Edit → Container → Action Container
edit_all env calls [] c = pure c
edit_all env calls (e ∷ es) c = edit env calls e c >>= λ r. edit_all env calls es r.1

abbrev pub edited_all : (Text → Bool) → List Edit → Text → Bool
edited_all holds [] = holds
edited_all holds (e ∷ es) = edited_all (edited holds e) es

abbrev pub Represented : (Text → Bool) → Result Container → State → Type 0
Represented holds (ok c) t = Represents holds c
Represented holds (err _) t = ⊥

present : (holds : Text → Bool) (v x : Text) → holds v ≡ true → holds x ≡ (holds x || text_eq v x)
present holds v x h = elim (text-cases v x) [
  | inl (e, same) ↦ ground (arith, e, sym (ap holds same) ∙ h)
  | inr (e, _) ↦ ground (arith, e)
]

absent :
    (holds : Text → Bool) (v x : Text) → holds v ≡ false → holds x ≡ (holds x && not (text_eq v x))
absent holds v x h = elim (text-cases v x) [
  | inl (e, same) ↦ ground (arith, e, sym (ap holds same) ∙ h)
  | inr (e, _) ↦ ground (arith, e)
]

of_vm-tags : (k : VirtualMachineConfig) → tags_of (as_vm (of_vm k)) ≡ tags_of k
unfolding ensure_split split_tags
of_vm-tags k = elim (Option-cases k.tags_slice) [ inl e ↦ rw e | inr (l, e) ↦ rw e ]

of_vm-IsSetOf :
    (holds : Text → Bool) (k : VirtualMachineConfig)
    → IsSetOf holds k
    → IsSetOf holds (as_vm (of_vm k))
of_vm-IsSetOf holds k h = same-IsSetOf holds k (as_vm (of_vm k)) h.coherent (of_vm-tags k) h

abbrev object_of : Map Text → Json
object_of options = Json.object (to_members (from_options options []))

asked_text : (cc : ContainerConfig) (v : Text) → cc.tags ≡ (has_tag (as_vm cc) v).1.tags
unfolding has_tag ensure_split split_tags
asked_text cc v = elim (Bool-cases (is_empty cc.tags)) [
  | inl e ↦ rw e refl
  | inr e ↦ rw e (elim (Option-cases cc.tags_slice) [ inl k ↦ rw k refl | inr (l, k) ↦ rw k refl ])
]

module _ (env : Env) (accepting : IsAccepting env) (clock : IsClock env) (f : ℕ) where
  config-Later :
      (c : Container) (options : Map Text) (s : State)
      → Ends (container_config env (suc f) c options s) (Later env accepting clock s)
  unfolding container_config put
  config-Later c options s =
      Ends-lift
        (put env (suc f) (container_path c ++ codes "/config") (some (object_of options)) true)
        task_of s (λ t. env.now s.past ≤ env.now t.past)
        (req_accepted-ends env accepting clock f (codes "PUT") _ _ true s)

  sent-Edited :
      (holds : Text → Bool) (e : Edit) (c : Container) (s : State)
      → changes holds e ≡ true
      → Represents (edited holds e) c
      → Ends (send_container_tags env (suc f) c s) (Edited holds e s)
  unfolding send_container_tags
  sent-Edited holds e c s change h =
      Ends-try (container_config env (suc f) c _) _ s (Later env accepting clock s)
        (Edited holds e s) (config-Later c _ s) (λ r t q. rw change (h, tt))

  kept-Edited :
      (holds : Text → Bool) (e : Edit) (c : Container) (cc : ContainerConfig) (s : State)
      → changes holds e ≡ false
      → ((x : Text) → holds x ≡ edited holds e x)
      → c.tags ≡ cc.tags
      → IsSetOf holds (as_vm cc)
      → Edited holds e s
          (ok (
            err (sentinel noop),
            record c { config = some (of_vm (has_tag (as_vm cc) (tag_in e)).1) },
          ))
          s
  kept-Edited holds e c cc s same equal copied h = rw same (
    record {
      config = of_vm (has_tag (as_vm cc) (tag_in e)).1;
      configured = refl;
      copied = copied ∙ asked_text cc (tag_in e);
      tag_set =
          holds-IsSetOf holds (edited holds e) _ equal
            (of_vm-IsSetOf holds _ (asked-IsSetOf holds (as_vm cc) (tag_in e) h));
    },
    (refl, refl),
  )

  edit-Edited :
      (holds : Text → Bool) (e : Edit) (c : Container) (s : State)
      → IsTag (tag_in e)
      → Represents holds c
      → Ends (edit env (suc f) e c s) (Edited holds e s)
  unfolding add_container_tag remove_container_tag
  edit-Edited holds (add v) c s (n, lacks) h = rw h.configured (elim (Bool-cases (holds v)) [
    | inl e ↦ rw (h.tag_set.tests v n ∙ e) (
        kept-Edited holds (add v) c h.config s (ground (arith, e)) (λ x. present holds v x e)
          h.copied h.tag_set)
    | inr e ↦ rw (h.tag_set.tests v n ∙ e) (
        sent-Edited holds (add v) (with_tags c (of_vm (tagged (has_tag (as_vm h.config) v).1 v))) s
          (ground (arith, e))
          (record {
            config = of_vm (tagged (has_tag (as_vm h.config) v).1 v);
            configured = refl;
            copied = refl;
            tag_set =
                of_vm-IsSetOf _ _ (tagged-IsSetOf holds (as_vm h.config) v h.tag_set lacks n e);
          }))
  ])
  edit-Edited holds (remove v) c s (n, lacks) h = rw h.configured (elim (Bool-cases (holds v)) [
    | inl e ↦ rw (h.tag_set.tests v n ∙ e) (
        let (k, found, set) = untagged-IsSetOf holds (as_vm h.config) v h.tag_set n e in
        rw found (
          sent-Edited holds (remove v) (with_tags c (of_vm k)) s e (record {
            config = of_vm k;
            configured = refl;
            copied = refl;
            tag_set = of_vm-IsSetOf _ k set;
          })))
    | inr e ↦
        rw (h.tag_set.tests v n ∙ e)
          (kept-Edited holds (remove v) c h.config s e (λ x. absent holds v x e) h.copied h.tag_set)
  ])

  -- The tags of a container implement a set of tags: where no request is refused and the clock and
  -- the timers run, calls of AddTag and RemoveTag one after the other, with tags that are not empty
  -- and do not hold the separator, on a container whose tags are a set, end and leave a container
  -- whose tags are the set after those edits. That is: HasTag answers by it, the empty tag aside,
  -- no tag stands twice, the slice and the text of tags agree, and the container's own copy of the
  -- text is the configuration's.
  pub edit_all-Represents :
      (es : List Edit) (holds : Text → Bool) (c : Container) (s : State)
      → All (λ e. IsTag (tag_in e)) es
      → Represents holds c
      → Ends (edit_all env (suc f) es c s) (Represented (edited_all holds es))
  edit_all-Represents [] holds c s h r = r
  edit_all-Represents (e ∷ es) holds c s h r =
      Ends-bind (edit env (suc f) e c) (λ r. edit_all env (suc f) es r.1) s (Edited holds e s)
        (Represented (edited_all holds (e ∷ es))) (edit-Edited holds e c s h.0 r)
        (λ a t q. edit_all-Represents es (edited holds e) a.1 t h.1 q.0) (λ x t q. q)
