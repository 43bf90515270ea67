-- ===== src/Devices/Disks.antt =====
-- What `MergeDisks` collects.
use go_proxmox.Prelude.{
  ◌↔◌, ◌≡◌, refl, Bool, true, false, Option, none, some, List, [], ◌∷◌, arith, any, ap, sym, ◌∙◌,
  Option-cases, inl, inr, if◌then◌else◌, subst,
}
use go_proxmox.Prelude.Text.{Text, codes, text_eq}
use go_proxmox.Prelude.Text.Laws.{text_eq_iff}
use go_proxmox.Prelude.Map.{
  Map, lookup, insert, insert_all, IsFunctional, lookup-insert_all, insert-IsFunctional,
}
use go_proxmox.Json.{Json}
use go_proxmox.Devices.{Devices, field, destination, place, route_all, merge_disks, vm_prefixes}
use go_proxmox.Devices.Key.{IsIndexed}
use go_proxmox.Devices.Place.{Among, Reads, found, destination_iff}
use go_proxmox.Devices.Routes.{or_else, goes, said, said_of, field-insert, lookup-route_all}

abbrev pub AreFunctional : Devices → Type 0
AreFunctional d = (q : Text) → IsFunctional (field q d)

chosen-IsFunctional :
    (b : Bool) (m n : Map Text)
    → IsFunctional m
    → IsFunctional n
    → IsFunctional (if b then m else n)
chosen-IsFunctional true m n h k = h
chosen-IsFunctional false m n h k = k

place-AreFunctional :
    (prefixes : List Text) (j : Text) (dst : Option (Text × Text)) (d : Devices)
    → AreFunctional d
    → AreFunctional (place prefixes j dst d)
place-AreFunctional prefixes j none d h q = h q
place-AreFunctional prefixes j (some (p, s)) d h q =
    subst IsFunctional (sym (field-insert p q (insert j s (field p d)) d)) (
      chosen-IsFunctional (text_eq p q) (insert j s (field p d)) (field q d)
        (insert-IsFunctional j s (field p d) (h p)) (h q))

pub route_all-AreFunctional :
    (prefixes : List Text) (raw : Map Json) (d : Devices)
    → AreFunctional d
    → AreFunctional (route_all prefixes raw d)
unfolding route_all
route_all-AreFunctional prefixes [] d h = h
route_all-AreFunctional prefixes ((j, v) ∷ raw) d h =
    route_all-AreFunctional prefixes raw (place prefixes j (destination prefixes j v) d)
      (place-AreFunctional prefixes j (destination prefixes j v) d h)

nothing-AreFunctional : AreFunctional []
unfolding lookup
nothing-AreFunctional q = tt

merged :
    (k : Text) (n m : Map Text)
    → IsFunctional n
    → lookup k (insert_all n m) ≡ or_else (lookup k n) (lookup k m)
merged k n m h = elim (Option-cases (lookup k n)) [
  | inl e ↦ lookup-insert_all k n m h ∙ rw e
  | inr (v, e) ↦ lookup-insert_all k n m h ∙ rw e
]

abbrev pub disk_prefixes : List Text
disk_prefixes = codes "ide" ∷ codes "scsi" ∷ codes "sata" ∷ codes "virtio" ∷ []

-- The string of a disk, by where it goes.
abbrev disk_of : Option (Text × Text) → Option Text
disk_of none = none
disk_of (some (p, s)) = if any (λ q. text_eq p q) disk_prefixes then some s else none

four_maps :
    (dst : Option (Text × Text))
    → or_else (goes (codes "virtio") dst) (
        or_else
          (goes (codes "sata") dst)
          (or_else (goes (codes "scsi") dst) (or_else (goes (codes "ide") dst) none)))
      ≡ disk_of dst
four_maps none = refl
four_maps (some (p, s)) = ground arith

abbrev disk_said : Text → Option Json → Option Text
disk_said k none = none
disk_said k (some v) = disk_of (destination vm_prefixes k v)

four_said :
    (k : Text) (o : Option Json)
    → or_else (said_of vm_prefixes (codes "virtio") k o) (
        or_else (said_of vm_prefixes (codes "sata") k o) (
          or_else
            (said_of vm_prefixes (codes "scsi") k o)
            (or_else (said_of vm_prefixes (codes "ide") k o) none)))
      ≡ disk_said k o
four_said k none = refl
four_said k (some v) = four_maps (destination vm_prefixes k v)

or_else-none : (o : Option Text) → or_else o none ≡ o
or_else-none none = refl
or_else-none (some s) = refl

nothing_there : (q k : Text) → lookup k (field q []) ≡ none
unfolding lookup
nothing_there q k = refl

merge_fields :
    (d : Devices) (k : Text)
    → AreFunctional d
    → lookup k (merge_disks d)
      ≡ or_else (lookup k (field (codes "virtio") d)) (
          or_else (lookup k (field (codes "sata") d)) (
            or_else
              (lookup k (field (codes "scsi") d))
              (or_else (lookup k (field (codes "ide") d)) none)))
unfolding merge_disks
merge_fields d k h =
    merged k (field (codes "virtio") d) _ (h (codes "virtio"))
    ∙ ap (or_else (lookup k (field (codes "virtio") d))) (
        merged k (field (codes "sata") d) _ (h (codes "sata"))
        ∙ ap (or_else (lookup k (field (codes "sata") d))) (
            merged k (field (codes "scsi") d) _ (h (codes "scsi"))
            ∙ ap (or_else (lookup k (field (codes "scsi") d))) (
                merged k (field (codes "ide") d) [] (h (codes "ide"))
                ∙ ap (or_else (lookup k (field (codes "ide") d))) (unfold lookup in refl))))

-- A decoded field of a configuration that was empty.
decoded_field :
    (raw : Map Json) (q k : Text)
    → IsFunctional raw
    → lookup k (field q (route_all vm_prefixes raw [])) ≡ said vm_prefixes raw q k
decoded_field raw q k h =
    lookup-route_all vm_prefixes raw [] q k h
    ∙ ap (or_else (said vm_prefixes raw q k)) (nothing_there q k)
    ∙ or_else-none (said vm_prefixes raw q k)

merged_disks :
    (raw : Map Json) (k : Text)
    → IsFunctional raw
    → lookup k (merge_disks (route_all vm_prefixes raw [])) ≡ disk_said k (lookup k raw)
merged_disks raw k h =
    merge_fields (route_all vm_prefixes raw []) k
      (route_all-AreFunctional vm_prefixes raw [] nothing-AreFunctional)
    ∙ rw
        (
          decoded_field raw (codes "virtio") k h,
          decoded_field raw (codes "sata") k h,
          decoded_field raw (codes "scsi") k h,
          decoded_field raw (codes "ide") k h,
        )
        (four_said k (lookup k raw))

any_disk_iff : (p : Text) (ps : List Text) → (any (λ q. text_eq p q) ps ≡ true) ↔ Among p ps
any_disk_iff p [] = (λ h. ground (arith, h), λ h. absurd h)
any_disk_iff p (q ∷ ps) = ground (arith, text_eq_iff p q, any_disk_iff p ps)

none_there : (q s : Text) → Option.none ≡ found q s → ⊥
none_there q s h = cc

disk_of_iff :
    (dst : Option (Text × Text)) (s : Text)
    → (disk_of dst ≡ some s) ↔ ((q : Text) × Among q disk_prefixes × (dst ≡ found q s))
disk_of_iff none s = (λ h. cc, λ h. absurd (none_there (h.0) s (h.2)))
disk_of_iff (some (p, t)) s = go (any (λ q. text_eq p q) disk_prefixes) refl
  where
    same : (q : Text) → found p t ≡ found q s → p ≡ q
    same q h = cc

    value : (q : Text) → found p t ≡ found q s → t ≡ s
    value q h = cc

    away :
        any (λ q. text_eq p q) disk_prefixes ≡ false
        → (q : Text) → Among q disk_prefixes
        → found p t ≡ found q s
        → ⊥
    away e q m h =
        let back : q ≡ p = sym (same q h) in
        let yes = (any_disk_iff p disk_prefixes).1 (subst (λ x. Among x disk_prefixes) back m) in
        ground (arith, yes, e)

    go :
        (b : Bool)
        → any (λ q. text_eq p q) disk_prefixes ≡ b
        → ((if b then some t else none) ≡ some s)
          ↔ ((q : Text) × Among q disk_prefixes × (found p t ≡ found q s))
    go true e = (
      λ h. (p, (any_disk_iff p disk_prefixes).0 e, cc),
      λ h. ap (λ x. some x) (value (h.0) (h.2)),
    )
    go false e = (λ h. cc, λ h. absurd (away e h.0 h.1 h.2))

is_prefix : (q : Text) → Among q disk_prefixes → Among q vm_prefixes
is_prefix q (inl e) = inl e
is_prefix q (inr (inl e)) = inr (inl e)
is_prefix q (inr (inr (inl e))) = inr (inr (inl e))
is_prefix q (inr (inr (inr (inl e)))) = inr (inr (inr (inl e)))
is_prefix q (inr (inr (inr (inr h)))) = absurd h

-- The key is that of an indexed disk, and has a string.
abbrev pub IsDisk : Text → Option Json → Text → Type 0
IsDisk k none s = ⊥
IsDisk k (some v) s = (q : Text) × Among q disk_prefixes × IsIndexed k q × Reads v s

disk_said_iff : (k : Text) (o : Option Json) (s : Text) → (disk_said k o ≡ some s) ↔ IsDisk k o s
disk_said_iff k none s = (λ h. cc, λ h. absurd h)
disk_said_iff k (some v) s = (
  λ h.
      let (q, a, e) = (disk_of_iff (destination vm_prefixes k v) s).0 h in
      let says = (destination_iff vm_prefixes q k v s).0 e in (q, a, says.0, says.2),
  λ (q, a, i, r).
      (disk_of_iff (destination vm_prefixes k v) s).1
        (q, a, (destination_iff vm_prefixes q k v s).1 (i, is_prefix q a, r)),
)

-- The disks of a configuration decoded from an object in which no key stands twice have a string
-- under a name exactly if the name is "ide", "scsi", "sata" or "virtio" with one or more digits
-- behind it, and the object has for it that string, or null where it is empty: none is lost, none
-- is added, and none hides another.
pub merge_disks_iff :
    (raw : Map Json) (k s : Text)
    → IsFunctional raw
    → (lookup k (merge_disks (route_all vm_prefixes raw [])) ≡ some s) ↔ IsDisk k (lookup k raw) s
merge_disks_iff raw k s h = rw (merged_disks raw k h) (disk_said_iff k (lookup k raw) s)
