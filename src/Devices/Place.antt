-- ===== src/Devices/Place.antt =====
-- What the raw object says of a key, without the code's own walk: the places of its strings.
use go_proxmox.Prelude.{
  ◌≡◌, refl, ◌↔◌, ◌⊎◌, inl, inr, Bool, true, false, Option, none, some, List, [], ◌∷◌, any, ap, sym,
  ◌∙◌, arith, Bool-cases, if◌then◌else◌, subst,
}
use go_proxmox.Prelude.Text.{Text, text_eq}
use go_proxmox.Prelude.Text.Laws.{text_eq_iff, text-cases}
use go_proxmox.Prelude.Map.{Map, lookup, IsFunctional}
use go_proxmox.Errors.{Result, ok, err}
use go_proxmox.Json.{Json, as_text}
use go_proxmox.Devices.{Devices, field, key_from, indexed_device_key, destination, route_all}
use go_proxmox.Devices.Key.{IsIndexed, indexed_device_key_iff}
use go_proxmox.Devices.Routes.{or_else, goes, said_of, said, lookup-route_all}

-- A text of a list.
abbrev pub Among : Text → List Text → Type 0
Among q [] = ⊥
Among q (p ∷ ps) = (p ≡ q) ⊎ Among q ps

-- The string that encoding/json reads of a value; null is the empty one.
abbrev pub Reads : Json → Text → Type 0
Reads (Json.string t) s = t ≡ s
Reads Json.null s = [] ≡ s
Reads _ s = ⊥

-- The key is that of an indexed device with a prefix of the configuration, and has a string.
abbrev pub SaysOf : List Text → Text → Text → Json → Text → Type 0
SaysOf prefixes q k v s = IsIndexed k q × Among q prefixes × Reads v s

abbrev pub Says : List Text → Text → Text → Option Json → Text → Type 0
Says prefixes q k none s = ⊥
Says prefixes q k (some v) s = SaysOf prefixes q k v s

any_text_iff : (q : Text) (ps : List Text) → (any (λ p. text_eq p q) ps ≡ true) ↔ Among q ps
any_text_iff q [] = (λ h. ground (arith, h), λ h. absurd h)
any_text_iff q (p ∷ ps) = ground (arith, text_eq_iff p q, any_text_iff q ps)

some-injective : {A : Type 0} (a b : A) → Option.some a ≡ some b → a ≡ b
some-injective a b e = cc

reads_iff : (v : Json) (s : Text) → (as_text v ≡ ok s) ↔ Reads v s
unfolding as_text
reads_iff (Json.string t) s = (λ h. cc, λ h. ap (λ x. ok x) h)
reads_iff Json.null s = (λ h. cc, λ h. ap (λ x. ok x) h)
reads_iff (Json.boolean _) s = (λ h. cc, λ h. absurd h)
reads_iff (Json.number _) s = (λ h. cc, λ h. absurd h)
reads_iff (Json.array _) s = (λ h. cc, λ h. absurd h)
reads_iff (Json.object _) s = (λ h. cc, λ h. absurd h)

abbrev placed : List Text → Option Text → Result Text → Option (Text × Text)
placed prefixes none r = none
placed prefixes (some p) r =
    if any (λ x. text_eq x p) prefixes then (elim r [ err e ↦ none | ok s ↦ some (p, s) ]) else none

abbrev pub found : Text → Text → Option (Text × Text)
found p s = some (p, s)

chosen_iff :
    (prefixes : List Text) (p q s t : Text) (b : Bool)
    → any (λ x. text_eq x p) prefixes ≡ b
    → ((if b then found p t else none) ≡ found q s)
      ↔ ((some p ≡ some q) × Among q prefixes × (Result.ok t ≡ ok s))
chosen_iff prefixes p q s t true y =
    (λ h. (cc, subst (λ x. Among x prefixes) (same h) ((any_text_iff p prefixes).0 y), cc), λ h. cc)
  where
    same : found p t ≡ found q s → p ≡ q
    same h = cc
chosen_iff prefixes p q s t false n = (λ h. cc, λ h. absurd (away h.0 h.1))
  where
    away : some p ≡ some q → Among q prefixes → ⊥
    away e m =
        let back : q ≡ p = cc in
        let yes = (any_text_iff p prefixes).1 (subst (λ x. Among x prefixes) back m) in
        ground (arith, yes, n)

placed_iff :
    (prefixes : List Text) (q s : Text) (o : Option Text) (r : Result Text)
    → (placed prefixes o r ≡ found q s) ↔ ((o ≡ some q) × Among q prefixes × (r ≡ ok s))
placed_iff prefixes q s none r = (λ h. cc, λ h. cc)
placed_iff prefixes q s (some p) (err e) = elim (Bool-cases (any (λ x. text_eq x p) prefixes)) [
  | inl y ↦ rw y (λ h. cc, λ h. cc)
  | inr n ↦ rw n (λ h. cc, λ h. cc)
]
placed_iff prefixes q s (some p) (ok t) =
    chosen_iff prefixes p q s t (any (λ x. text_eq x p) prefixes) refl

destination-placed :
    (prefixes : List Text) (k : Text) (v : Json)
    → destination prefixes k v ≡ placed prefixes (indexed_device_key k) (as_text v)
unfolding destination indexed_device_key
destination-placed prefixes k v = go (key_from [] k) (as_text v)
  where
    go :
        (o : Option Text) (r : Result Text)
        → (elim o as (λ _. Option (Text × Text)) [
          | none ↦ none
          | some prefix ↦
              if any (λ p. text_eq p prefix) prefixes
              then (elim r as (λ _. Option (Text × Text)) [
                | err e ↦ none
                | ok s ↦ some (prefix, s)
              ])
              else none
        ])
          ≡ placed prefixes o r
    go none r = refl
    go (some p) (err e) = refl
    go (some p) (ok s) = refl

-- A value goes to a place exactly if its key and its string say so.
pub destination_iff :
    (prefixes : List Text) (q k : Text) (v : Json) (s : Text)
    → (destination prefixes k v ≡ found q s) ↔ SaysOf prefixes q k v s
destination_iff prefixes q k v s = (
  λ h.
      let g = p.0 (sym (destination-placed prefixes k v) ∙ h) in
      ((indexed_device_key_iff k q).0 (g.0), g.1, (reads_iff v s).0 (g.2)),
  λ h.
      destination-placed prefixes k v
      ∙ p.1 ((indexed_device_key_iff k q).1 (h.0), h.1, (reads_iff v s).1 (h.2)),
)
  where
    p :
        (placed prefixes (indexed_device_key k) (as_text v) ≡ found q s)
        ↔ ((indexed_device_key k ≡ some q) × Among q prefixes × (as_text v ≡ ok s))
    p = placed_iff prefixes q s (indexed_device_key k) (as_text v)

goes_iff : (q s : Text) (dst : Option (Text × Text)) → (goes q dst ≡ some s) ↔ (dst ≡ found q s)
goes_iff q s none = (λ h. cc, λ h. cc)
goes_iff q s (some (p, t)) = elim (text-cases p q) [
  | inl (e, same) ↦ rw e (λ h. cc, λ h. cc)
  | inr (e, other) ↦ rw e (λ h. cc, λ h. absurd (other (left p t h)))
]
  where
    left : (p t : Text) → found p t ≡ found q s → p ≡ q
    left p t h = cc

said_iff :
    (prefixes : List Text) (q k : Text) (o : Option Json) (s : Text)
    → (said_of prefixes q k o ≡ some s) ↔ Says prefixes q k o s
said_iff prefixes q k none s = (λ h. cc, λ h. absurd h)
said_iff prefixes q k (some v) s = (
  λ h. (destination_iff prefixes q k v s).0 ((goes_iff q s (destination prefixes k v)).0 h),
  λ h. (goes_iff q s (destination prefixes k v)).1 ((destination_iff prefixes q k v s).1 h),
)

-- A string, or else what was there before.
either_iff :
    (Q : Text → Type 0) (o b : Option Text) (s : Text)
    → ((s' : Text) → (o ≡ some s') ↔ Q s')
    → (or_else o b ≡ some s) ↔ (Q s ⊎ (((s' : Text) → Q s' → ⊥) × (b ≡ some s)))
either_iff Q none b s h = (
  λ e. inr (λ s' y. ground (arith, (h s').1 y), e),
  λ x. elim x [ inl y ↦ ground (arith, (h s).1 y) | inr (_, e) ↦ e ],
)
either_iff Q (some t) b s h = (
  λ e. inl ((h s).0 e),
  λ x. elim x [ inl y ↦ (h s).1 y | inr (n, _) ↦ absurd (n t ((h t).0 refl)) ],
)

-- After the walk over an object in which no key stands twice, a key has a string in the map of a
-- prefix exactly if the key is that prefix, not empty and without digits, with one or more digits
-- behind it, the prefix is one of the configuration's, and the object has for the key that string,
-- or null where it is empty; or if the object says no such thing of the key, and the map had that
-- string there before.
pub route_all_iff :
    (prefixes : List Text) (raw : Map Json) (d : Devices) (q k s : Text)
    → IsFunctional raw
    → (lookup k (field q (route_all prefixes raw d)) ≡ some s) ↔ (
        Says prefixes q k (lookup k raw) s
        ⊎ (((s' : Text) → Says prefixes q k (lookup k raw) s' → ⊥)
            × (lookup k (field q d) ≡ some s)))
route_all_iff prefixes raw d q k s h = rw (lookup-route_all prefixes raw d q k h) (
    either_iff (Says prefixes q k (lookup k raw)) (said prefixes raw q k) (lookup k (field q d)) s
      (said_iff prefixes q k (lookup k raw)))
