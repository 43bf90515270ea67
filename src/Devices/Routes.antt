-- ===== src/Devices/Routes.antt =====
-- Where the values of the raw object end up, whatever the order of the walk.
use go_proxmox.Prelude.{
  ◌≡◌, refl, Option, none, some, List, [], ◌∷◌, arith, ap, sym, ◌∙◌, Bool-cases, inl, inr,
  if◌then◌else◌,
}
use go_proxmox.Prelude.Text.{Text, text_eq}
use go_proxmox.Prelude.Text.Laws.{text-cases}
use go_proxmox.Prelude.Map.{Map, lookup, insert, IsFunctional, lookup-insert}
use go_proxmox.Json.{Json}
use go_proxmox.Devices.{Devices, field, or_empty, destination, place, route_all}

abbrev pub or_else : Option Text → Option Text → Option Text
or_else none b = b
or_else (some a) b = some a

-- What of a destination lands in the map of the prefix `q`.
abbrev pub goes : Text → Option (Text × Text) → Option Text
goes q none = none
goes q (some (p, s)) = if text_eq p q then some s else none

pub field-insert :
    (p q : Text) (m : Map Text) (d : Devices)
    → field q (insert p m d) ≡ (if text_eq p q then m else field q d)
field-insert p q m d =
    ap or_empty (lookup-insert p q m d)
    ∙ elim (Bool-cases (text_eq p q)) [ inl e ↦ rw e | inr e ↦ rw e ]

place-lookup :
    (prefixes : List Text) (j k q : Text) (dst : Option (Text × Text)) (d : Devices)
    → lookup k (field q (place prefixes j dst d))
      ≡ (if text_eq j k then or_else (goes q dst) (lookup k (field q d)) else lookup k (field q d))
place-lookup prefixes j k q none d = ground arith
place-lookup prefixes j k q (some (p, s)) d =
    ap (lookup k) (field-insert p q (insert j s (field p d)) d) ∙ elim (text-cases p q) [
      | inl (e, same) ↦ rw e (
          lookup-insert j k s (field p d)
          ∙ ap (λ x. if text_eq j k then some s else lookup k (field x d)) same)
      | inr (e, _) ↦ rw e (elim (Bool-cases (text_eq j k)) [ inl h ↦ rw h | inr h ↦ rw h ])
    ]

-- What the raw object says of a key, in the map of the prefix `q`.
abbrev pub said_of : List Text → Text → Text → Option Json → Option Text
said_of prefixes q k none = none
said_of prefixes q k (some v) = goes q (destination prefixes k v)

abbrev pub said : List Text → Map Json → Text → Text → Option Text
said prefixes raw q k = said_of prefixes q k (lookup k raw)

-- After the walk over an object in which no key stands twice, a key has, in the map of a prefix,
-- the string that the object has for it, if the key is that of an indexed device with this prefix
-- and the prefix is one of the configuration's; and else what it had there before.
pub lookup-route_all :
    (prefixes : List Text) (raw : Map Json) (d : Devices) (q k : Text)
    → IsFunctional raw
    → lookup k (field q (route_all prefixes raw d))
      ≡ or_else (said prefixes raw q k) (lookup k (field q d))
unfolding route_all lookup
lookup-route_all prefixes [] d q k h = refl
lookup-route_all prefixes ((j, v) ∷ raw) d q k h =
    lookup-route_all prefixes raw (place prefixes j (destination prefixes j v) d) q k h.1
    ∙ ap (or_else (said prefixes raw q k))
        (place-lookup prefixes j k q (destination prefixes j v) d)
    ∙ elim (text-cases j k) [
      | inr (e, _) ↦ rw e
      | inl (e, same) ↦ rw e (
          ap
            (λ o.
              or_else (said_of prefixes q k o)
                (or_else (goes q (destination prefixes j v)) (lookup k (field q d))))
            (ap (λ x. lookup x raw) (sym same) ∙ h.0)
          ∙ ap (λ x. or_else (goes q (destination prefixes x v)) (lookup k (field q d))) same)
    ]

-- Go's order over a map does not matter: two walks over the same object, in whatever orders, leave
-- the same strings under every key of every map.
pub route_all_order :
    (prefixes : List Text) (raw raw' : Map Json) (d : Devices)
    → IsFunctional raw
    → IsFunctional raw'
    → ((k : Text) → lookup k raw ≡ lookup k raw')
    → (q k : Text)
    → lookup k (field q (route_all prefixes raw d)) ≡ lookup k (field q (route_all prefixes raw' d))
route_all_order prefixes raw raw' d h h' same q k =
    lookup-route_all prefixes raw d q k h
    ∙ ap (λ o. or_else (said_of prefixes q k o) (lookup k (field q d))) (same k)
    ∙ sym (lookup-route_all prefixes raw' d q k h')
