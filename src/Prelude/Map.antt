-- ===== src/Prelude/Map.antt =====
-- Go maps with string keys, as association lists in which a key stands once.
use mathlib.Core.Path.{◌≡◌, refl}
use mathlib.Core.Option.{Option, none, some}
use mathlib.Core.List.{List, [], ◌∷◌}
use native.Mathlib.Omega.{arith}
use go_proxmox.Prelude.Tests.{if◌then◌else◌}
use go_proxmox.Prelude.Text.{Text, text_eq}
use go_proxmox.Prelude.Text.Laws.{text_eq_iff}

abbrev pub Map {ℓ} : Type ℓ → Type ℓ
Map V = List (Text × V)

module _ {ℓ} {V : Type ℓ} where
  -- `m[k]` with its second result.
  unfoldable pub lookup : Text → Map V → Option V
  lookup k [] = none
  lookup k ((j, v) ∷ m) = if text_eq j k then some v else lookup k m

  -- `m[k] = v`.
  unfoldable pub insert : Text → V → Map V → Map V
  insert k v [] = (k, v) ∷ []
  insert k v ((j, w) ∷ m) = if text_eq j k then (j, v) ∷ m else (j, w) ∷ insert k v m

  -- `for k, v := range n { m[k] = v }`.
  unfoldable pub insert_all : Map V → Map V → Map V
  unfolding insert
  insert_all [] m = m
  insert_all ((k, v) ∷ n) m = insert_all n (insert k v m)

  -- No key twice.
  abbrev pub IsFunctional : Map V → Type ℓ
  IsFunctional [] = Unit {ℓ}
  IsFunctional ((k, v) ∷ m) = (lookup k m ≡ none) × IsFunctional m

  pub lookup-insert :
      (k j : Text) (v : V) (m : Map V)
      → lookup j (insert k v m) ≡ (if text_eq k j then some v else lookup j m)
  unfolding lookup insert
  lookup-insert k j v [] = refl
  lookup-insert k j v ((i, w) ∷ m) =
      ground (arith, text_eq_iff k j, text_eq_iff i k, text_eq_iff i j, lookup-insert k j v m)

  pub insert-IsFunctional :
      (k : Text) (v : V) (m : Map V) → IsFunctional m → IsFunctional (insert k v m)
  unfolding insert
  insert-IsFunctional k v [] h = (unfold lookup in refl, tt)
  insert-IsFunctional k v ((j, w) ∷ m) h = ground (
    arith,
    insert-IsFunctional k v m h.1,
    lookup-insert k j v m,
    text_eq_iff j k,
    text_eq_iff k j,
  )

  -- A key of the inserted map has its value there, any other the value it had.
  pub lookup-insert_all :
      (j : Text) (n m : Map V)
      → IsFunctional n
      → lookup j (insert_all n m) ≡ elim (lookup j n) [ none ↦ lookup j m | some v ↦ some v ]
  unfolding lookup insert_all
  lookup-insert_all j [] m h = refl
  lookup-insert_all j ((k, v) ∷ n) m h =
      ground
        (arith, lookup-insert_all j n (insert k v m) h.1, lookup-insert k j v m, text_eq_iff k j)
