-- ===== src/Json.antt =====
-- JSON values as package encoding/json hands them to the decoders, and shape.go's checked reads.
-- Numbers are the integers that a float64 holds exactly, those within 2^53, which the API sends: there
-- `float64` and `int` keep the value. Any other number is outside the model.
use go_proxmox.Prelude.{Bool, Option, none, some, List, [], ◌∷◌}
use go_proxmox.Prelude.Text.{Text, codes}
use go_proxmox.Prelude.Int.{ℤ}
use go_proxmox.Prelude.Map.{Map, lookup, insert}
use go_proxmox.Errors.{Error, shape_error, message, Result, ok, err}

mutual
  pub data Json : Type 0 where
    null : Json
    boolean : Bool → Json
    number : ℤ → Json
    string : Text → Json
    array : Items → Json
    object : Members → Json

  pub data Items : Type 0 where
    nil : Items
    cons : Json → Items → Items

  pub data Members : Type 0 where
    end : Members
    member : Text → Json → Members → Members

abbrev pub items : Items → List Json
items nil = []
items (cons v vs) = v ∷ items vs

-- An object decoded into a map: of a repeated key the last value stays.
abbrev pub members_onto : Members → Map Json → Map Json
members_onto end m = m
members_onto (member k v ms) m = members_onto ms (insert k v m)

abbrev pub members : Members → Map Json
members ms = members_onto ms []

abbrev cannot_unmarshal : Error
cannot_unmarshal = message (codes "json: cannot unmarshal")

-- `json.Unmarshal` into a map with string keys; null leaves the map nil, which reads as empty.
unfoldable pub as_map : Json → Result (Map Json)
as_map (object ms) = ok (members ms)
as_map null = ok []
as_map _ = err cannot_unmarshal

-- `json.Unmarshal` into a slice.
unfoldable pub as_list : Json → Result (List Json)
as_list (array vs) = ok (items vs)
as_list null = ok []
as_list _ = err cannot_unmarshal

-- `json.Unmarshal` into a string; null leaves it at what it was, here empty.
unfoldable pub as_text : Json → Result Text
as_text (string s) = ok s
as_text null = ok []
as_text _ = err cannot_unmarshal

-- `jsonKind`.
unfoldable pub json_kind : Json → Text
json_kind null = codes "null"
json_kind (string _) = codes "string"
json_kind (number _) = codes "number"
json_kind (boolean _) = codes "bool"
json_kind (object _) = codes "object"
json_kind (array _) = codes "array"

unfoldable pub number_value : Text → Text → Json → Result (Option ℤ)
unfolding json_kind
number_value typ key null = ok none
number_value typ key (number n) = ok (some n)
number_value typ key v = err (shape_error typ key (codes "number") (json_kind v))

-- `numberField`; its results `(n, ok)` are an Option.
unfoldable pub number_field : Text → Map Json → Text → Result (Option ℤ)
unfolding number_value
number_field typ m key = elim (lookup key m) [ none ↦ ok none | some v ↦ number_value typ key v ]

unfoldable pub string_value : Text → Text → Json → Result (Option Text)
unfolding json_kind
string_value typ key null = ok none
string_value typ key (string s) = ok (some s)
string_value typ key v = err (shape_error typ key (codes "string") (json_kind v))

-- `stringField`.
unfoldable pub string_field : Text → Map Json → Text → Result (Option Text)
unfolding string_value
string_field typ m key = elim (lookup key m) [ none ↦ ok none | some v ↦ string_value typ key v ]
