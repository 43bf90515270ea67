-- ===== src/Csv.antt =====
-- types.go: the lists that the API writes as texts with commas (`CSV`), and `IntOrBool`.
pub mod RoundTrip
mod Tests
use go_proxmox.Prelude.{
  Bool, true, false, ◌||◌, Option, none, some, List, [], ◌∷◌, if◌then◌else◌, any,
}
use go_proxmox.Prelude.Text.{Text, codes, is_empty, text_eq, split, join, trim_space, valid_utf8}
use go_proxmox.Errors.{message, Result, ok, err}
use go_proxmox.Json.{Json, as_list, as_text}

-- `CSV`: a nil slice is none.
abbrev pub Csv : Type 0
Csv = Option (List Text)

-- The elements of a slice of strings, or the first error.
abbrev pub and_rest : Text → Result (List Text) → Result (List Text)
and_rest t (ok ts) = ok (t ∷ ts)
and_rest t (err e) = err e

abbrev pub texts_of : List Json → Result (List Text)
texts_of [] = ok []
texts_of (v ∷ vs) = elim (as_text v) [ err e ↦ err e | ok t ↦ and_rest t (texts_of vs) ]

-- `json.Unmarshal` into a slice of strings; null leaves it nil.
abbrev pub as_texts : Json → Result Csv
as_texts Json.null = ok none
as_texts v = elim (as_list v) [
  | err e ↦ err e
  | ok vs ↦ elim (texts_of vs) [ err e ↦ err e | ok ts ↦ ok (some ts) ]
]

-- The loop over the parts.
abbrev pub fields_of : List Text → List Text
fields_of [] = []
fields_of (part ∷ parts) =
    let rest = fields_of parts in
    if is_empty (trim_space part) then rest else trim_space part ∷ rest

abbrev pub parsed_text : Text → Csv
parsed_text s = if is_empty s then none else some (fields_of (split b',' s))

-- `(c *CSV) UnmarshalJSON`.
unfoldable pub unmarshal_csv : Json → Result Csv
unfolding as_text
unmarshal_csv v = elim (as_texts v) [
  | ok list ↦ ok list
  | err _ ↦ elim (as_text v) [ err e ↦ err e | ok s ↦ ok (parsed_text s) ]
]

-- `(c CSV) MarshalJSON`.
unfoldable pub marshal_csv : Csv → Json
unfolding valid_utf8
marshal_csv none = Json.null
marshal_csv (some l) = Json.string (valid_utf8 (join (codes ",") l))

abbrev trues : List Text
trues = codes "1" ∷ codes "t" ∷ codes "T" ∷ codes "true" ∷ codes "TRUE" ∷ codes "True" ∷ []

abbrev falses : List Text
falses = codes "0" ∷ codes "f" ∷ codes "F" ∷ codes "false" ∷ codes "FALSE" ∷ codes "False" ∷ []

-- `strconv.ParseBool`.
unfoldable pub parse_bool : Text → Result Bool
parse_bool t =
    if any (λ u. text_eq u t) trues
    then ok true
    else if any (λ u. text_eq u t) falses
    then ok false
    else err (message (codes "strconv.ParseBool: invalid syntax"))

-- `IntOrBool`, on the bytes of the JSON value.
unfoldable pub unmarshal_int_or_bool : Text → Result Bool
unfolding parse_bool
unmarshal_int_or_bool raw = parse_bool raw

unfoldable pub marshal_int_or_bool : Bool → Text
marshal_int_or_bool true = codes "1"
marshal_int_or_bool false = codes "0"
