-- ===== src/Tasks/Log.antt =====
-- types.go: `Log`, a task's lines by their numbers, as it is decoded.
mod Tests
use go_proxmox.Prelude.{
  ℕ, ◌≡◌, refl, Bool, true, false, ◌&&◌, Option, none, some, List, [], ◌∷◌, if◌then◌else◌, ap, sym,
  ◌∙◌, Bool-cases, inl, inr, subst, arith,
}
use go_proxmox.Prelude.Text.{Text, codes}
use go_proxmox.Prelude.Int.{ℤ, pos, sub_ℤ, eq_ℤ, eq_ℤ_iff}
use go_proxmox.Prelude.Map.{Map, lookup}
use go_proxmox.Errors.{Error, shape_error, Result, ok, err}
use go_proxmox.Json.{
  Json, as_list, as_map, number_field, string_field, number_value, string_value, json_kind,
}
use go_proxmox.Tasks.{◌>=>◌}

-- `Log`.
abbrev pub Log : Type 0
Log = List (ℤ × Text)

abbrev pub no_lines : Log
no_lines = []

-- `log[k]` with its second result, and `log[n] = t`.
unfoldable pub line_at : Log → ℤ → Option Text
line_at [] k = none
line_at ((j, t) ∷ log) k = if eq_ℤ j k then some t else line_at log k

unfoldable pub set_line : ℤ → Text → Log → Log
set_line n t [] = (n, t) ∷ []
set_line n t ((j, u) ∷ log) = if eq_ℤ j n then (j, t) ∷ log else (j, u) ∷ set_line n t log

-- `row[key] != nil`.
abbrev pub is_given : Option Json → Bool
is_given none = false
is_given (some Json.null) = false
is_given (some _) = true

abbrev or_zero : Option ℤ → ℤ
or_zero none = pos 0
or_zero (some n) = n

abbrev or_blank : Option Text → Text
or_blank none = []
or_blank (some t) = t

-- The body of the loop: the line of a row, if it has both its number and its text.
unfoldable pub read_row : Map Json → Result (Option (ℤ × Text))
read_row row =
    if is_given (lookup (codes "n") row) && is_given (lookup (codes "t") row)
    then (number_field (codes "Log") row (codes "n") >=> λ n.
        string_field (codes "Log") row (codes "t") >=> λ t.
        ok (some (sub_ℤ (or_zero n) (pos 1), or_blank t)))
    else ok none

abbrev pub with_line : Option (ℤ × Text) → Log → Log
with_line none log = log
with_line (some (n, t)) log = set_line n t log

-- The loop.
unfoldable pub read_rows : List (Map Json) → Log → Result Log
unfolding read_row
read_rows [] log = ok log
read_rows (row ∷ rows) log = read_row row >=> λ o. read_rows rows (with_line o log)

abbrev pub maps_of : List Json → Result (List (Map Json))
maps_of [] = ok []
maps_of (v ∷ vs) = as_map v >=> λ row. maps_of vs >=> λ rows. ok (row ∷ rows)

-- `(l *Log) UnmarshalJSON`, with copier.Copy into the receiver.
unfoldable pub unmarshal_log : (Log → Result Log) → Json → Result Log
unfolding read_rows
unmarshal_log copy v = as_list v >=> maps_of >=> λ rows. read_rows rows no_lines >=> copy

-- What a row says, by the values of its number and its text.
abbrev pub says : Option Json → Option Json → Result (Option (ℤ × Text))
says none _ = ok none
says (some Json.null) _ = ok none
says (some _) none = ok none
says (some _) (some Json.null) = ok none
says (some (Json.number n)) (some (Json.string t)) = ok (some (sub_ℤ n (pos 1), t))
says (some (Json.number n)) (some v) =
    err (shape_error (codes "Log") (codes "t") (codes "string") (json_kind v))
says (some v) (some _) = err (shape_error (codes "Log") (codes "n") (codes "number") (json_kind v))

abbrev pub row_says : Map Json → Result (Option (ℤ × Text))
row_says row = says (lookup (codes "n") row) (lookup (codes "t") row)

abbrev row_body : Option Json → Option Json → Result (Option (ℤ × Text))
row_body n t =
    if is_given n && is_given t
    then ((elim n [ none ↦ ok none | some v ↦ number_value (codes "Log") (codes "n") v ]) >=> λ k.
        (elim t [ none ↦ ok none | some v ↦ string_value (codes "Log") (codes "t") v ]) >=> λ s.
        ok (some (sub_ℤ (or_zero k) (pos 1), or_blank s)))
    else ok none

row_body-says : (n t : Option Json) → row_body n t ≡ says n t
unfolding number_value string_value json_kind
row_body-says none t = refl
row_body-says (some Json.null) t = refl
row_body-says (some (Json.number _)) none = refl
row_body-says (some (Json.number _)) (some Json.null) = refl
row_body-says (some (Json.number _)) (some (Json.number _)) = refl
row_body-says (some (Json.number _)) (some (Json.string _)) = refl
row_body-says (some (Json.number _)) (some (Json.boolean _)) = refl
row_body-says (some (Json.number _)) (some (Json.array _)) = refl
row_body-says (some (Json.number _)) (some (Json.object _)) = refl
row_body-says (some (Json.string _)) none = refl
row_body-says (some (Json.string _)) (some Json.null) = refl
row_body-says (some (Json.string _)) (some (Json.number _)) = refl
row_body-says (some (Json.string _)) (some (Json.string _)) = refl
row_body-says (some (Json.string _)) (some (Json.boolean _)) = refl
row_body-says (some (Json.string _)) (some (Json.array _)) = refl
row_body-says (some (Json.string _)) (some (Json.object _)) = refl
row_body-says (some (Json.boolean _)) none = refl
row_body-says (some (Json.boolean _)) (some Json.null) = refl
row_body-says (some (Json.boolean _)) (some (Json.number _)) = refl
row_body-says (some (Json.boolean _)) (some (Json.string _)) = refl
row_body-says (some (Json.boolean _)) (some (Json.boolean _)) = refl
row_body-says (some (Json.boolean _)) (some (Json.array _)) = refl
row_body-says (some (Json.boolean _)) (some (Json.object _)) = refl
row_body-says (some (Json.array _)) none = refl
row_body-says (some (Json.array _)) (some Json.null) = refl
row_body-says (some (Json.array _)) (some (Json.number _)) = refl
row_body-says (some (Json.array _)) (some (Json.string _)) = refl
row_body-says (some (Json.array _)) (some (Json.boolean _)) = refl
row_body-says (some (Json.array _)) (some (Json.array _)) = refl
row_body-says (some (Json.array _)) (some (Json.object _)) = refl
row_body-says (some (Json.object _)) none = refl
row_body-says (some (Json.object _)) (some Json.null) = refl
row_body-says (some (Json.object _)) (some (Json.number _)) = refl
row_body-says (some (Json.object _)) (some (Json.string _)) = refl
row_body-says (some (Json.object _)) (some (Json.boolean _)) = refl
row_body-says (some (Json.object _)) (some (Json.array _)) = refl
row_body-says (some (Json.object _)) (some (Json.object _)) = refl

read_row-says : (row : Map Json) → read_row row ≡ row_says row
unfolding read_row number_field string_field
read_row-says row = row_body-says (lookup (codes "n") row) (lookup (codes "t") row)

-- The first row that is in error.
abbrev error_of : Result (Option (ℤ × Text)) → Option Error → Option Error
error_of (err e) later = some e
error_of (ok _) later = later

abbrev pub first_error : List (Map Json) → Option Error
first_error [] = none
first_error (row ∷ rows) = error_of (row_says row) (first_error rows)

-- The text of a line, by the last row that has it.
abbrev first_of : Option Text → Option Text → Option Text
first_of none b = b
first_of (some a) b = some a

abbrev line_in : Result (Option (ℤ × Text)) → ℤ → Option Text
line_in (ok (some (n, t))) k = if eq_ℤ n k then some t else none
line_in _ k = none

abbrev pub last_line : List (Map Json) → ℤ → Option Text
last_line [] k = none
last_line (row ∷ rows) k = first_of (last_line rows k) (line_in (row_says row) k)

abbrev pub IsDecoded : List (Map Json) → Log → Result Log → Type 0
IsDecoded rows log (err e) = first_error rows ≡ some e
IsDecoded rows log (ok l) =
    (first_error rows ≡ none)
    × ((k : ℤ) → line_at l k ≡ first_of (last_line rows k) (line_at log k))

line_at-set_line :
    (n : ℤ) (t : Text) (log : Log) (k : ℤ)
    → line_at (set_line n t log) k ≡ (if eq_ℤ n k then some t else line_at log k)
unfolding line_at set_line
line_at-set_line n t [] k = refl
line_at-set_line n t ((j, u) ∷ log) k =
    ground (arith, eq_ℤ_iff j n, eq_ℤ_iff j k, eq_ℤ_iff n k, line_at-set_line n t log k)

one_line :
    (later : Option Text) (o : Option (ℤ × Text)) (log : Log) (k : ℤ)
    → first_of later (line_at (with_line o log) k)
      ≡ first_of (first_of later (line_in (ok o) k)) (line_at log k)
one_line (some t) o log k = refl
one_line none none log k = refl
one_line none (some (n, t)) log k = elim (Bool-cases (eq_ℤ n k)) [
  | inl e ↦ rw (line_at-set_line n t log k) (rw e refl)
  | inr e ↦ rw (line_at-set_line n t log k) (rw e refl)
]

one_more :
    (o : Option (ℤ × Text)) (rows : List (Map Json)) (row : Map Json) (log : Log)
    → row_says row ≡ ok o
    → (r : Result Log) → IsDecoded rows (with_line o log) r
    → IsDecoded (row ∷ rows) log r
one_more o rows row log h (err e) q = ap (λ y. error_of y (first_error rows)) h ∙ q
one_more o rows row log h (ok l) (q, p) = (
  ap (λ y. error_of y (first_error rows)) h ∙ q,
  λ k.
      p k
      ∙ one_line (last_line rows k) o log k
      ∙ ap (λ y. first_of (first_of (last_line rows k) (line_in y k)) (line_at log k)) (sym h),
)

next_row :
    (x : Result (Option (ℤ × Text))) (rows : List (Map Json)) (row : Map Json) (log : Log)
    → row_says row ≡ x
    → ((log' : Log) → IsDecoded rows log' (read_rows rows log'))
    → IsDecoded (row ∷ rows) log (x >=> λ o. read_rows rows (with_line o log))
next_row (err e) rows row log h next = ap (λ y. error_of y (first_error rows)) h
next_row (ok o) rows row log h next =
    one_more o rows row log h (read_rows rows (with_line o log)) (next (with_line o log))

read_rows-IsDecoded : (rows : List (Map Json)) (log : Log) → IsDecoded rows log (read_rows rows log)
unfolding read_rows
read_rows-IsDecoded [] log = (refl, λ k. refl)
read_rows-IsDecoded (row ∷ rows) log =
    next_row (read_row row) rows row log (sym (read_row-says row))
      (λ log'. read_rows-IsDecoded rows log')

copied :
    (copy : Log → Result Log)
    → ((l : Log) → copy l ≡ ok l)
    → (rows : List (Map Json)) (r : Result Log) → IsDecoded rows no_lines r
    → IsDecoded rows no_lines (r >=> copy)
copied copy copies rows (err e) q = q
copied copy copies rows (ok l) q = subst (IsDecoded rows no_lines) (sym (copies l)) q

-- Where copier.Copy copies, a task's log decoded from an array of objects is the error of the first
-- row that has both a number and a text, but one of the wrong type; or, if there is no such row,
-- the lines of the rows that have both, each at its number less one, the last row of a number being
-- the one that counts.
pub unmarshal_log-IsDecoded :
    (copy : Log → Result Log)
    → ((l : Log) → copy l ≡ ok l)
    → (v : Json) (rows : List (Map Json)) → (as_list v >=> maps_of) ≡ ok rows
    → IsDecoded rows no_lines (unmarshal_log copy v)
unfolding unmarshal_log
unmarshal_log-IsDecoded copy copies v rows h =
    rw h (copied copy copies rows (read_rows rows no_lines) (read_rows-IsDecoded rows no_lines))
