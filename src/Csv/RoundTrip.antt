-- ===== src/Csv/RoundTrip.antt =====
-- A list of fields that is written and read again.
use go_proxmox.Prelude.{◌≡◌, refl, false, none, some, List, [], ◌∷◌, All, ap}
use go_proxmox.Prelude.Text.{Text, codes, is_empty, join, trim_space, valid_utf8}
use go_proxmox.Prelude.Text.Laws.{Lacks, split-join}
use go_proxmox.Errors.{ok}
use go_proxmox.Json.{as_list, as_text}
use go_proxmox.Csv.{Csv, fields_of, unmarshal_csv, marshal_csv}

-- A field of a list: not empty, without commas, and without white space around it.
abbrev pub IsField : Text → Type 0
IsField t = (is_empty t ≡ false) × Lacks b',' t × (trim_space t ≡ t)

abbrev pub AreFields : Csv → Type 0
AreFields none = Unit
AreFields (some l) = All IsField l × (valid_utf8 (join (codes ",") l) ≡ join (codes ",") l)

-- An empty list comes back as a nil one.
abbrev pub or_nil : Csv → Csv
or_nil none = none
or_nil (some []) = none
or_nil (some (t ∷ ts)) = some (t ∷ ts)

fields-kept : (l : List Text) → All IsField l → fields_of l ≡ l
fields-kept [] h = refl
fields-kept (t ∷ ts) (f, h) = rw (f.2) (rw (f.0) (ap (λ k. t ∷ k) (fields-kept ts h)))

All-Lacks : (l : List Text) → All IsField l → All (Lacks b',') l
All-Lacks [] h = tt
All-Lacks (t ∷ ts) (f, h) = (f.1, All-Lacks ts h)

join_not_empty :
    (t : Text) (ts : List Text) → is_empty t ≡ false → is_empty (join (codes ",") (t ∷ ts)) ≡ false
unfolding join
join_not_empty [] ts h = cc
join_not_empty (c ∷ t) [] h = refl
join_not_empty (c ∷ t) (u ∷ us) h = refl

-- A CSV whose elements are not empty, hold no comma and have no white space around them, and which
-- is valid UTF-8, is read back as it was written, but for an empty one, which comes back as nil.
pub unmarshal_csv-marshal_csv :
    (c : Csv) → AreFields c → unmarshal_csv (marshal_csv c) ≡ ok (or_nil c)
unfolding unmarshal_csv marshal_csv as_list as_text
unmarshal_csv-marshal_csv none h = refl
unmarshal_csv-marshal_csv (some []) h = unfold join valid_utf8 in refl
unmarshal_csv-marshal_csv (some (t ∷ ts)) (h, valid) = rw valid (
    rw (join_not_empty t ts h.0.0) (
      rw (split-join b',' t ts (All-Lacks (t ∷ ts) h))
        (ap (λ l. ok (some l)) (fields-kept (t ∷ ts) h))))
