-- ===== src/Csv/Tests.antt =====
-- A run of the law on lists.
use go_proxmox.Prelude.{◌≡◌, refl, some, [], ◌∷◌, arith}
use go_proxmox.Prelude.Text.{codes, trim_space, trim_from, trim_right, valid_utf8, valid_from, join}
use go_proxmox.Errors.{ok}
use go_proxmox.Csv.{Csv, unmarshal_csv, marshal_csv}
use go_proxmox.Csv.RoundTrip.{unmarshal_csv-marshal_csv}

abbrev groups : Csv
groups = some (codes "admins" ∷ codes "ops" ∷ [])

unmarshal_csv_example : unmarshal_csv (marshal_csv groups) ≡ ok groups
unfolding trim_space trim_from trim_right valid_utf8 valid_from join
unmarshal_csv_example =
    unmarshal_csv-marshal_csv groups
      (((refl, ground arith, refl), ((refl, ground arith, refl), tt)), refl)
