-- ===== src/Tasks/Log/Tests.antt =====
-- A run of the law on logs.
use go_proxmox.Prelude.{◌≡◌, refl, List, [], ◌∷◌}
use go_proxmox.Prelude.Text.{codes, text_eq}
use go_proxmox.Prelude.Int.{pos}
use go_proxmox.Prelude.Map.{Map, insert}
use go_proxmox.Errors.{ok}
use go_proxmox.Json.{Json, Items, Members, as_list, as_map}
use go_proxmox.Tasks.{◌>=>◌}
use go_proxmox.Tasks.Log.{maps_of, no_lines, unmarshal_log, IsDecoded, unmarshal_log-IsDecoded}

-- Two lines, and a row without a text.
abbrev answer : Json
answer = Json.array (
    Items.cons
      (Json.object (
        Members.member (codes "n") (Json.number (pos 1))
          (Members.member (codes "t") (Json.string (codes "starting")) Members.end)))
      (Items.cons (Json.object (Members.member (codes "n") (Json.number (pos 2)) Members.end))
        Items.nil))

abbrev two_rows : List (Map Json)
two_rows =
    ((codes "n", Json.number (pos 1)) ∷ (codes "t", Json.string (codes "starting")) ∷ [])
    ∷ ((codes "n", Json.number (pos 2)) ∷ [])
    ∷ []

answer-rows : (as_list answer >=> maps_of) ≡ ok two_rows
unfolding as_list as_map insert text_eq
answer-rows = refl

unmarshal_log_example : IsDecoded two_rows no_lines (unmarshal_log (λ l. ok l) answer)
unmarshal_log_example = unmarshal_log-IsDecoded (λ l. ok l) (λ l. refl) answer two_rows answer-rows
