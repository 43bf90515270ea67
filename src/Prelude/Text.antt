-- ===== src/Prelude/Text.antt =====
-- Go strings as lists of bytes, with what the source uses of package strings.
pub mod Laws
use Prim.Native.Char.{code}
use Prim.Native.String.{String}
use Prim.Native.Nat.{ℕ, zero, suc}
use mathlib.Core.Bool.{Bool, true, false, ◌&&◌, ◌||◌}
use mathlib.Core.List.{List, [], ◌∷◌, ◌++◌, reverse}
use mathlib.Core.Option.{Option, none, some}
use go_proxmox.Prelude.Tests.{leb, ◌==◌, if◌then◌else◌}

abbrev pub Text : Type 0
Text = List ℕ

-- The bytes of an ASCII literal.
abbrev pub codes : String → Text
codes String.[] = []
codes (String.◌∷◌ c s) = code c ∷ codes s

-- `s == t` on Go strings.
unfoldable pub text_eq : Text → Text → Bool
text_eq [] [] = true
text_eq (a ∷ s) (b ∷ t) = a == b && text_eq s t
text_eq _ _ = false

-- `s == ""`.
abbrev pub is_empty : Text → Bool
is_empty [] = true
is_empty (_ ∷ _) = false

-- `strings.HasPrefix(s, prefix)`.
unfoldable pub has_prefix : Text → Text → Bool
has_prefix s [] = true
has_prefix [] (b ∷ p) = false
has_prefix (a ∷ s) (b ∷ p) = a == b && has_prefix s p

-- `strings.Contains(s, sub)`.
unfoldable pub contains : Text → Text → Bool
unfolding has_prefix
contains [] sub = has_prefix [] sub
contains (a ∷ s) sub = has_prefix (a ∷ s) sub || contains s sub

-- `strings.TrimPrefix(s, prefix)`.
unfoldable pub drop_prefix : Text → Text → Option Text
drop_prefix s [] = some s
drop_prefix [] (b ∷ p) = none
drop_prefix (a ∷ s) (b ∷ p) = if a == b then drop_prefix s p else none

unfoldable pub trim_prefix : Text → Text → Text
unfolding drop_prefix
trim_prefix s p = elim (drop_prefix s p) [ none ↦ s | some rest ↦ rest ]

-- One byte put in front of the first part.
abbrev pub cons_first : ℕ → List Text → List Text
cons_first c [] = (c ∷ []) ∷ []
cons_first c (p ∷ ps) = (c ∷ p) ∷ ps

-- `strings.Split(s, sep)` for a separator of one byte; the result is never empty.
unfoldable pub split : ℕ → Text → List Text
split sep [] = [] ∷ []
split sep (c ∷ s) = if c == sep then [] ∷ split sep s else cons_first c (split sep s)

-- `strings.Join(parts, sep)`.
unfoldable pub join : Text → List Text → Text
join sep [] = []
join sep (p ∷ []) = p
join sep (p ∷ q ∷ ps) = p ++ (sep ++ join sep (q ∷ ps))

-- The ASCII white space.
abbrev pub is_space : ℕ → Bool
is_space c = c == b' ' || (leb 9 c && leb c 13)

abbrev pub is_digit : ℕ → Bool
is_digit c = leb b'0' c && leb c b'9'

-- The length of the white space that a text begins with, in UTF-8: a character of Unicode's, or none.
abbrev three_bytes : ℕ → ℕ → ℕ → Bool
three_bytes c d e =
    (c == 225 && (d == 154 && e == 128))
    || ((c == 226
          && (d == 128 && ((leb 128 e && leb e 138) || (e == 168 || (e == 169 || e == 175)))))
        || ((c == 226 && (d == 129 && e == 159)) || (c == 227 && (d == 128 && e == 128))))

abbrev wide_space : ℕ → Text → ℕ
wide_space c [] = 0
wide_space c (d ∷ []) = if c == 194 && (d == 133 || d == 160) then 2 else 0
wide_space c (d ∷ (e ∷ _)) =
    if c == 194 && (d == 133 || d == 160) then 2 else if three_bytes c d e then 3 else 0

abbrev space_width : ℕ → Text → ℕ
space_width c s = if is_space c then 1 else wide_space c s

-- Behind so many bytes more, the text without its leading white space.
unfoldable pub trim_from : ℕ → Text → Text
trim_from k [] = []
trim_from zero (c ∷ s) = elim (space_width c s) [ zero ↦ c ∷ s | suc w ↦ trim_from w s ]
trim_from (suc k) (c ∷ s) = trim_from k s

unfoldable pub trim_right : Text → Text
unfolding trim_from
trim_right [] = []
trim_right (c ∷ s) =
    let rest = trim_right s in if is_empty (trim_from 0 (c ∷ s)) then [] else c ∷ rest

-- `strings.TrimSpace(s)`.
unfoldable pub trim_space : Text → Text
unfolding trim_from trim_right
trim_space s = trim_right (trim_from 0 s)

-- How many bytes of a valid character of UTF-8 follow its first, or none if there is no such.
abbrev follows : ℕ → ℕ → ℕ → Bool
follows low d high = leb low d && leb d high

abbrev more_bytes : ℕ → Text → Option ℕ
more_bytes c s =
    if leb c 127
    then some 0
    else if follows 194 c 223
    then (elim s [ [] ↦ none | d ∷ _ ↦ if follows 128 d 191 then some 1 else none ])
    else if follows 224 c 239
    then (elim s [
      | [] ↦ none
      | d ∷ r ↦ elim r [
        | [] ↦ none
        | e ∷ _ ↦
            if follows (if c == 224 then 160 else 128) d (if c == 237 then 159 else 191)
              && follows 128 e 191
            then some 2
            else none
      ]
    ])
    else if follows 240 c 244
    then (elim s [
      | [] ↦ none
      | d ∷ r ↦ elim r [
        | [] ↦ none
        | e ∷ q ↦ elim q [
          | [] ↦ none
          | g ∷ _ ↦
              if follows (if c == 240 then 144 else 128) d (if c == 244 then 143 else 191)
                && (follows 128 e 191 && follows 128 g 191)
              then some 3
              else none
        ]
      ]
    ])
    else none

-- Behind so many bytes that are kept, a text as encoding/json writes it: the bytes that are no valid
-- UTF-8 are each replaced by U+FFFD.
unfoldable pub valid_from : ℕ → Text → Text
valid_from k [] = []
valid_from (suc k) (c ∷ s) = c ∷ valid_from k s
valid_from zero (c ∷ s) = elim (more_bytes c s) [
  | none ↦ 239 ∷ (191 ∷ (189 ∷ valid_from 0 s))
  | some w ↦ c ∷ valid_from w s
]

unfoldable pub valid_utf8 : Text → Text
unfolding valid_from
valid_utf8 s = valid_from 0 s
