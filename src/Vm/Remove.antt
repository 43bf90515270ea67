-- ===== src/Vm/Remove.antt =====
-- The loop of RemoveTag, on tags of which no two are the same.
use Prim.Native.Nat.{suc}
use go_proxmox.Prelude.{
  ℕ, ◌+◌, ◌-◌, ◌≡◌, refl, ◌≢◌, true, false, some, List, [], ◌∷◌, ◌++◌, arith, All, ap, ◌∙◌,
  All-append, length, length-append, take, drop, get_elem?, leb, append-nil,
}
use go_proxmox.Prelude.Text.{Text, text_eq}
use go_proxmox.Prelude.Text.Laws.{text_eq_refl, text_eq_sound}
use go_proxmox.Vm.{shift_down, remove_at, remove_from}

-- No element is `v`.
abbrev pub Without : Text → List Text → Type 0
Without v = All (λ t. t ≢ v)

get_at :
    (pre : List Text) (x : Text) (post : List Text)
    → get_elem? (pre ++ x ∷ post) (length pre) ≡ some x
get_at [] x post = refl
get_at (p ∷ pre) x post = get_at pre x post

pub take-length : (xs ys : List Text) → take (length xs) (xs ++ ys) ≡ xs
take-length [] ys = refl
take-length (x ∷ xs) ys = ap (λ l. x ∷ l) (take-length xs ys)

drop-length : (xs ys : List Text) → drop (length xs) (xs ++ ys) ≡ ys
drop-length [] ys = refl
drop-length (x ∷ xs) ys = drop-length xs ys

take_all : (xs : List Text) → take (length xs) xs ≡ xs
take_all [] = refl
take_all (x ∷ xs) = ap (λ l. x ∷ l) (take_all xs)

-- The last of a list that is not empty, as a list.
abbrev pub last_of : Text → List Text → List Text
last_of x [] = x ∷ []
last_of x (y ∷ ys) = last_of y ys

drop_last : (x : Text) (ys : List Text) → drop (length ys) (x ∷ ys) ≡ last_of x ys
drop_last x [] = refl
drop_last x (y ∷ ys) = drop_last y ys

length-last_of : (x : Text) (ys : List Text) → length (last_of x ys) ≡ 1
length-last_of x [] = refl
length-last_of x (y ∷ ys) = length-last_of y ys

last_of-Without : (v x : Text) (ys : List Text) → x ≢ v → Without v ys → Without v (last_of x ys)
last_of-Without v x [] n h = (n, tt)
last_of-Without v x (y ∷ ys) n h = last_of-Without v y ys h.0 h.1

snoc_append :
    (pre : List Text) (x : Text) (post : List Text) → (pre ++ (x ∷ [])) ++ post ≡ pre ++ (x ∷ post)
snoc_append [] x post = refl
snoc_append (p ∷ pre) x post = ap (λ l. p ∷ l) (snoc_append pre x post)

length-snoc : (pre : List Text) (x : Text) → length (pre ++ (x ∷ [])) ≡ length pre + 1
length-snoc pre x = length-append pre (x ∷ [])

pub text_ne : (x v : Text) → x ≢ v → text_eq x v ≡ false
text_ne x v n = ground (arith, text_eq_sound x v)

module _ (v : Text) where
  step_other :
      (left len : ℕ) (pre : List Text) (x : Text) (rest : List Text)
      → x ≢ v
      → remove_from (suc left) (length pre) v (pre ++ (x ∷ rest)) len
        ≡ remove_from left (length (pre ++ (x ∷ []))) v ((pre ++ (x ∷ [])) ++ rest) len
  unfolding remove_from
  step_other left len pre x rest n =
      ap (remove_at (remove_from left (length pre + 1) v) (length pre) v (pre ++ (x ∷ rest)) len)
        (get_at pre x rest)
      ∙ rw (length-snoc pre x, snoc_append pre x rest, text_ne x v n) refl

  -- The loop passes over elements that are not `v`.
  scan :
      (k len : ℕ) (pre mid rest : List Text)
      → Without v mid
      → remove_from (length mid + k) (length pre) v (pre ++ (mid ++ rest)) len
        ≡ remove_from k (length (pre ++ mid)) v ((pre ++ mid) ++ rest) len
  scan k len pre [] rest h =
      rw (append-nil pre) (ap (λ n. remove_from n (length pre) v (pre ++ rest) len) (omega arith))
  scan k len pre (x ∷ mid) rest h =
      ap (λ n. remove_from n (length pre) v (pre ++ (x ∷ (mid ++ rest))) len) (omega arith)
      ∙ step_other (length mid + k) len pre x (mid ++ rest) h.0
      ∙ scan k len (pre ++ (x ∷ [])) mid rest h.1
      ∙ ap (λ l. remove_from k (length l) v (l ++ rest) len) (snoc_append pre x mid)

  -- The parts of the array around the hit.
  above : (pre post : List Text) → drop (length pre + 1) (pre ++ (v ∷ post)) ≡ post
  above [] post = refl
  above (p ∷ pre) post =
      let e : length (p ∷ pre) + 1 ≡ suc (length pre + 1) = omega arith in rw e (above pre post)

  end_of :
      (pre post : List Text)
      → drop (length (pre ++ (v ∷ post)) - 1) (pre ++ (v ∷ post)) ≡ last_of v post
  end_of [] post =
      let e : length (v ∷ post) - 1 ≡ length post = omega arith in rw e (drop_last v post)
  end_of (p ∷ pre) post =
      let e : length (p ∷ (pre ++ (v ∷ post))) - 1 ≡ suc (length (pre ++ (v ∷ post)) - 1) =
        omega (arith, length-append pre (v ∷ post)) in
      rw e (end_of pre post)

  shifted :
      (pre post : List Text)
      → shift_down (length pre) (length (pre ++ (v ∷ post))) (pre ++ (v ∷ post))
        ≡ pre ++ (post ++ last_of v post)
  unfolding shift_down
  shifted pre post =
      rw (take_all (pre ++ (v ∷ post)), take-length pre (v ∷ post), above pre post, end_of pre post)
        refl

  step_hit :
      (left : ℕ) (pre post : List Text)
      → remove_from (suc left) (length pre) v (pre ++ (v ∷ post)) (length (pre ++ (v ∷ post)))
        ≡ remove_from left
            (length pre + 1)
            v
            (pre ++ (post ++ last_of v post))
            (length (pre ++ post))
  unfolding remove_from
  step_hit left pre post =
      let fits : leb (length pre + 1) (length (pre ++ (v ∷ post))) ≡ true =
        ground (arith, length-append pre (v ∷ post)) in
      let shorter : length (pre ++ (v ∷ post)) - 1 ≡ length (pre ++ post) =
        omega (arith, length-append pre (v ∷ post), length-append pre post) in
      ap
        (remove_at (remove_from left (length pre + 1) v) (length pre) v (pre ++ (v ∷ post))
          (length (pre ++ (v ∷ post))))
        (get_at pre v post)
      ∙ rw (text_eq_refl v, fits, shorter) (rw (shifted pre post) refl)

  kept :
      (pre mid : List Text) (len : ℕ)
      → Without v mid
      → remove_from (length mid) (length pre) v (pre ++ mid) len ≡ some (pre ++ mid, len)
  kept pre [] len h = unfold remove_from in refl
  kept pre (x ∷ mid) len h =
      step_other (length mid) len pre x mid h.0
      ∙ kept (pre ++ (x ∷ [])) mid len h.1
      ∙ ap (λ l. some (l, len)) (snoc_append pre x mid)

  -- After the hit, nothing else is found.
  rest_kept :
      (pre post : List Text) (len : ℕ)
      → Without v post
      → remove_from (length post) (length pre + 1) v (pre ++ (post ++ last_of v post)) len
        ≡ some (pre ++ (post ++ last_of v post), len)
  rest_kept pre [] len h = unfold remove_from in refl
  rest_kept pre (p ∷ ps) len h =
      let l = ps ++ last_of p ps in
      let none_of : Without v l =
        All-append _ ps (last_of p ps) h.1 (last_of-Without v p ps h.0 h.1) in
      let eq : suc (length ps) ≡ length l =
        omega (arith, length-append ps (last_of p ps), length-last_of p ps) in
      rw (eq, ← length-snoc pre p, ← snoc_append pre p l) (kept (pre ++ (p ∷ [])) l len none_of)

  -- The loop leaves, of tags among which `v` stands once, the others, in their order.
  pub remove_from_once :
      (pre post : List Text)
      → Without v pre
      → Without v post
      → remove_from
          (length (pre ++ (v ∷ post)))
          0
          v
          (pre ++ (v ∷ post))
          (length (pre ++ (v ∷ post)))
        ≡ some (pre ++ (post ++ last_of v post), length (pre ++ post))
  remove_from_once pre post hp hq =
      ap (λ n. remove_from n 0 v (pre ++ (v ∷ post)) (length (pre ++ (v ∷ post))))
        (omega (arith, length-append pre (v ∷ post)))
      ∙ scan (suc (length post)) (length (pre ++ (v ∷ post))) [] pre (v ∷ post) hp
      ∙ step_hit (length post) pre post
      ∙ rest_kept pre post (length (pre ++ post)) hq
