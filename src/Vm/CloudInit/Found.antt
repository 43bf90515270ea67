-- ===== src/Vm/CloudInit/Found.antt =====
-- What the requests for one storage in deleteCloudInitISO have found and asked for.
use Prim.Native.Nat.{suc}
use go_proxmox.Prelude.{
  ◌++◌, ◌≢◌, ℕ, ◌*◌, ◌^◌, ◌<◌, ◌≡◌, refl, true, false, Option, none, some, List, [], Bool-cases,
  inl, inr,
}
use go_proxmox.Prelude.Text.{Text, codes, is_empty}
use go_proxmox.Errors.{Result, ok, err}
use go_proxmox.Json.{Json}
use go_proxmox.World.{Env}
use go_proxmox.Client.{State}
use go_proxmox.Client.Ends.{Ends, Ends-bind, Ends-mono, IsTotal, Ends-bind_eq}
use go_proxmox.Session.Req.{req, get, delete}
use go_proxmox.Tasks.{Task, TaskLib}
use go_proxmox.Tasks.Ping.{IsAccepting, IsClock, Later, req_accepted-ends}
use go_proxmox.Vm.{VirtualMachine, task_of}
use go_proxmox.Vm.CloudInit.Words.{is_empty_sound, is_empty-append}
use go_proxmox.Vm.CloudInit.{
  Storage, Iso, Decoders, decoded, with_vol_id, iso_name, fetch, get_content, iso, iso_delete,
}
use go_proxmox.Vm.CloudInit.Cleared.{the_volume, contents, NoIso, IsVolume}

not_nil : (t : Text) → t ≡ [] → is_empty t ≢ false
not_nil t q h = cc

module _ (env : Env) (accepting : IsAccepting env) (clock : IsClock env) (lib : TaskLib)
    (dec : Decoders) (f rounds : ℕ) (v : VirtualMachine)
    (enough : 5 * 10 ^ 9 < rounds * 10 ^ 9) where
  req-IsTotal :
      (method path : Text) (body : Option Text) (s : State)
      → IsTotal (req env (suc f) method path body true s)
  req-IsTotal method path body s =
      Ends-mono _ (Later env accepting clock s) _
        (req_accepted-ends env accepting clock f method path body true s) (λ _ _ _. tt)

  pub fetch-IsTotal :
      {A : Type 0} (path : Text) (blank : A) (decode : Json → Result A) (s : State)
      → IsTotal (fetch env lib dec (suc f) (suc rounds) v path blank decode s)
  unfolding fetch get
  fetch-IsTotal path blank decode s =
      Ends-bind_eq (get env (suc f) path true) s _ (req-IsTotal (codes "GET") path none s) _
        (λ a t _. tt) (λ e t _. tt)

  pub delete-IsTotal : (path : Text) (s : State) → IsTotal (delete env (suc f) path true s)
  unfolding delete
  delete-IsTotal path s = req-IsTotal (codes "DELETE") path none s

  pub get-IsTotal : (path : Text) (s : State) → IsTotal (get env (suc f) path true s)
  unfolding get
  get-IsTotal path s = req-IsTotal (codes "GET") path none s

  abbrev lookup_path : Storage → Text
  lookup_path x =
      contents env lib dec (suc f) (suc rounds) v x
      ++ (codes "/" ++ the_volume env lib dec (suc f) (suc rounds) v x)

  abbrev Read : Storage → State → Result (Option Iso) → State → Type 0
  Read x s (ok (some k)) t =
      (j : Json) × (get env (suc f) (lookup_path x) true s ≡ some (ok (some j), t))
      × (dec.iso j ≡ ok (some k))
  Read x s _ t =
      (a : Result (Option Json)) × (get env (suc f) (lookup_path x) true s ≡ some (a, t))
      × NoIso env lib dec (suc f) (suc rounds) v a

  -- What a lookup of the ISO has found.
  abbrev pub Looked : Storage → State → Result Iso → State → Type 0
  Looked x s (ok i) t =
      (j : Json) × (k : Iso) × (get env (suc f) (lookup_path x) true s ≡ some (ok (some j), t))
      × (dec.iso j ≡ ok (some k))
      × IsVolume env lib dec (suc f) (suc rounds) v k x i.vol_id
      × (is_empty i.vol_id ≡ false)
  Looked x s (err e) t =
      (a : Result (Option Json)) × (get env (suc f) (lookup_path x) true s ≡ some (a, t))
      × NoIso env lib dec (suc f) (suc rounds) v a

  parsed :
      (x : Storage) (s t : State) (j : Json) (r : Result (Option Iso))
      → get env (suc f) (lookup_path x) true s ≡ some (ok (some j), t)
      → dec.iso j ≡ r
      → Read x s r t
  parsed x s t j (ok (some k)) g e = (j, g, e)
  parsed x s t j (ok none) g e = (ok (some j), g, λ k q. cc)
  parsed x s t j (err _) g e = (ok (some j), g, λ k q. cc)

  read_iso :
      (x : Storage) (s t : State) (a : Option Json)
      → get env (suc f) (lookup_path x) true s ≡ some (ok a, t)
      → Read x s (decoded env lib dec (suc f) (suc rounds) v none dec.iso a) t
  read_iso x s t none g = (ok none, g, tt)
  read_iso x s t (some j) g = parsed x s t j (dec.iso j) g refl

  iso_made :
      (x : Storage) (s t : State) (r : Option Iso)
      → Read x s (ok r) t
      → Looked x s (with_vol_id env lib dec (suc f) (suc rounds) v x r) t
  iso_made x s t none q = q
  iso_made x s t (some k) (j, g, d) = elim (Bool-cases (is_empty k.vol_id)) [
    | inl e ↦ rw e (
      j,
      k,
      g,
      d,
      inr (is_empty_sound k.vol_id e, refl),
      is_empty-append x.name b':' (codes "iso/" ++ iso_name env lib dec (suc f) (suc rounds) v),
    )
    | inr e ↦ rw e (j, k, g, d, inl ((λ q. not_nil k.vol_id q e), refl), e)
  ]

  pub iso-Looked :
      (x : Storage) (s : State) → Ends (iso env lib dec (suc f) (suc rounds) v x s) (Looked x s)
  unfolding iso fetch
  iso-Looked x s =
      Ends-bind (fetch env lib dec (suc f) (suc rounds) v (lookup_path x) none dec.iso) _ s
        (Read x s) (Looked x s)
        (Ends-bind_eq (get env (suc f) (lookup_path x) true) s (Read x s)
          (get-IsTotal (lookup_path x) s) _ (λ a t g. read_iso x s t a g) (λ e t g. (err e, g, tt)))
        (λ r t q. iso_made x s t r q) (λ e t q. q)

  abbrev pub Listed : Storage → State → Result (Option (List (Option Text))) → State → Type 0
  Listed x s (ok (some content)) t =
      (j : Json) × (get env (suc f) (contents env lib dec (suc f) (suc rounds) v x) true s
        ≡ some (ok (some j), t))
      × (dec.content j ≡ ok (some content))
  Listed x s _ t = Unit

  rows_made :
      (x : Storage) (s t : State) (j : Json) (r : Result (Option (List (Option Text))))
      → get env (suc f) (contents env lib dec (suc f) (suc rounds) v x) true s
        ≡ some (ok (some j), t)
      → dec.content j ≡ r
      → Listed x s r t
  rows_made x s t j (ok (some l)) g e = (j, g, e)
  rows_made x s t j (ok none) g e = tt
  rows_made x s t j (err _) g e = tt

  read_content :
      (x : Storage) (s t : State) (a : Option Json)
      → get env (suc f) (contents env lib dec (suc f) (suc rounds) v x) true s ≡ some (ok a, t)
      → Listed x s (decoded env lib dec (suc f) (suc rounds) v none dec.content a) t
  read_content x s t none g = tt
  read_content x s t (some j) g = rows_made x s t j (dec.content j) g refl

  pub content-Listed :
      (x : Storage) (s : State)
      → Ends (get_content env lib dec (suc f) (suc rounds) v x s) (Listed x s)
  unfolding get_content fetch
  content-Listed x s =
      Ends-bind_eq (get env (suc f) (contents env lib dec (suc f) (suc rounds) v x) true) s
        (Listed x s) (get-IsTotal (contents env lib dec (suc f) (suc rounds) v x) s) _
        (λ a t g. read_content x s t a g) (λ e t g. tt)

  abbrev pub Asked : Storage → Iso → State → Result (Option Task) → State → Type 0
  Asked x i s (ok (some task)) t =
      (a : Option Json) × (delete env (suc f)
          (contents env lib dec (suc f) (suc rounds) v x ++ (codes "/" ++ i.vol_id)) true s
        ≡ some (ok a, t))
      × (task_of a ≡ ok (some task))
  Asked x i s _ t = Unit

  deletion_made :
      (x : Storage) (i : Iso) (s t : State) (a : Option Json) (r : Result (Option Task))
      → delete env
          (suc f)
          (contents env lib dec (suc f) (suc rounds) v x ++ (codes "/" ++ i.vol_id))
          true
          s
        ≡ some (ok a, t)
      → task_of a ≡ r
      → Asked x i s r t
  deletion_made x i s t a (ok (some task)) g e = (a, g, e)
  deletion_made x i s t a (ok none) g e = tt
  deletion_made x i s t a (err _) g e = tt

  pub iso_delete-Asked :
      (x : Storage) (i : Iso) (s : State)
      → is_empty i.vol_id ≡ false
      → Ends (iso_delete env lib dec (suc f) (suc rounds) v x i s) (Asked x i s)
  unfolding iso_delete
  iso_delete-Asked x i s h = rw h (
      Ends-bind_eq
        (delete env (suc f)
          (contents env lib dec (suc f) (suc rounds) v x ++ (codes "/" ++ i.vol_id)) true)
        s (Asked x i s) (delete-IsTotal _ s) _ (λ a t g. deletion_made x i s t a (task_of a) g refl)
        (λ e t g. tt))
