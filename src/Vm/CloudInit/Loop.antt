-- ===== src/Vm/CloudInit/Loop.antt =====
-- The loop of deleteCloudInitISO ends, and clears the storages.
use Prim.Native.Nat.{suc}
use go_proxmox.Prelude.{
  arith, if◌then◌else◌, ℕ, ◌*◌, ◌^◌, ◌<◌, ◌≡◌, refl, Bool, true, false, Option, none, some, List,
  [], ◌∷◌, Bool-cases, inl, inr,
}
use go_proxmox.Prelude.Text.{Text}
use go_proxmox.Prelude.Int.{seconds_of, seconds_of_small}
use go_proxmox.Errors.{Error, Result, ok, err}
use go_proxmox.World.{Env}
use go_proxmox.Client.{State, pure}
use go_proxmox.Client.Ends.{Ends, Ends-bind, Ends-try, Ends-mono, IsTotal, Ends-bind_eq}
use go_proxmox.Tasks.{Task, TaskLib, wait_for}
use go_proxmox.Tasks.Ping.{IsAccepting, IsClock}
use go_proxmox.Tasks.Wait.{StopsWith, wait-Stopped}
use go_proxmox.Vm.{VirtualMachine}
use go_proxmox.Vm.CloudInit.Words.{not_candidate, All-volume}
use go_proxmox.Vm.CloudInit.{
  Storage, Iso, Decoders, has_volume, get_content, volid, iso, iso_delete, clear_storage,
  clear_storages, is_candidate, after_listing, after_wait, after_delete, after_lookup,
}
use go_proxmox.Vm.CloudInit.Cleared.{
  the_volume, Freed, absent, deleted, all_free, passed, not_there, gone, FreedIfOk, ClearedIfOk,
}
use go_proxmox.Vm.CloudInit.Found.{
  Looked, Listed, Asked, iso-Looked, content-Listed, iso_delete-Asked,
}

module _ (env : Env) (accepting : IsAccepting env) (clock : IsClock env) (lib : TaskLib)
    (dec : Decoders) (f rounds : ℕ) (v : VirtualMachine)
    (enough : 5 * 10 ^ 9 < rounds * 10 ^ 9) where
  wait-IsTotal : (t : Task) (s : State) → IsTotal (wait_for env lib (suc f) (suc rounds) 5 t s)
  unfolding wait_for
  wait-IsTotal t s =
      Ends-mono _ (StopsWith env lib (suc f) _) _
        (wait-Stopped env accepting clock lib f (10 ^ 9) rounds (seconds_of 5) t s
          (omega (arith, enough, seconds_of_small 5 (omega arith))))
        (λ _ _ _. tt)

  after_wait-Freed :
      (x : Storage) (i : Iso) (task : Task) (s t1 t2 u : State) (r : Option Error × Task)
      → Looked env accepting clock lib dec f rounds v enough x s (ok i) t1
      → Asked env accepting clock lib dec f rounds v enough x i t1 (ok (some task)) t2
      → wait_for env lib (suc f) (suc rounds) 5 task t2 ≡ some (ok r, u)
      → FreedIfOk env lib dec
          (suc f)
          (suc rounds)
          v
          x
          s
          (after_wait env lib dec (suc f) (suc rounds) v x i r)
          u
  unfolding after_wait
  after_wait-Freed x i task s t1 t2 u (some e, done) a b c = tt
  after_wait-Freed x i task s t1 t2 u (none, done) (j, k, g, d, vol, _) (a, ask, made) c =
      elim (Bool-cases done.is_successful) [
        | inl e ↦ rw e (deleted j k i.vol_id a task done t1 t2 g d vol ask made c e)
        | inr e ↦ rw e tt
      ]

  after_delete-Freed :
      (x : Storage) (i : Iso) (s t1 t2 : State) (o : Option Task)
      → Looked env accepting clock lib dec f rounds v enough x s (ok i) t1
      → Asked env accepting clock lib dec f rounds v enough x i t1 (ok o) t2
      → Ends
          (after_delete env lib dec (suc f) (suc rounds) v x i o t2)
          (FreedIfOk env lib dec (suc f) (suc rounds) v x s)
  unfolding after_delete
  after_delete-Freed x i s t1 t2 none a b = tt
  after_delete-Freed x i s t1 t2 (some task) a b =
      Ends-bind_eq (wait_for env lib (suc f) (suc rounds) 5 task) t2 _ (wait-IsTotal task t2) _
        (λ r u c. after_wait-Freed x i task s t1 t2 u r a b c) (λ e u c. tt)

  after_listing-Freed :
      (x : Storage) (e : Error) (s t1 u : State) (r : Result (Option (List (Option Text))))
      → Looked env accepting clock lib dec f rounds v enough x s (err e) t1
      → Listed env accepting clock lib dec f rounds v enough x t1 r u
      → FreedIfOk env lib dec
          (suc f)
          (suc rounds)
          v
          x
          s
          (after_listing env lib dec (suc f) (suc rounds) v x e r)
          u
  unfolding after_listing
  after_listing-Freed x e s t1 u (err _) a b = tt
  after_listing-Freed x e s t1 u (ok none) a b = tt
  after_listing-Freed x e s t1 u (ok (some content)) (a, g, no_iso) (j, asked, read) =
      elim (Bool-cases (has_volume content (volid env lib dec (suc f) (suc rounds) v x))) [
        | inl h ↦ rw h tt
        | inr h ↦ rw h (
            absent a t1 j content g no_iso asked read
              (All-volume content (the_volume env lib dec (suc f) (suc rounds) v x) h))
      ]

  after_lookup-Freed :
      (x : Storage) (s t1 : State) (r : Result Iso)
      → Looked env accepting clock lib dec f rounds v enough x s r t1
      → Ends
          (after_lookup env lib dec (suc f) (suc rounds) v x r t1)
          (FreedIfOk env lib dec (suc f) (suc rounds) v x s)
  unfolding after_lookup
  after_lookup-Freed x s t1 (err e) a =
      Ends-try (get_content env lib dec (suc f) (suc rounds) v x) _ t1
        (Listed env accepting clock lib dec f rounds v enough x t1) _
        (content-Listed env accepting clock lib dec f rounds v enough x t1)
        (λ r u b. after_listing-Freed x e s t1 u r a b)
  after_lookup-Freed x s t1 (ok i) a =
      Ends-bind (iso_delete env lib dec (suc f) (suc rounds) v x i) _ t1
        (Asked env accepting clock lib dec f rounds v enough x i t1) _
        (iso_delete-Asked env accepting clock lib dec f rounds v enough x i t1 a.5)
        (λ o t2 b. after_delete-Freed x i s t1 t2 o a b) (λ _ _ _. tt)

  clear_storage-Freed :
      (x : Storage) (s : State)
      → Ends
          (clear_storage env lib dec (suc f) (suc rounds) v x s)
          (FreedIfOk env lib dec (suc f) (suc rounds) v x s)
  unfolding clear_storage
  clear_storage-Freed x s =
      Ends-try (iso env lib dec (suc f) (suc rounds) v x) _ s
        (Looked env accepting clock lib dec f rounds v enough x s) _
        (iso-Looked env accepting clock lib dec f rounds v enough x s)
        (λ r t1 a. after_lookup-Freed x s t1 r a)

  skip :
      (x : Storage) (rest : List Storage) (s : State) (r : Result (Unit {0})) (u : State)
      → is_candidate env lib dec (suc f) (suc rounds) v x ≡ false
      → ClearedIfOk env lib dec (suc f) (suc rounds) v rest s r u
      → ClearedIfOk env lib dec (suc f) (suc rounds) v (x ∷ rest) s r u
  skip x rest s (ok _) u e q = passed (not_candidate x e) q
  skip x rest s (err _) u e q = tt

  extend :
      (x : Storage) (rest : List Storage) (s u : State) (r : Result (Unit {0})) (w : State)
      → Freed env lib dec (suc f) (suc rounds) v x s u false
      → ClearedIfOk env lib dec (suc f) (suc rounds) v rest u r w
      → ClearedIfOk env lib dec (suc f) (suc rounds) v (x ∷ rest) s r w
  extend x rest s u (ok _) w free q = not_there u free q
  extend x rest s u (err _) w free q = tt

  go_on :
      (x : Storage) (rest : List Storage) (s : State) (b : Bool) (u : State)
      → Freed env lib dec (suc f) (suc rounds) v x s u b
      → Ends
          (clear_storages env lib dec (suc f) (suc rounds) v rest u)
          (ClearedIfOk env lib dec (suc f) (suc rounds) v rest u)
      → Ends
          ((if b then pure tt else clear_storages env lib dec (suc f) (suc rounds) v rest) u)
          (ClearedIfOk env lib dec (suc f) (suc rounds) v (x ∷ rest) s)
  go_on x rest s true u free q = gone free
  go_on x rest s false u free q =
      Ends-mono _ (ClearedIfOk env lib dec (suc f) (suc rounds) v rest u) _ q
        (λ r w p. extend x rest s u r w free p)

  -- Where no request is refused, the clock and the timers run, and a wait of five seconds has the
  -- rounds that it needs, the loop over the storages ends; and if it ends without an error, then
  -- every storage that may hold the ISO is free of it, up to one from which it was deleted.
  pub clear_storages-Cleared :
      (l : List Storage) (s : State)
      → Ends
          (clear_storages env lib dec (suc f) (suc rounds) v l s)
          (ClearedIfOk env lib dec (suc f) (suc rounds) v l s)
  unfolding clear_storages
  clear_storages-Cleared [] s = all_free refl
  clear_storages-Cleared (x ∷ rest) s =
      elim (Bool-cases (is_candidate env lib dec (suc f) (suc rounds) v x)) [
        | inr e ↦ rw e (
            Ends-mono _ (ClearedIfOk env lib dec (suc f) (suc rounds) v rest s) _
              (clear_storages-Cleared rest s) (λ r u q. skip x rest s r u e q))
        | inl e ↦ rw e (
            Ends-bind (clear_storage env lib dec (suc f) (suc rounds) v x) _ s
              (FreedIfOk env lib dec (suc f) (suc rounds) v x s)
              (ClearedIfOk env lib dec (suc f) (suc rounds) v (x ∷ rest) s)
              (clear_storage-Freed x s)
              (λ b u q. go_on x rest s b u q (clear_storages-Cleared rest u)) (λ e u q. tt))
      ]
