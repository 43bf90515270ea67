-- ===== src/Tasks/Upid.antt =====
-- What NewTask reads off a UPID.
use Prim.Native.Nat.{suc}
use go_proxmox.Prelude.{ltb, ℕ, ◌≡◌, refl, some, List, ◌∷◌, arith, All, length, false}
use go_proxmox.Prelude.Text.{Text, codes, join}
use go_proxmox.Prelude.Text.Laws.{Lacks, split-join}
use go_proxmox.Tasks.{new_task, blank_task}

-- The fields of a UPID, after its mark: node, pid, process start, start, type, id and user.
pub record Upid : Type 0 where
  pub node : Text
  pub pid : Text
  pub pstart : Text
  pub start : Text
  pub kind : Text
  pub id : Text
  pub user : Text
  pub more : List Text

abbrev pub upid_fields : Upid → List Text
upid_fields u = u.node ∷ u.pid ∷ u.pstart ∷ u.start ∷ u.kind ∷ u.id ∷ u.user ∷ u.more

abbrev pub print_upid : Upid → Text
print_upid u = join (codes ":") (codes "UPID" ∷ upid_fields u)

eight_fields : (n : ℕ) → ltb (suc (suc (suc (suc (suc (suc (suc (suc n)))))))) 8 ≡ false
eight_fields n = ground arith

mark_lem : Lacks b':' (codes "UPID")
mark_lem = ground arith

-- The task of a UPID whose fields hold no colon has the node, the type, the id and the user that
-- were written into it; anything else of it is blank.
pub new_task-print_upid :
    (u : Upid)
    → All (Lacks b':') (upid_fields u)
    → new_task (print_upid u)
      ≡ some (record (blank_task (print_upid u)) {
        node = u.node;
        kind = u.kind;
        id = u.id;
        user = u.user;
      })
unfolding new_task join
new_task-print_upid u h =
    rw (split-join b':' (codes "UPID") (upid_fields u) (mark_lem, h), eight_fields (length u.more))
      refl
