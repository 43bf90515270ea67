-- ===== src/Options/Order.antt =====
-- The order in which interceptors run.
use go_proxmox.Prelude.{
  ◌≡◌, refl, ◌∙◌, ap, sym, Option, none, some, List, [], ◌∷◌, ◌++◌, map, append_assoc, append-nil,
}
use go_proxmox.Prelude.Text.{codes}
use go_proxmox.Errors.{Result, ok, err, wrapped}
use go_proxmox.World.{Request}
use go_proxmox.Client.{Client, Interceptor}
use go_proxmox.Session.{run_interceptors}
use go_proxmox.Options.{with_request_interceptor, apply_all}

-- A nil entry anywhere in the chain is skipped.
run_skips :
    (l m : List (Option Interceptor)) (r : Request)
    → run_interceptors (l ++ (none ∷ m)) r ≡ run_interceptors (l ++ m) r
unfolding run_interceptors
run_skips [] m r = refl
run_skips (none ∷ l) m r = run_skips l m r
run_skips (some fn ∷ l) m r = go (λ r'. run_skips l m r') (fn r)
  where
    go :
        ((r' : Request) → run_interceptors (l ++ (none ∷ m)) r' ≡ run_interceptors (l ++ m) r')
        → (x : Result Request)
        → (elim x as (λ _. Result Request) [
          | err e ↦ err (wrapped (codes "request interceptor: ") e)
          | ok r' ↦ run_interceptors (l ++ (none ∷ m)) r'
        ])
          ≡ (elim x as (λ _. Result Request) [
            | err e ↦ err (wrapped (codes "request interceptor: ") e)
            | ok r' ↦ run_interceptors (l ++ m) r'
          ])
    go ih (ok r') = ih r'
    go ih (err e) = refl

-- The interceptors that a list of WithRequestInterceptor options registers run after those that are
-- there, in the order of the options, a nil one being skipped.
interceptors_in_order :
    (fns : List (Option Interceptor)) (c : Client) (r : Request)
    → run_interceptors (apply_all (map with_request_interceptor fns) c).interceptors r
      ≡ run_interceptors (c.interceptors ++ fns) r
unfolding apply_all with_request_interceptor
interceptors_in_order [] c r = rw (append-nil c.interceptors) refl
interceptors_in_order (none ∷ fns) c r =
    interceptors_in_order fns c r ∙ sym (run_skips c.interceptors fns r)
interceptors_in_order (some fn ∷ fns) c r =
    interceptors_in_order fns (with_request_interceptor (some fn) c) r
    ∙ ap (λ l. run_interceptors l r) (append_assoc c.interceptors (some fn ∷ []) fns)
