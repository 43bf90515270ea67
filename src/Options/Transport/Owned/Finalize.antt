-- ===== src/Options/Transport/Owned/Finalize.antt =====
-- What `finalizeOptions` leaves alone.
use go_proxmox.Prelude.{
  false, ℕ, ◌+◌, ◌≡◌, refl, Bool, true, Option, none, some, List, [], ◌∷◌, ◌++◌, arith, ltb,
  Bool-cases, inl, inr,
}
use go_proxmox.Retry.{RetryPolicy}
use go_proxmox.Options.Transport.{
  Heap, TlsMod, skip_verify, root_pool, root_file, certificate, Connection, Store, NetHttp, put_at,
  address, ensure_own_http_client, ensure_transport, config_in, ensure_tls_config, with_root_file,
  apply_mod, apply_mods, modded, finalize_tls, timed, finalize_timeout, proxied, finalize_proxy,
  wrapped_in, install_retry_wrapper, finalize_options,
}
use go_proxmox.Options.Transport.Owned.{
  IsClone, Closed, IsOurs, Keeps, client-Keeps, transport-Keeps, config-Keeps, grown-Keeps,
}
use go_proxmox.Options.Transport.Owned.Ensure.{
  KeptOwn, KeptAt, own-Kept, transport-Kept, config_in-Kept,
}

module _ (net : NetHttp) (clones : IsClone net) (mine : ℕ → Bool) (h0 : Heap) where
  abbrev Kept : Store → Type 0
  Kept = Keeps mine h0

  root_file-Kept :
      (o : Option ℕ) (certs : List ℕ) (k : ℕ) (h : Heap) (c : Connection)
      → mine k ≡ true
      → Kept (h, c)
      → Kept (with_root_file net o certs k h, c)
  root_file-Kept (some p) certs k h c m q =
      grown-Keeps mine h0 h c (put_at p (h.pools p ++ certs) h.pools) h.fresh (omega arith) q
  root_file-Kept none certs k h c m q =
      grown-Keeps mine h0 _ c (put_at h.fresh certs h.pools) (h.fresh + 1) (omega arith)
        (config-Keeps mine h0 h c k (record (h.configs k) { root_cas = some h.fresh }) m q)

  mod-Kept :
      (x : TlsMod) (k : ℕ) (h : Heap) (c : Connection)
      → mine k ≡ true
      → Kept (h, c)
      → Kept (apply_mod net x k h, c)
  unfolding apply_mod
  mod-Kept skip_verify k h c m q = config-Keeps mine h0 h c k _ m q
  mod-Kept (root_pool p) k h c m q = config-Keeps mine h0 h c k _ m q
  mod-Kept (root_file certs) k h c m q = root_file-Kept (h.configs k).root_cas certs k h c m q
  mod-Kept (certificate cert) k h c m q = config-Keeps mine h0 h c k _ m q

  mods-Kept :
      (mods : List TlsMod) (k : ℕ) (h : Heap) (c : Connection)
      → mine k ≡ true
      → Kept (h, c)
      → Kept (apply_mods net mods k h, c)
  unfolding apply_mods
  mods-Kept [] k h c m q = q
  mods-Kept (x ∷ mods) k h c m q = mods-Kept mods k (apply_mod net x k h) c m (mod-Kept x k h c m q)

  modded-Kept :
      (mods : List TlsMod) (r : Option ℕ × Store)
      → KeptAt net clones mine h0 r
      → Kept (modded net mods r)
  modded-Kept mods (none, s) k = k
  modded-Kept mods (some a, (h, c)) (k, m) = mods-Kept mods a h c m k

  tls_for :
      (mods : List TlsMod) (s : Store)
      → Kept s
      → Kept (elim mods [ [] ↦ s | m ∷ ms ↦ modded net (m ∷ ms) (ensure_tls_config net s) ])
  unfolding ensure_tls_config
  tls_for [] s k = k
  tls_for (x ∷ mods) s k = modded-Kept (x ∷ mods) (config_in net (ensure_transport net s)) (
      config_in-Kept net clones mine h0 (ensure_transport net s)
        (transport-Kept net clones mine h0 s k))

  tls-Kept : (s : Store) → Kept s → Kept (finalize_tls net s)
  unfolding finalize_tls
  tls-Kept s k = tls_for (s.1.tls_mods) s k

  timed-Kept : (d : ℕ) (s : Store) → KeptOwn net clones mine h0 s → Kept (timed net d s)
  timed-Kept d (h, c) (k, m) =
      client-Keeps mine h0 h c (address c) (record (h.clients (address c)) { timeout = d }) m
        (k.closed.from_clients (address c) m) k

  timeout-Kept : (s : Store) → Kept s → Kept (finalize_timeout net s)
  unfolding finalize_timeout
  timeout-Kept s k = elim (Bool-cases (ltb 0 s.1.timeout)) [
    | inl e ↦
        rw e (timed-Kept s.1.timeout (ensure_own_http_client s) (own-Kept net clones mine h0 s k))
    | inr e ↦ rw e k
  ]

  proxied-Kept :
      (p : ℕ) (r : Option ℕ × Store) → KeptAt net clones mine h0 r → Kept (proxied net p r)
  proxied-Kept p (none, s) k = k
  proxied-Kept p (some t, (h, c)) (k, m) =
      transport-Keeps mine h0 h c t (record (h.transports t) { proxy = some p }) m
        (k.closed.from_transports t m) k

  proxy_for :
      (o : Option ℕ) (s : Store)
      → Kept s
      → Kept (elim o [ none ↦ s | some p ↦ proxied net p (ensure_transport net s) ])
  proxy_for none s k = k
  proxy_for (some p) s k =
      proxied-Kept p (ensure_transport net s) (transport-Kept net clones mine h0 s k)

  proxy-Kept : (s : Store) → Kept s → Kept (finalize_proxy net s)
  unfolding finalize_proxy
  proxy-Kept s k = proxy_for s.1.proxy_func s k

  wrapped-Kept :
      (policy : RetryPolicy) (s : Store)
      → KeptOwn net clones mine h0 s
      → Kept (wrapped_in net policy s)
  wrapped-Kept policy (h, c) (k, m) = client-Keeps mine h0 h c (address c) _ m (λ t e. cc) k

  retry_for :
      (o : Option RetryPolicy) (s : Store)
      → Kept s
      → Kept (elim o [ none ↦ s | some p ↦ wrapped_in net p (ensure_own_http_client s) ])
  retry_for none s k = k
  retry_for (some p) s k =
      wrapped-Kept p (ensure_own_http_client s) (own-Kept net clones mine h0 s k)

  retry-Kept : (s : Store) → Kept s → Kept (install_retry_wrapper net s)
  unfolding install_retry_wrapper
  retry-Kept s k = retry_for s.1.retry_policy s k

module _ (net : NetHttp) (clones : IsClone net) (mine : ℕ → Bool) where
  -- FinalizeOptions before the eager login changes no http.Client, no http.Transport and no
  -- tls.Config but the caller's own ones and those that it makes: http.DefaultClient and
  -- http.DefaultTransport stay as they are, unless the caller's own client leads to them. The
  -- conditions: the client's http.Client is none, or http.DefaultClient, or the caller's own; what
  -- the caller's own objects lead to is the caller's own, and so is every address at which nothing
  -- stands yet; and Clone makes a transport at a new address with a new TLS configuration or none.
  pub finalize_options_others :
      (h : Heap) (c : Connection)
      → IsOurs mine c
      → Closed mine h
      → (a : ℕ) → mine a ≡ false
      → ((finalize_options net (h, c)).0.clients a ≡ h.clients a)
        × ((finalize_options net (h, c)).0.transports a ≡ h.transports a)
        × ((finalize_options net (h, c)).0.configs a ≡ h.configs a)
  unfolding finalize_options
  finalize_options_others h c ours closed a n =
      let start : Keeps mine h (h, c) = record {
        ours = ours;
        closed = closed;
        untouched = record {
          same_clients = λ a n. refl;
          same_transports = λ a n. refl;
          same_configs = λ a n. refl;
        };
      } in
      let end = retry-Kept net clones mine h _ (
        proxy-Kept net clones mine h _
          (timeout-Kept net clones mine h _ (tls-Kept net clones mine h (h, c) start))) in
      (
        end.untouched.same_clients a n,
        end.untouched.same_transports a n,
        end.untouched.same_configs a n,
      )
