-- ===== src/Options/Transport/Owned/Ensure.antt =====
-- What `ensureTransport` and its like leave alone.
use go_proxmox.Prelude.{
  ℕ, ◌+◌, ◌≤◌, ◌<◌, ◌≡◌, refl, ◌==◌, Bool, true, false, Option, none, some, arith, ltb, ltb→lt, ap,
  sym, ◌∙◌, Bool-cases, inl, inr, subst,
}
use go_proxmox.Options.Transport.{
  RoundTripper, transport_at, custom, retrying, Heap, Connection, Store, NetHttp, write_client,
  write_config, address, is_shared, ensure_own_http_client, blank_client, blank_config, promoted,
  transport_of, ensure_transport, config_of, config_in,
}
use go_proxmox.Options.Transport.Owned.{
  IsClone, LeadsClient, LeadsTransport, Closed, IsOurs, Keeps, client-Keeps, transport-Keeps,
  config-Keeps, grown-Keeps,
}

module _ (net : NetHttp) (clones : IsClone net) (mine : ℕ → Bool) (h0 : Heap) where
  abbrev pub Kept : Store → Type 0
  Kept = Keeps mine h0

  -- The client of a store is the caller's own.
  abbrev pub KeptOwn : Store → Type 0
  KeptOwn s = Kept s × (mine (address (s.1)) ≡ true)

  abbrev pub KeptAt : Option ℕ × Store → Type 0
  KeptAt (none, s) = Kept s
  KeptAt (some t, s) = Kept s × (mine t ≡ true)

  IsOurs-own : (c : Connection) → mine (address c) ≡ true → IsOurs mine c
  IsOurs-own c h = elim (Bool-cases (is_shared c)) [ inl e ↦ rw e tt | inr e ↦ rw e h ]

  moved : (h : Heap) (c c' : Connection) → IsOurs mine c' → Kept (h, c) → Kept (h, c')
  moved h c c' ours k = record { ours = ours; closed = k.closed; untouched = k.untouched }

  blank_leads : LeadsClient mine blank_client
  blank_leads t e = cc

  pub own-Kept : (s : Store) → Kept s → KeptOwn (ensure_own_http_client s)
  unfolding ensure_own_http_client
  own-Kept (h, c) k = elim (Bool-cases (is_shared c)) [
    | inl e ↦
        let here : mine h.fresh ≡ true = k.closed.from_fresh h.fresh (omega arith) in
        rw e (
          moved _ c (record c { http_client = some h.fresh })
              (IsOurs-own (record c { http_client = some h.fresh }) here)
              (grown-Keeps mine h0 (write_client h.fresh blank_client h) c h.pools (h.fresh + 1)
                (omega arith) (client-Keeps mine h0 h c h.fresh blank_client here blank_leads k)),
          here,
        )
    | inr e ↦ rw e (k, (let o = k.ours in rw e at o))
  ]

  abbrev target : Option RoundTripper → ℕ
  target (some (transport_at t)) = t
  target _ = 0

  abbrev config_target : Option ℕ → ℕ
  config_target (some k) = k
  config_target none = 0

  not_mine : (a : ℕ) → mine a ≡ true → mine a ≡ false → ⊥
  not_mine a h k = cc

  old : (h : Heap) (a : ℕ) → Closed mine h → mine a ≡ false → a < h.fresh
  old h a closed n = elim (Bool-cases (ltb a h.fresh)) [
    | inl e ↦ ltb→lt _ _ e
    | inr e ↦
        let past : h.fresh ≤ a = ground (arith, e) in
        absurd (not_mine a (closed.from_fresh a past) n)
  ]

  other_ne : (a b : ℕ) → a ≡ b → (a == b) ≡ false → ⊥
  other_ne a b q e = ground (arith, q, e)

  clone_leads :
      (d : ℕ) (h : Heap) (a : ℕ)
      → Closed mine h
      → mine a ≡ true
      → LeadsTransport mine (((net.clone d h).1).transports a)
  clone_leads d h a closed n = elim (Bool-cases (a == (net.clone d h).0)) [
    | inl e ↦ λ k x.
        let q : a ≡ (net.clone d h).0 = ground (arith, e) in
        closed.from_fresh k (
          clones.config_is_new d h k
            (ap (λ b. (((net.clone d h).1).transports b).tls_client_config) (sym q) ∙ x))
    | inr e ↦
        subst (LeadsTransport mine)
          (sym (clones.transports_stay d h a (λ q. other_ne a (net.clone d h).0 q e)))
          (closed.from_transports a n)
  ]

  clone-Kept : (d : ℕ) (h : Heap) (c : Connection) → Kept (h, c) → Kept ((net.clone d h).1, c)
  clone-Kept d h c k = record {
    ours = k.ours;
    closed = record {
      from_clients = λ a n.
          subst (LeadsClient mine) (sym (clones.clients_stay d h a)) (k.closed.from_clients a n);
      from_transports = λ a n. clone_leads d h a k.closed n;
      from_fresh = λ a m. k.closed.from_fresh a (omega (arith, clones.grows d h, m));
    };
    untouched = record {
      same_clients = λ a n. clones.clients_stay d h a ∙ k.untouched.same_clients a n;
      same_transports = λ a n.
          clones.transports_stay d h a (λ q.
            not_mine a (ap mine q ∙ k.closed.from_fresh (net.clone d h).0 (clones.is_new d h)) n)
          ∙ k.untouched.same_transports a n;
      same_configs =
          λ a n. clones.configs_stay d h a (old h a k.closed n) ∙ k.untouched.same_configs a n;
    };
  }

  promoted-Kept :
      (r : RoundTripper) (h : Heap) (c : Connection)
      → mine (address c) ≡ true
      → Kept (h, c)
      → KeptAt ((promoted net r (address c) h).0, ((promoted net r (address c) h).1, c))
  promoted-Kept (transport_at d) h c m k =
      let t = (net.clone d h).0 in
      let here : mine t ≡ true = k.closed.from_fresh t (clones.is_new d h) in
      (
        client-Keeps mine h0 (net.clone d h).1 c (address c)
            (record (((net.clone d h).1).clients (address c)) { transport = some (transport_at t) })
            m (λ t' e. subst (λ x. mine x ≡ true) (ap target e) here) (clone-Kept d h c k),
        here,
      )
  promoted-Kept (custom _) h c m k = k
  promoted-Kept (retrying _ _) h c m k = k

  transport_of-Kept :
      (o : Option RoundTripper) (h : Heap) (c : Connection)
      → (h.clients (address c)).transport ≡ o
      → mine (address c) ≡ true
      → Kept (h, c)
      → KeptAt ((transport_of net o (address c) h).0, ((transport_of net o (address c) h).1, c))
  transport_of-Kept none h c e m k = promoted-Kept net.default_transport h c m k
  transport_of-Kept (some (transport_at t)) h c e m k = (k, k.closed.from_clients (address c) m t e)
  transport_of-Kept (some (custom _)) h c e m k = k
  transport_of-Kept (some (retrying _ _)) h c e m k = k

  pub transport-Kept : (s : Store) → Kept s → KeptAt (ensure_transport net s)
  unfolding ensure_transport
  transport-Kept s k =
      let (q, m) = own-Kept s k in
      transport_of-Kept _ ((ensure_own_http_client s).0) ((ensure_own_http_client s).1) refl m q

  config_of-Kept :
      (o : Option ℕ) (t : ℕ) (h : Heap) (c : Connection)
      → (h.transports t).tls_client_config ≡ o
      → mine t ≡ true
      → Kept (h, c)
      → Kept ((config_of net o t h).1, c) × (mine (config_of net o t h).0 ≡ true)
  config_of-Kept (some k) t h c e m q = (q, q.closed.from_transports t m k e)
  config_of-Kept none t h c e m q =
      let here : mine h.fresh ≡ true = q.closed.from_fresh h.fresh (omega arith) in
      (
        grown-Keeps mine h0 _ c h.pools (h.fresh + 1) (omega arith) (
            transport-Keeps mine h0 (write_config h.fresh blank_config h) c t
              (record (h.transports t) { tls_client_config = some h.fresh }) m
              (λ k' x. subst (λ y. mine y ≡ true) (ap config_target x) here)
              (config-Keeps mine h0 h c h.fresh blank_config here q)),
        here,
      )

  pub config_in-Kept : (r : Option ℕ × Store) → KeptAt r → KeptAt (config_in net r)
  config_in-Kept (none, s) k = k
  config_in-Kept (some t, (h, c)) (k, m) =
      config_of-Kept (h.transports t).tls_client_config t h c refl m k
