-- ===== src/Options/Transport/Owned.antt =====
-- What a write to the heap of HTTP clients leaves alone.
pub mod Ensure
pub mod Finalize
use go_proxmox.Prelude.{
  ℕ, ◌+◌, ◌≤◌, ◌<◌, ◌≡◌, refl, ◌≢◌, ◌==◌, ◌||◌, Bool, true, false, Option, none, some, List, [],
  ◌∷◌, ◌++◌, arith, if◌then◌else◌, ltb, leb, ap, sym, ◌∙◌, Bool-cases, Option-cases, inl, inr,
  subst,
}
use go_proxmox.Options.Transport.{
  TlsConfig, Transport, RoundTripper, transport_at, custom, retrying, HttpClient, Heap, TlsMod,
  Connection, Store, NetHttp, default_client, put_at, write_client, write_transport, write_config,
  address, is_shared, ensure_own_http_client, promoted, transport_of, transport_in,
  ensure_transport, config_of, config_in, ensure_tls_config, with_root_file, apply_mod, apply_mods,
  modded, finalize_tls, timed, finalize_timeout, proxied, finalize_proxy, base_of, wrapped_in,
  install_retry_wrapper, finalize_options,
}

-- (*http.Transport).Clone: a transport at a new address, whose TLS configuration, if there is one, is
-- new too; nothing that was there changes.
pub record IsClone (net : NetHttp) : Type 0 where
  pub is_new : (d : ℕ) (h : Heap) → h.fresh ≤ (net.clone d h).0
  pub grows : (d : ℕ) (h : Heap) → h.fresh ≤ ((net.clone d h).1).fresh
  pub clients_stay : (d : ℕ) (h : Heap) (a : ℕ) → ((net.clone d h).1).clients a ≡ h.clients a
  pub transports_stay :
      (d : ℕ) (h : Heap) (a : ℕ)
      → a ≢ (net.clone d h).0
      → ((net.clone d h).1).transports a ≡ h.transports a
  pub configs_stay :
      (d : ℕ) (h : Heap) (a : ℕ) → a < h.fresh → ((net.clone d h).1).configs a ≡ h.configs a
  pub config_is_new :
      (d : ℕ) (h : Heap) (k : ℕ)
      → (((net.clone d h).1).transports (net.clone d h).0).tls_client_config ≡ some k
      → h.fresh ≤ k

module _ (mine : ℕ → Bool) where
  -- What the caller's own objects lead to is the caller's own.
  abbrev pub LeadsClient : HttpClient → Type 0
  LeadsClient x = (t : ℕ) → x.transport ≡ some (transport_at t) → mine t ≡ true

  abbrev pub LeadsTransport : Transport → Type 0
  LeadsTransport x = (k : ℕ) → x.tls_client_config ≡ some k → mine k ≡ true

  pub record Closed (h : Heap) : Type 0 where
    pub from_clients : (a : ℕ) → mine a ≡ true → LeadsClient (h.clients a)
    pub from_transports : (a : ℕ) → mine a ≡ true → LeadsTransport (h.transports a)
    pub from_fresh : (a : ℕ) → h.fresh ≤ a → mine a ≡ true

  -- Nothing but what is the caller's own differs.
  pub record Untouched (h h' : Heap) : Type 0 where
    pub same_clients : (a : ℕ) → mine a ≡ false → h'.clients a ≡ h.clients a
    pub same_transports : (a : ℕ) → mine a ≡ false → h'.transports a ≡ h.transports a
    pub same_configs : (a : ℕ) → mine a ≡ false → h'.configs a ≡ h.configs a

  -- The client is the default one or the caller's own.
  abbrev pub IsOurs : Connection → Type 0
  IsOurs c = if is_shared c then Unit else (mine (address c) ≡ true)

  -- What the parts of `finalizeOptions` keep, from the heap `h0` on.
  pub record Keeps (h0 : Heap) (s : Store) : Type 0 where
    pub ours : IsOurs (s.1)
    pub closed : Closed (s.0)
    pub untouched : Untouched h0 (s.0)

  clash : true ≡ false → ⊥
  clash h = cc

  put_at_other :
      {A : Type 0} (a b : ℕ) (v : A) (f g : ℕ → A)
      → mine a ≡ true
      → mine b ≡ false
      → f b ≡ g b
      → put_at a v f b ≡ g b
  put_at_other a b v f g h k same = elim (Bool-cases (a == b)) [
    | inl e ↦ let q : a ≡ b = ground (arith, e) in absurd (clash (sym h ∙ ap mine q ∙ k))
    | inr e ↦ rw e same
  ]

  put_at_all :
      {A : Type 0} (P : A → Type 0) (a b : ℕ) (v : A) (f : ℕ → A)
      → P v
      → P (f b)
      → P (put_at a v f b)
  put_at_all P a b v f h k = elim (Bool-cases (a == b)) [ inl e ↦ rw e h | inr e ↦ rw e k ]

  pub client-Keeps :
      (h0 h : Heap) (c : Connection) (a : ℕ) (v : HttpClient)
      → mine a ≡ true
      → LeadsClient v
      → Keeps h0 (h, c)
      → Keeps h0 (write_client a v h, c)
  client-Keeps h0 h c a v m leads k = record {
    ours = k.ours;
    closed = record {
      from_clients =
          λ b n. put_at_all LeadsClient a b v h.clients leads (k.closed.from_clients b n);
      from_transports = k.closed.from_transports;
      from_fresh = k.closed.from_fresh;
    };
    untouched = record {
      same_clients =
          λ b n. put_at_other a b v h.clients h0.clients m n (k.untouched.same_clients b n);
      same_transports = k.untouched.same_transports;
      same_configs = k.untouched.same_configs;
    };
  }

  pub transport-Keeps :
      (h0 h : Heap) (c : Connection) (a : ℕ) (v : Transport)
      → mine a ≡ true
      → LeadsTransport v
      → Keeps h0 (h, c)
      → Keeps h0 (write_transport a v h, c)
  transport-Keeps h0 h c a v m leads k = record {
    ours = k.ours;
    closed = record {
      from_clients = k.closed.from_clients;
      from_transports =
          λ b n. put_at_all LeadsTransport a b v h.transports leads (k.closed.from_transports b n);
      from_fresh = k.closed.from_fresh;
    };
    untouched = record {
      same_clients = k.untouched.same_clients;
      same_transports = λ b n.
          put_at_other a b v h.transports h0.transports m n (k.untouched.same_transports b n);
      same_configs = k.untouched.same_configs;
    };
  }

  pub config-Keeps :
      (h0 h : Heap) (c : Connection) (a : ℕ) (v : TlsConfig)
      → mine a ≡ true
      → Keeps h0 (h, c)
      → Keeps h0 (write_config a v h, c)
  config-Keeps h0 h c a v m k = record {
    ours = k.ours;
    closed = record {
      from_clients = k.closed.from_clients;
      from_transports = k.closed.from_transports;
      from_fresh = k.closed.from_fresh;
    };
    untouched = record {
      same_clients = k.untouched.same_clients;
      same_transports = k.untouched.same_transports;
      same_configs =
          λ b n. put_at_other a b v h.configs h0.configs m n (k.untouched.same_configs b n);
    };
  }

  pub grown-Keeps :
      (h0 h : Heap) (c : Connection) (pools : ℕ → List ℕ) (n : ℕ)
      → h.fresh ≤ n
      → Keeps h0 (h, c)
      → Keeps h0 (record h { pools = pools; fresh = n }, c)
  grown-Keeps h0 h c pools n le k = record {
    ours = k.ours;
    closed = record {
      from_clients = k.closed.from_clients;
      from_transports = k.closed.from_transports;
      from_fresh = λ a m. k.closed.from_fresh a (omega arith);
    };
    untouched = record {
      same_clients = k.untouched.same_clients;
      same_transports = k.untouched.same_transports;
      same_configs = k.untouched.same_configs;
    };
  }
