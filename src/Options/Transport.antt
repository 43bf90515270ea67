-- ===== src/Options/Transport.antt =====
-- options.go and proxmox.go: the HTTP client, its transport and the TLS configuration, as objects of
-- a heap that the caller, net/http and the client share, and what `finalizeOptions` does to them.
pub mod Owned
mod Tests
use go_proxmox.Prelude.{
  ℕ, ◌+◌, ◌==◌, Bool, true, false, Option, none, some, List, [], ◌∷◌, ◌++◌, if◌then◌else◌, ltb,
}
use go_proxmox.Retry.{RetryPolicy}

-- `tls.Config`: its root pool is an address, and a certificate a number.
pub record TlsConfig : Type 0 where
  pub insecure_skip_verify : Bool
  pub root_cas : Option ℕ
  pub certificates : List ℕ
  pub min_version : ℕ

-- `http.Transport`: the address of its TLS configuration, and the number of a proxy function.
pub record Transport : Type 0 where
  pub tls_client_config : Option ℕ
  pub proxy : Option ℕ

-- `http.RoundTripper`: a transport at an address, another one, or the wrapper of `WithRetry`.
pub data RoundTripper : Type 0 where
  transport_at : ℕ → RoundTripper
  custom : ℕ → RoundTripper
  retrying : RoundTripper → RetryPolicy → RoundTripper

-- `http.Client`: a nil round tripper is none, and a time-out of 0 is none.
pub record HttpClient : Type 0 where
  pub transport : Option RoundTripper
  pub timeout : ℕ

-- What stands at each address; from `fresh` on there is nothing.
pub record Heap : Type 0 where
  pub clients : ℕ → HttpClient
  pub transports : ℕ → Transport
  pub configs : ℕ → TlsConfig
  pub pools : ℕ → List ℕ
  pub fresh : ℕ

-- A function on a TLS configuration that an option leaves: WithInsecureSkipVerify, WithRootCAs,
-- WithRootCAFile with the certificates of the file, and WithClientCertificate.
pub data TlsMod : Type 0 where
  skip_verify : TlsMod
  root_pool : ℕ → TlsMod
  root_file : List ℕ → TlsMod
  certificate : ℕ → TlsMod

-- The fields of `Client` that `finalizeOptions` reads and writes.
pub record Connection : Type 0 where
  pub http_client : Option ℕ
  pub tls_mods : List TlsMod
  pub timeout : ℕ
  pub proxy_func : Option ℕ
  pub retry_policy : Option RetryPolicy

-- `http.DefaultClient`.
abbrev pub default_client : ℕ
default_client = 0

abbrev pub put_at : {A : Type 0} → ℕ → A → (ℕ → A) → ℕ → A
put_at a v f b = if a == b then v else f b

abbrev pub Store : Type 0
Store = Heap × Connection

-- A new TLS configuration for TLS 1.2 and up, and a new client.
abbrev pub blank_config : TlsConfig
blank_config = record {
  insecure_skip_verify = false;
  root_cas = none;
  certificates = [];
  min_version = 0x303;
}

abbrev pub blank_client : HttpClient
blank_client = record { transport = none; timeout = 0 }

abbrev pub write_client : ℕ → HttpClient → Heap → Heap
write_client a v h = record h { clients = put_at a v h.clients }

abbrev pub write_transport : ℕ → Transport → Heap → Heap
write_transport a v h = record h { transports = put_at a v h.transports }

abbrev pub write_config : ℕ → TlsConfig → Heap → Heap
write_config a v h = record h { configs = put_at a v h.configs }

abbrev pub address : Connection → ℕ
address c = elim c.http_client [ none ↦ default_client | some a ↦ a ]

abbrev pub is_shared : Connection → Bool
is_shared c = address c == default_client

-- `ensureOwnHTTPClient`.
unfoldable pub ensure_own_http_client : Store → Store
ensure_own_http_client (h, c) =
    if is_shared c
    then (
      record h { clients = put_at h.fresh blank_client h.clients; fresh = h.fresh + 1 },
      record c { http_client = some h.fresh },
    )
    else (h, c)

-- http.DefaultTransport, a variable, and (*http.Transport).Clone: the clone's address, and the heap.
pub record NetHttp : Type 0 where
  pub default_transport : RoundTripper
  pub clone : ℕ → Heap → ℕ × Heap

module _ (net : NetHttp) where
  -- A nil transport of the client at an address becomes a clone of the default one.
  abbrev pub promoted : RoundTripper → ℕ → Heap → Option ℕ × Heap
  promoted (transport_at d) a h =
      let (t, h') = net.clone d h in
      (some t, write_client a (record (h'.clients a) { transport = some (transport_at t) }) h')
  promoted (custom _) a h = (none, h)
  promoted (retrying _ _) a h = (none, h)

  abbrev pub transport_of : Option RoundTripper → ℕ → Heap → Option ℕ × Heap
  transport_of none a h = promoted net.default_transport a h
  transport_of (some (transport_at t)) a h = (some t, h)
  transport_of (some (custom _)) a h = (none, h)
  transport_of (some (retrying _ _)) a h = (none, h)

  abbrev pub transport_in : Store → Option ℕ × Store
  transport_in (h, c) =
      let (t, h') = transport_of (h.clients (address c)).transport (address c) h in (t, (h', c))

  -- `ensureTransport`.
  unfoldable pub ensure_transport : Store → Option ℕ × Store
  unfolding ensure_own_http_client
  ensure_transport s = transport_in (ensure_own_http_client s)

  abbrev pub config_of : Option ℕ → ℕ → Heap → ℕ × Heap
  config_of (some k) t h = (k, h)
  config_of none t h = (
    h.fresh,
    record h {
      configs = put_at h.fresh blank_config h.configs;
      transports =
          put_at t (record (h.transports t) { tls_client_config = some h.fresh }) h.transports;
      fresh = h.fresh + 1;
    },
  )

  abbrev pub config_in : Option ℕ × Store → Option ℕ × Store
  config_in (none, s) = (none, s)
  config_in (some t, (h, c)) =
      let (k, h') = config_of (h.transports t).tls_client_config t h in (some k, (h', c))

  -- `ensureTLSConfig`.
  unfoldable pub ensure_tls_config : Store → Option ℕ × Store
  unfolding ensure_transport
  ensure_tls_config s = config_in (ensure_transport s)

  -- A pool of certificates to which a file's are added; there is a new one where there is none.
  abbrev pub with_root_file : Option ℕ → List ℕ → ℕ → Heap → Heap
  with_root_file (some p) certs k h = record h { pools = put_at p (h.pools p ++ certs) h.pools }
  with_root_file none certs k h = record h {
    configs = put_at k (record (h.configs k) { root_cas = some h.fresh }) h.configs;
    pools = put_at h.fresh certs h.pools;
    fresh = h.fresh + 1;
  }

  unfoldable pub apply_mod : TlsMod → ℕ → Heap → Heap
  apply_mod skip_verify k h =
      write_config k (record (h.configs k) { insecure_skip_verify = true }) h
  apply_mod (root_pool p) k h = write_config k (record (h.configs k) { root_cas = some p }) h
  apply_mod (root_file certs) k h = with_root_file (h.configs k).root_cas certs k h
  apply_mod (certificate cert) k h =
      write_config k
        (record (h.configs k) { certificates = (h.configs k).certificates ++ (cert ∷ []) }) h

  unfoldable pub apply_mods : List TlsMod → ℕ → Heap → Heap
  unfolding apply_mod
  apply_mods [] k h = h
  apply_mods (m ∷ mods) k h = apply_mods mods k (apply_mod m k h)

  abbrev pub modded : List TlsMod → Option ℕ × Store → Store
  modded mods (none, s) = s
  modded mods (some k, (h, c)) = (apply_mods mods k h, c)

  -- The four parts of `finalizeOptions` before the eager login.
  unfoldable pub finalize_tls : Store → Store
  unfolding ensure_tls_config apply_mods
  finalize_tls s = elim (s.1.tls_mods) [ [] ↦ s | m ∷ ms ↦ modded (m ∷ ms) (ensure_tls_config s) ]

  abbrev pub timed : ℕ → Store → Store
  timed d (h, c) = (write_client (address c) (record (h.clients (address c)) { timeout = d }) h, c)

  unfoldable pub finalize_timeout : Store → Store
  finalize_timeout s = if ltb 0 s.1.timeout then timed s.1.timeout (ensure_own_http_client s) else s

  abbrev pub proxied : ℕ → Option ℕ × Store → Store
  proxied p (none, s) = s
  proxied p (some t, (h, c)) = (write_transport t (record (h.transports t) { proxy = some p }) h, c)

  unfoldable pub finalize_proxy : Store → Store
  finalize_proxy s = elim (s.1.proxy_func) [ none ↦ s | some p ↦ proxied p (ensure_transport s) ]

  abbrev pub base_of : Option RoundTripper → RoundTripper
  base_of none = net.default_transport
  base_of (some r) = r

  abbrev pub wrapped_in : RetryPolicy → Store → Store
  wrapped_in policy (h, c) = (
    write_client (address c)
        (record (h.clients (address c)) {
          transport = some (retrying (base_of (h.clients (address c)).transport) policy);
        })
        h,
    c,
  )

  -- `installRetryWrapper`.
  unfoldable pub install_retry_wrapper : Store → Store
  install_retry_wrapper s = elim (s.1.retry_policy) [
    | none ↦ s
    | some policy ↦ wrapped_in policy (ensure_own_http_client s)
  ]

  unfoldable pub finalize_options : Store → Store
  unfolding finalize_tls finalize_timeout finalize_proxy install_retry_wrapper
  finalize_options s = install_retry_wrapper (finalize_proxy (finalize_timeout (finalize_tls s)))
