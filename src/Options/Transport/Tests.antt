-- ===== src/Options/Transport/Tests.antt =====
-- Runs of the law on the HTTP client.
use go_proxmox.Prelude.{
  ℕ, ◌+◌, ◌≡◌, refl, ◌==◌, Bool, true, none, some, [], ◌∷◌, arith, leb, Bool-cases, inl, inr, sym,
}
use go_proxmox.Options.Transport.{
  transport_at, Heap, skip_verify, Connection, NetHttp, put_at, blank_client, blank_config,
  finalize_options,
}
use go_proxmox.Options.Transport.Owned.{IsClone, Closed}
use go_proxmox.Options.Transport.Owned.Finalize.{finalize_options_others}

-- The default transport is at 1, and a clone has no TLS configuration.
abbrev net : NetHttp
net = record {
  default_transport = transport_at 1;
  clone = λ d h. (
    h.fresh,
    record h {
      transports =
          put_at h.fresh (record (h.transports d) { tls_client_config = none }) h.transports;
      fresh = h.fresh + 1;
    },
  );
}

abbrev start : Heap
start = record {
  clients = λ a. blank_client;
  transports = λ a. record { tls_client_config = none; proxy = none };
  configs = λ a. blank_config;
  pools = λ a. [];
  fresh = 2;
}

-- NewClient with WithInsecureSkipVerify, WithTimeout and WithProxy.
abbrev connection : Connection
connection = record {
  http_client = some 0;
  tls_mods = skip_verify ∷ [];
  timeout = 30;
  proxy_func = some 7;
  retry_policy = none;
}

abbrev allocated_later : ℕ → Bool
allocated_later a = leb 2 a

net-IsClone : IsClone net
net-IsClone = record {
  is_new = λ d h. omega arith;
  grows = λ d h. omega arith;
  clients_stay = λ d h a. refl;
  transports_stay = λ d h a n. elim (Bool-cases (h.fresh == a)) [
    | inl e ↦ let q : h.fresh ≡ a = ground (arith, e) in absurd (n (sym q))
    | inr e ↦ rw e refl
  ];
  configs_stay = λ d h a n. refl;
  config_is_new = λ d h k e.
      let same : (h.fresh == h.fresh) ≡ true = ground arith in let none_there = rw same at e in cc;
}

start-Closed : Closed allocated_later start
start-Closed = record {
  from_clients = λ a m t e. cc;
  from_transports = λ a m k e. cc;
  from_fresh = λ a m. ground (arith, m);
}

finalize_options_example :
    ((finalize_options net (start, connection)).0.clients 1 ≡ start.clients 1)
    × ((finalize_options net (start, connection)).0.transports 1 ≡ start.transports 1)
    × ((finalize_options net (start, connection)).0.configs 1 ≡ start.configs 1)
finalize_options_example =
    finalize_options_others net net-IsClone allocated_later start connection tt start-Closed 1 refl
