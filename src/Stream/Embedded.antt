-- ===== src/Stream/Embedded.antt =====
-- stream/embedded_nats.go: the NATS server inside the process. The server's library, the parsing of
-- addresses and of its configuration file are parameters. The constant options, the logger and the
-- lock, which makes a start one step, are left out.
use harmonylite.Prelude.{
  All, ◌≐◌, ℕ, String, ◌≡◌, refl, sym, ap, ◌∙◌, subst, ◌⊎◌, inl, inr, Option, none, some, List, [],
  ◌∷◌, arith, if◌then◌else◌, Err, Result, ◌>>=◌, ok, err, string_eq, nat_eq,
}
use harmonylite.Stream.Discover.{Url}

-- The options of the server that depend on the configuration.
pub record ServerOptions : Type 0 where
  pub server_name : String
  pub host : String
  pub port : ℕ
  pub routes : List Url
  pub cluster_listen : Option (String × String × ℕ)
  pub remotes : List Url
  pub store_dir : String

-- The configuration and the flags that are read. An empty text is an absent flag.
pub record EmbeddedConfig : Type 0 where
  pub bind_address : String
  pub cluster_peers : String
  pub cluster_addr : String
  pub leaf_servers : String
  pub server_config_file : String
  pub data_root_dir : String

-- What is outside: `net.SplitHostPort`, `strconv.Atoi`, `server.RoutesFromStr`, `ProcessConfigFile`,
-- the flattening of routes, which waits for DNS, and `server.NewServer`.
pub record Outside : Type 0 where
  pub split_host_port : String → Result (String × String)
  pub atoi : String → Result ℕ
  pub routes_from_str : String → List Url
  pub flatten_routes : List Url → List Url
  pub process_config_file : String → ServerOptions → Result ServerOptions
  -- `path.Join`
  pub join : String → String → String → String
  pub new_server : ServerOptions → Result ℕ

module _ (outside : Outside) (config : EmbeddedConfig) where
  unfoldable pub parse_host_and_port : String → Result (String × ℕ)
  parse_host_and_port address = do
    parts ← outside.split_host_port address
    port ← outside.atoi parts.1
    ok (parts.0, port)

  -- The scheme `dns` is resolved only if there are leaf servers.
  unfoldable pub parse_remote_leaf_opts : String → List Url
  parse_remote_leaf_opts flag = elim (outside.routes_from_str flag) [
    | [] ↦ []
    | u ∷ us ↦ outside.flatten_routes (u ∷ us)
  ]

  cluster_options : Result (Option (String × String × ℕ))
  unfolding parse_host_and_port
  cluster_options =
      if config.cluster_addr ≐ ""
      then ok none
      else (parse_host_and_port config.cluster_addr >>= λ a.
          ok (some (config.cluster_addr, a.0, a.1)))

  processed : ServerOptions → Result ServerOptions
  processed opts =
      if config.server_config_file ≐ ""
      then ok opts
      else outside.process_config_file config.server_config_file opts

  flattened : List Url → List Url
  flattened [] = []
  flattened (u ∷ us) = outside.flatten_routes (u ∷ us)

  unfoldable pub server_options : String → Result ServerOptions
  unfolding parse_host_and_port cluster_options processed flattened parse_remote_leaf_opts
  server_options node_name = do
    bound ← parse_host_and_port config.bind_address
    cluster ← cluster_options
    opts ← processed (record {
      server_name = node_name;
      host = bound.0;
      port = bound.1;
      routes =
          if config.cluster_peers ≐ "" then [] else outside.routes_from_str config.cluster_peers;
      cluster_listen = cluster;
      remotes = if config.leaf_servers ≐ "" then [] else parse_remote_leaf_opts config.leaf_servers;
      store_dir = "";
    })
    ok (record opts {
      routes = flattened opts.routes;
      store_dir =
          if opts.store_dir ≐ ""
          then outside.join config.data_root_dir "nats" node_name
          else opts.store_dir;
    })

  on_server : Result ℕ → Result ℕ × Option ℕ
  on_server (err e) = (err e, none)
  on_server (ok s) = (ok s, some s)

  -- `startEmbeddedServer`: the process has one server, which is made at the first start.
  unfoldable pub start_embedded_server : String → Option ℕ → Result ℕ × Option ℕ
  unfolding server_options on_server
  start_embedded_server node_name (some s) = (ok s, some s)
  start_embedded_server node_name none = on_server (server_options node_name >>= outside.new_server)

-- Starts of the embedded server, each with its configuration.
unfoldable pub start_all :
    Outside → List (EmbeddedConfig × String) → Option ℕ → List (Result ℕ) × Option ℕ
start_all outside [] server = ([], server)
start_all outside ((config, name) ∷ starts) server =
    let (r, server') = start_embedded_server outside config name server in
    let (rs, last) = start_all outside starts server' in (r ∷ rs, last)

-- Every start that succeeds gives the one server, and the others failed.
abbrev pub OneServer : ℕ → List (Result ℕ) → Type 0
OneServer s rs = All (λ r. (r ≡ ok s) ⊎ ((e : Err) × (r ≡ err e))) rs

start_all_again :
    (outside : Outside) (starts : List (EmbeddedConfig × String)) (s : ℕ)
    → OneServer s (start_all outside starts (some s)).0
      × ((start_all outside starts (some s)).1 ≡ some s)
unfolding start_all start_embedded_server
start_all_again outside [] s = (tt, refl)
start_all_again outside ((config, name) ∷ starts) s =
    let (h, k) = start_all_again outside starts s in ((inl refl, h), k)

-- However often the embedded server is started, with any configurations and failures: if the process
-- has a server in the end, every start that succeeded gave that server.
pub start_all-OneServer :
    (outside : Outside) (starts : List (EmbeddedConfig × String)) (s : ℕ)
    → (start_all outside starts none).1 ≡ some s
    → OneServer s (start_all outside starts none).0
unfolding start_all start_embedded_server on_server
start_all-OneServer outside [] s h = tt
start_all-OneServer outside ((config, name) ∷ starts) s h =
    by_result (server_options outside config name >>= outside.new_server)
      (start_all-OneServer outside starts s) h
  where
    by_result :
        (r : Result ℕ)
        → ((start_all outside starts none).1 ≡ some s
            → OneServer s (start_all outside starts none).0)
        → (let (x, server) = on_server outside config r in start_all outside starts server).1
          ≡ some s
        → OneServer s (
            let (x, server) = on_server outside config r in
            let (rs, last) = start_all outside starts server in x ∷ rs)
    by_result (err e) rec k = (inr (e, refl), rec k)
    by_result (ok t) rec k =
        let (h, last) = start_all_again outside starts t in
        let same : t ≡ s = ground (arith, sym last ∙ k) in
        (inl (ap ok same), subst (λ n. OneServer n (start_all outside starts (some t)).0) same h)
