-- ===== src/Tests/StreamTests.antt =====
-- The theorems on the connection to NATS at concrete inputs.
use harmonylite.Prelude.{
  ◌≐◌, ℕ, String, ◌≡◌, refl, Option, none, some, List, [], ◌∷◌, ◌==◌, if◌then◌else◌, Result,
  canceled, ok, err, string_eq, nat_eq,
}
use harmonylite.Stream.Discover.{Url, Ip, v4, v6, get_direct_nats_addresses}
use harmonylite.Stream.Embedded.{
  Outside, EmbeddedConfig, start_all, start_embedded_server, server_options,
}
use harmonylite.Stream.Connect.{Attempt}

abbrev url : String → Url
url text = record { scheme = "dns"; hostname = text; port = "4222"; min = "2"; hub = "" }

abbrev parse : String → Option Url
parse text = some (url text)

abbrev atoi : String → Option ℕ
atoi text = some 2

-- A failing lookup and one with too few peers come before the one with two.
abbrev early : List (Result (List Ip))
early = err canceled ∷ ok (v4 "10.0.0.1" ∷ []) ∷ []

abbrev enough : Result (List Ip)
enough = ok (v6 "fd00::1" ∷ v4 "10.0.0.1" ∷ [])

abbrev peers : List Url
peers = url "nats://10.0.0.1:4222/" ∷ url "nats://[fd00::1]:4222/" ∷ []

found : get_direct_nats_addresses atoi parse (url "nodes") enough ≡ ok peers
unfolding get_direct_nats_addresses
found = refl

one_found :
    get_direct_nats_addresses atoi parse (url "nodes") (ok (v4 "10.0.0.1" ∷ []))
    ≡ ok (url "nats://10.0.0.1:4222/" ∷ [])
unfolding get_direct_nats_addresses
one_found = refl

none_found : get_direct_nats_addresses atoi parse (url "nodes") (err canceled) ≡ err canceled
unfolding get_direct_nats_addresses
none_found = refl

abbrev outside : Outside
outside = record {
  split_host_port = λ a. if a ≐ "" then err canceled else ok ("localhost", "4222");
  atoi = λ p. ok 4222;
  routes_from_str = λ t. [];
  flatten_routes = λ us. us;
  process_config_file = λ p o. ok o;
  join = λ a b c. a;
  new_server = λ o. ok 17;
}

abbrev embedded : String → EmbeddedConfig
embedded address = record {
  bind_address = address;
  cluster_peers = "";
  cluster_addr = "";
  leaf_servers = "";
  server_config_file = "";
  data_root_dir = "/tmp";
}

-- The first start fails.
abbrev starts : List (EmbeddedConfig × String)
starts = (embedded "", "a") ∷ (embedded ":-1", "a") ∷ (embedded "", "b") ∷ []

last_server : (start_all outside starts none).1 ≡ some 17
unfolding start_all start_embedded_server server_options
last_server = refl

abbrev attempt : ℕ → Attempt
attempt n = ok (n, n == 1)
