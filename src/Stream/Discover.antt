-- ===== src/Stream/Discover.antt =====
-- stream/routes_discover.go: routes with the scheme `dns` are replaced by the addresses that DNS has
-- for them. Parsing of URLs and numbers, and DNS, are outside the repository: `parse`, `atoi` (a
-- negative number is as 0 here) and the answers of the loop's turns. The options of a leaf server
-- are left out.
use Prim.Native.String.{◌++◌ as ◌^^◌}
use harmonylite.Prelude.{
  length, All, ◌≐◌, ℕ, ◌≤◌, ◌<◌, String, ◌≡◌, ◌⊎◌, Bool, true, false, Option, none, some, List, [],
  ◌∷◌, ◌++◌, map, arith, leb, if◌then◌else◌, Err, Result, ok, err, string_eq, nat_eq, ◌>>=◌,
}

-- `net/url.URL`, as far as it is read. `min` and `hub` are the query's values.
pub record Url : Type 0 where
  pub scheme : String
  pub hostname : String
  pub port : String
  pub min : String
  pub hub : String

-- An address of 4 bytes, of 16 bytes, or neither, as it is printed.
pub data Ip : Type 0 where
  v4 v6 : String → Ip
  neither : Ip

unfoldable pub ipv4 : List Ip → List String
ipv4 [] = []
ipv4 (v4 s ∷ ips) = s ∷ ipv4 ips
ipv4 (_ ∷ ips) = ipv4 ips

unfoldable pub ipv6 : List Ip → List String
ipv6 [] = []
ipv6 (v6 s ∷ ips) = s ∷ ipv6 ips
ipv6 (_ ∷ ips) = ipv6 ips

-- `queryDNS`
unfoldable pub query_dns : Result (List Ip) → Result (List String × List String)
unfolding ipv4 ipv6
query_dns (err e) = err e
query_dns (ok ips) = ok (ipv4 ips, ipv6 ips)

module _ (atoi : String → Option ℕ) (parse : String → Option Url) where
  parse_all : List String → List Url
  parse_all [] = []
  parse_all (s ∷ texts) =
      let rest = parse_all texts in elim (parse s) [ none ↦ rest | some u ↦ u ∷ rest ]

  -- `getDirectNATSAddresses`
  unfoldable pub get_direct_nats_addresses : Url → Result (List Ip) → Result (List Url)
  unfolding query_dns parse_all
  get_direct_nats_addresses u answer = do
    found ← query_dns answer
    ok (
        parse_all (map (λ ip. "nats://" ^^ ip ^^ ":" ^^ u.port ^^ "/") found.0)
        ++ parse_all (map (λ ip. "nats://[" ^^ ip ^^ "]:" ^^ u.port ^^ "/") found.1))

  -- The number of peers that the loop asks for.
  abbrev pub min_peers : Bool → Url → ℕ
  min_peers true u = 0
  min_peers false u = elim (atoi u.min) [ none ↦ 2 | some n ↦ n ]

  -- `queryDNSRoutes`; the loop of the code has no bound, and here it ends with the answers, which
  -- stands for a loop that goes on.
  unfoldable pub query_dns_routes : Bool → Url → List (Result (List Ip)) → Option (List Url)
  unfolding get_direct_nats_addresses
  query_dns_routes wait u [] = none
  query_dns_routes wait u (answer ∷ later) =
      let rest = query_dns_routes wait u later in
      elim (get_direct_nats_addresses u answer) [
        | err e ↦ rest
        | ok peers ↦ if leb (min_peers wait u) (length peers) then some peers else rest
      ]

  -- `flattenRoutes`; `answers` is what DNS says, turn by turn, to the loop for a URL.
  unfoldable pub flatten_routes :
      (Url → List (Result (List Ip))) → List Url → Bool → Option (List Url)
  unfolding query_dns_routes
  flatten_routes answers [] wait = some []
  flatten_routes answers (u ∷ urls) wait =
      let rest = flatten_routes answers urls wait in
      let here = if u.scheme ≐ "dns" then query_dns_routes wait u (answers u) else some (u ∷ []) in
      elim here [ none ↦ none | some us ↦ elim rest [ none ↦ none | some vs ↦ some (us ++ vs) ] ]

  -- Every answer before is an error, or has fewer peers than are asked for.
  abbrev pub IsEarly : Bool → Url → Result (List Ip) → Type 0
  IsEarly wait u answer =
      ((e : Err) × (get_direct_nats_addresses u answer ≡ err e))
      ⊎ ((peers : List Url) × (get_direct_nats_addresses u answer ≡ ok peers)
          × (length peers < min_peers wait u))

  -- The discovery ends at the first answer with enough peers, and gives those.
  pub query_dns_routes-first :
      (wait : Bool) (u : Url) (early later : List (Result (List Ip))) (answer : Result (List Ip))
      (peers : List Url)
      → All (IsEarly wait u) early
      → get_direct_nats_addresses u answer ≡ ok peers
      → min_peers wait u ≤ length peers
      → query_dns_routes wait u (early ++ answer ∷ later) ≡ some peers
  unfolding query_dns_routes
  query_dns_routes-first wait u [] later answer peers h e le = ground arith
  query_dns_routes-first wait u (x ∷ early) later answer peers h e le =
      ground (arith, h.0, query_dns_routes-first wait u early later answer peers h.1 e le)
