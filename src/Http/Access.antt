-- ===== src/Http/Access.antt =====
-- internal/interfaces/httpapi/ipallow.go and internal/config/ipaccess.go.
use config_sync_nginx.Base.{
  ℕ, String, Bool, true, false, not, ◌||◌, ◌==◌, List, [], ◌∷◌, Option, none, some, other, Fallible,
  ok, err, ◌>>=◌, ◌>>◌, fail_if, any, if◌then◌else◌, nat_eq, length,
}
use config_sync_nginx.Base.Text.{codes, contains_code, trim_space, split_on, join_commas}
use mathlib.Core.List.{reverse}

-- What the code uses of Go's package `net`: addresses and networks of it.
pub record Net (Ip Network : Type 0) : Type 0 where
  pub parse_ip : String → Option Ip
  pub to4 : Ip → Option Ip
  pub parse_cidr : String → Fallible Network
  pub ip_net : Ip → ℕ → ℕ → Network
  pub contains : Network → Ip → Bool
  pub split_host_port : String → Fallible String

-- `IPAccessParsed`.
pub record IpAccessParsed (Network : Type 0) : Type 0 where
  pub enabled : Bool
  pub rules : List Network
  pub trusted : List Network

-- An HTTP request: `header` gives the values of a header, `query` the first value of a parameter.
pub record Request : Type 0 where
  pub method : String
  pub path : String
  pub remote_addr : String
  pub header : String → List String
  pub query : String → String
  pub body : String

-- `r.Header.Get`.
abbrev pub get_header : String → Request → String
get_header name r = elim (r.header name) [ [] ↦ "" | value ∷ rest ↦ value ]

-- What stands in `X-Forwarded-For`.
unfoldable pub forwarded_for : Request → String
unfolding trim_space join_commas
forwarded_for r = trim_space (join_commas (r.header "X-Forwarded-For"))

-- The hops that the request names, or a single `X-Real-IP`; nothing where these are missing.
unfoldable pub forwarded : Request → Option String
unfolding forwarded_for
forwarded r =
    let real_ip = trim_space (get_header "X-Real-IP" r) in
    if not (forwarded_for r == "")
    then some (forwarded_for r)
    else if not (nat_eq (length (r.header "X-Real-IP")) 1) || real_ip == ""
    then none
    else some real_ip

module _ {Ip Network : Type 0} (net : Net Ip Network) where
  -- `ipInAnyNet`.
  unfoldable pub ip_in_any_net : Ip → List Network → Bool
  ip_in_any_net ip nets = any (λ n. net.contains n ip) nets

  -- `hostOnlyFromRemoteAddr`.
  unfoldable pub host_only_from_remote_addr : String → Fallible String
  host_only_from_remote_addr remote_addr =
      if remote_addr == ""
      then err (other "empty RemoteAddr")
      else elim (net.split_host_port remote_addr) [
        | ok host ↦ ok host
        | err e ↦ elim (net.parse_ip remote_addr) [ some ip ↦ ok remote_addr | none ↦ err e ]
      ]

  -- The walk over the hops, the nearest first.
  unfoldable pub walk_hops : List Network → Ip → List String → Option Ip
  unfolding ip_in_any_net trim_space
  walk_hops trusted ip [] = some ip
  walk_hops trusted ip (hop ∷ hops) =
      if ip_in_any_net ip trusted
      then elim (net.parse_ip (trim_space hop)) [
        | none ↦ none
        | some ip₁ ↦ walk_hops trusted ip₁ hops
      ]
      else some ip

  -- The address behind the trusted proxies.
  unfoldable pub behind_proxies : List Network → Ip → Option String → Option Ip
  unfolding walk_hops split_on
  behind_proxies trusted ip none = none
  behind_proxies trusted ip (some hops) = walk_hops trusted ip (reverse (split_on b',' hops))

  -- `effectiveClientIP` from the address of the peer on.
  unfoldable pub client_of_peer : IpAccessParsed Network → Request → Ip → Option Ip
  unfolding behind_proxies forwarded
  client_of_peer access r ip =
      if ip_in_any_net ip access.trusted
      then behind_proxies access.trusted ip (forwarded r)
      else some ip

  -- `effectiveClientIP` from the parsed address of the peer, and from its text on.
  unfoldable pub client_of_parsed : IpAccessParsed Network → Request → Option Ip → Option Ip
  unfolding client_of_peer
  client_of_parsed access r none = none
  client_of_parsed access r (some ip) = client_of_peer access r ip

  unfoldable pub client_of_host : IpAccessParsed Network → Request → Fallible String → Option Ip
  unfolding client_of_parsed
  client_of_host access r (err e) = none
  client_of_host access r (ok host) = client_of_parsed access r (net.parse_ip host)

  -- `effectiveClientIP`.
  unfoldable pub effective_client_ip : IpAccessParsed Network → Request → Option Ip
  unfolding host_only_from_remote_addr client_of_host
  effective_client_ip access r = client_of_host access r (host_only_from_remote_addr r.remote_addr)

  -- `clientIPAllowed`.
  unfoldable pub client_ip_allowed : Option Ip → IpAccessParsed Network → Bool
  client_ip_allowed ip access =
      if not access.enabled
      then true
      else elim ip [ none ↦ false | some a ↦ ip_in_any_net a access.rules ]

  -- `parseIPOrCIDR`.
  unfoldable pub parse_ip_or_cidr : String → Fallible Network
  parse_ip_or_cidr s =
      if contains_code b'/' (codes s) then net.parse_cidr s else elim (net.parse_ip s) [
        | none ↦ err (other "无效的 IP 或 CIDR")
        | some ip ↦ elim (net.to4 ip) [
          | some v4 ↦ ok (net.ip_net v4 32 32)
          | none ↦ ok (net.ip_net ip 128 128)
        ]
      ]

  -- The loop over the clients that are allowed.
  unfoldable pub parse_allowed : List String → Fallible (List Network)
  unfolding parse_ip_or_cidr trim_space
  parse_allowed [] = ok []
  parse_allowed (s ∷ ss) = do
    fail_if (trim_space s == "") (other "allowed_client_ips 不能为空")
    n ← parse_ip_or_cidr (trim_space s)
    ns ← parse_allowed ss
    ok (n ∷ ns)

  -- The loop over the proxies that are trusted.
  unfoldable pub parse_trusted : List String → Fallible (List Network)
  unfolding trim_space
  parse_trusted [] = ok []
  parse_trusted (s ∷ ss) = do
    fail_if (trim_space s == "") (other "trusted_proxy_cidrs 不能为空")
    n ← net.parse_cidr (trim_space s)
    ns ← parse_trusted ss
    ok (n ∷ ns)

  -- `ParseIPAccessControl`; the texts of its errors leave out the index.
  unfoldable pub parse_ip_access_control :
      List String → List String → Fallible (IpAccessParsed Network)
  unfolding parse_allowed parse_trusted
  parse_ip_access_control [] [] = ok (record { enabled = false; rules = []; trusted = [] })
  parse_ip_access_control [] (t ∷ ts) =
      err (other "配置无效：填写了 trusted_proxy_cidrs 时必须同时填写 allowed_client_ips（客户端白名单）")
  parse_ip_access_control (a ∷ allowed) trusted = do
    rules ← parse_allowed (a ∷ allowed)
    proxies ← parse_trusted trusted
    ok (record { enabled = true; rules = rules; trusted = proxies })
