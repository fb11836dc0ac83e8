-- ===== src/Webhook/ClientIp.antt =====
-- internal/gateway/webhook/accesslog.go: realClientIP and the list of trusted proxies.
pub mod Laws
use kubezap_operator.Base.{
  ℕ, String, Bool, true, false, ◌||◌, Option, none, some, List, [], ◌∷◌, ◌++◌, ◌==◌, not,
  if◌then◌else◌, take, any, is_empty,
}
use kubezap_operator.Base.Text.{split}
use kubezap_operator.Base.Text.Trim.{trim_space}
use kubezap_operator.Ssrf.{CidrList, invalid_cidr, cidr_list}
use kubezap_operator.Ssrf.Address.{Ip, IpNet, contains}
use kubezap_operator.Webhook.{Library, Request, get_header}
use kubezap_operator.Webhook.Route.{or_whole}

abbrev pub max_forwarded_for_hops : ℕ
max_forwarded_for_hops = 32

-- The list from its end, before `later`.
unfoldable pub latest_first : List String → List String → List String
latest_first later [] = later
latest_first later (part ∷ rest) = latest_first (part ∷ later) rest

-- The walk stops at an entry that is no trusted proxy, or has the left-most entry at its end.
pub data Walk : Type 0 where
  stopped_at ended_with : String → Walk

module _ {Keyset : Type 0} (lib : Library Keyset) where
  abbrev pub is_in_any : List IpNet → Option Ip → Bool
  is_in_any cidrs none = false
  is_in_any cidrs (some ip) = any (λ cidr. contains cidr ip) cidrs

  unfoldable pub is_trusted_proxy : String → List IpNet → Bool
  is_trusted_proxy host proxies = is_in_any proxies (lib.parse_ip host)

  unfoldable pub walk : List IpNet → String → List String → Walk
  unfolding is_trusted_proxy trim_space
  walk proxies left_most [] = ended_with left_most
  walk proxies left_most (part ∷ rest) =
      let entry = trim_space part in
      let skipped = walk proxies left_most rest in
      let further = walk proxies entry rest in
      if entry == ""
      then skipped
      else if is_trusted_proxy entry proxies
      then further
      else stopped_at entry

  unfoldable pub walk_forwarded : List IpNet → String → Walk
  unfolding walk latest_first split
  walk_forwarded proxies forwarded_for =
      walk proxies "" (take max_forwarded_for_hops (latest_first [] (split b',' forwarded_for)))

  -- X-Real-IP, where it is not blank.
  unfoldable pub real_ip_or : String → String → String
  unfolding trim_space
  real_ip_or host real_ip = if trim_space real_ip == "" then host else trim_space real_ip

  abbrev pub after_walk : String → String → Walk → String
  after_walk host real_ip (stopped_at entry) = entry
  after_walk host real_ip (ended_with left_most) =
      if left_most == "" then real_ip_or host real_ip else left_most

  abbrev pub peer : String → String
  peer remote_addr = or_whole remote_addr (lib.split_host remote_addr)

  -- `forwarded_for` and `real_ip` are the values of the two headers.
  unfoldable pub client_ip : List IpNet → String → String → String → String
  unfolding walk_forwarded is_trusted_proxy
  client_ip proxies host forwarded_for real_ip =
      if is_empty proxies || not (is_trusted_proxy host proxies)
      then host
      else if forwarded_for == ""
      then real_ip_or host real_ip
      else after_walk host real_ip (walk_forwarded proxies forwarded_for)

  unfoldable pub real_client_ip : Request → List IpNet → String
  unfolding client_ip get_header
  real_client_ip r proxies =
      client_ip proxies (peer r.remote_addr) (get_header lib r.headers "X-Forwarded-For")
        (get_header lib r.headers "X-Real-IP")

  abbrev with_range : String → Option IpNet → (IpNet → CidrList) → CidrList
  with_range text none next = invalid_cidr text
  with_range text (some cidr) next = next cidr

  -- The loop over the comma-separated texts; a blank one is skipped.
  unfoldable pub add_trusted : List IpNet → List String → CidrList
  unfolding trim_space
  add_trusted out [] = cidr_list out
  add_trusted out (part ∷ rest) =
      let skipped = add_trusted out rest in
      let added =
        with_range (trim_space part) (lib.parse_cidr (trim_space part))
          (λ cidr. add_trusted (out ++ (cidr ∷ [])) rest) in
      if trim_space part == "" then skipped else added

  -- ParseTrustedProxyCIDRs: of the flag's text, the ranges or the text that is none.
  unfoldable pub parse_trusted_proxy_cidrs : String → CidrList
  unfolding add_trusted split trim_space
  parse_trusted_proxy_cidrs raw =
      if trim_space raw == "" then cidr_list [] else add_trusted [] (split b',' (trim_space raw))
