-- ===== src/Webhook.antt =====
-- internal/gateway/webhook: requests as the gateway for webhooks reads them, and what it uses of Go's
-- library. A body is a list of bytes.
pub mod Route
pub mod Redact
pub mod ClientIp
pub mod Auth
pub mod Authenticate
pub mod Reason
pub mod Serve
pub mod Watcher
mod Tests
use kubezap_operator.Base.{
  ℕ, String, Bool, true, false, Option, none, some, List, [], ◌∷◌, ◌==◌, leb, if◌then◌else◌, length,
  take, is_empty,
}
use kubezap_operator.Base.Int.{ℤ}
use kubezap_operator.Base.Assoc.{Assoc, lookup}
use kubezap_operator.Ssrf.Address.{Ip, IpNet}

-- The validator of the tokens of a route: its claims and its JWKS.
pub record OidcValidator : Type 0 where
  pub jwks_url : String
  pub issuer : String
  pub audience : String

pub record Library (Keyset : Type 0) : Type 0 where
  pub to_upper : String → String
  pub to_lower : String → String
  -- http.CanonicalHeaderKey.
  pub canonical : String → String
  -- []byte(s), and string(b).
  pub bytes_of : String → List ℕ
  pub text_of : List ℕ → String
  pub is_utf8 : List ℕ → Bool
  -- base64.StdEncoding.EncodeToString.
  pub base64 : List ℕ → String
  -- The HMAC-SHA256 of bytes under a key, in hexadecimal.
  pub hmac_sha256 : String → List ℕ → String
  -- strconv.ParseInt(s, 10, 64), of a text that is a number, and the text of a number.
  pub parse_int : String → Option ℤ
  pub decimal : ℤ → String
  -- The user name and the password of a header Authorization.
  pub parse_basic_auth : String → Option (String × String)
  -- net.SplitHostPort, net.ParseIP and net.ParseCIDR, where they do not fail.
  pub split_host : String → Option String
  pub parse_ip : String → Option Ip
  pub parse_cidr : String → Option IpNet
  -- What the cache of JWKS answers for a URL, the set that a refresh fetches, and the error's text
  -- where the cache answers with none.
  pub cached_keys : String → Option Keyset
  pub refreshed_keys : String → Option Keyset
  pub keys_error : String → String
  -- jwt.ParseString with a set of keys, an issuer and an audience where these are not empty: the
  -- error's text, or none.
  pub jwt_error : Keyset → Option String → Option String → String → Option String

-- What a request's body yields: bytes, then its end or an error.
pub record Body : Type 0 where
  pub bytes : List ℕ
  pub has_error : Bool

-- What the tracing library injects of the span of a request.
pub record TraceContext : Type 0 where
  pub traceparent : String
  pub tracestate : String

-- `headers` have canonical names. `now` is time.Now() in nanoseconds, the same for one request;
-- `random_hex` is what randomHex(8) yields for it. `propagated` gives what is injected of the span that
-- starts with it, where the headers traceparent and tracestate, of which its parent is extracted, have
-- these values.
pub record Request : Type 0 where
  pub method : String
  pub path : String
  pub headers : Assoc (List String)
  pub remote_addr : String
  pub content_length : ℤ
  pub body : Body
  pub now : ℕ
  pub random_hex : String
  pub propagated : String → String → TraceContext

abbrev first_value : Option (List String) → String
first_value none = ""
first_value (some []) = ""
first_value (some (value ∷ rest)) = value

-- `r.Header.Get(name)`.
unfoldable pub get_header :
    {Keyset : Type 0} → Library Keyset → Assoc (List String) → String → String
get_header lib headers name = first_value (lookup (lib.canonical name) headers)

-- io.ReadAll of an io.LimitReader: an error comes only before the limit.
unfoldable pub read_all : ℕ → Body → Option (List ℕ)
read_all limit body =
    if leb limit (length body.bytes)
    then some (take limit body.bytes)
    else if body.has_error
    then none
    else some body.bytes
