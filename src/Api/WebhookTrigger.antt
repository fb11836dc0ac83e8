-- ===== src/Api/WebhookTrigger.antt =====
-- api/v1alpha1/trigger_types.go: the settings of a Trigger of type webhook. An optional pointer is an
-- `Option`; the limit has Minimum=1.
use kubezap_operator.Base.{ℕ, String, Bool, Option, List}
use kubezap_operator.Base.Int.{ℤ}
use kubezap_operator.Api.Integration.{SecretKeySelector}

pub record HmacConfig : Type 0 where
  pub secret_ref : SecretKeySelector
  pub provider : String
  pub timestamp_tolerance_seconds : ℤ

pub record OidcConfig : Type 0 where
  pub issuer : String
  pub audience : String

-- The Secret by its name.
pub record WebhookBasicAuth : Type 0 where
  pub secret_ref : String
  pub username_key : String
  pub password_key : String

-- Of APIKeyConfig and HeaderEqualsConfig.
pub record HeaderSecret : Type 0 where
  pub header : String
  pub secret_ref : SecretKeySelector

pub record WebhookAuth : Type 0 where
  pub type : String
  pub hmac : Option HmacConfig
  pub bearer : Option SecretKeySelector
  pub oidc : Option OidcConfig
  pub basic : Option WebhookBasicAuth
  pub api_key : Option HeaderSecret
  pub ip_allowlist : Option (List String)
  pub header_equals : Option HeaderSecret

pub record WebhookRateLimit : Type 0 where
  pub max_requests : ℕ
  pub window : ℤ

pub record WebhookTrigger : Type 0 where
  pub path : String
  pub method : String
  pub auth : Option WebhookAuth
  pub rate_limit : Option WebhookRateLimit
  pub redact_headers : List String
  pub redact_body : Bool
