-- ===== src/Env.antt =====
-- What the services call and do not implement: the database client, the clock, the queues, the
-- connectors' remote systems and the text and cipher functions of the platform. Each is a function
-- of the moment of the call, where the outside world decides.
use vowgrid_api.Common.{ℕ, String, Bool, Option, List}
use vowgrid_api.Json.{Json, Numbers}
use vowgrid_api.Prisma.{Prisma}
use vowgrid_api.Billing.Rows.{BillingCoupon}

-- A promise that resolves, or is rejected with an error's message.
pub data Settled (A : Type 0) : Type 0 where
  resolved : A → Settled A
  threw : String → Settled A

-- The answer of `fetch`: `ok`, the status, the `content-type` header and the body's text.
pub record Response : Type 0 where
  pub is_ok : Bool
  pub status : ℕ
  pub content_type : Option String
  pub body : String

pub record Request : Type 0 where
  pub url : String
  pub method : String
  pub headers : List (String × String)
  pub body : Option String
  -- the milliseconds of `AbortSignal.timeout`
  pub timeout_ms : Option ℕ

-- The network and the text functions of the platform. `elapsed` is the difference of the two
-- readings of the clock around a call that begins at a moment.
pub record Remote : Type 0 where
  pub fetch : ℕ → Request → Settled Response
  pub elapsed : ℕ → ℕ
  -- `String(value)` of a value that is no text, `/^\d+$/.test` and `replaceAll('_', ' ')`
  pub string_of : Json → String
  pub is_digits : String → Bool
  pub spaced : String → String
  -- the protocol of `new URL(text)`, none where it throws
  pub url_protocol : String → Option String
  pub base64 : String → String
  -- `haystack.includes(needle)`
  pub contains : String → String → Bool
  -- `Number.isFinite`, `Math.trunc` with 0 for what is below it, and the double of a natural number
  pub is_finite : ℕ → Bool
  pub trunc : ℕ → ℕ
  pub to_double : ℕ → ℕ
  -- `new Date().toISOString()` within the call that begins at a moment
  pub iso_at : ℕ → String
  -- `new Headers(record)` and `set`, which throw on what is no header, and `has`
  pub new_headers : List (String × String) → Settled (List (String × String))
  pub set_header : String → String → List (String × String) → Settled (List (String × String))
  pub has_header : String → List (String × String) → Bool

-- What the requests to the payment provider take of config/env.ts and of the platform.
pub record Provider : Type 0 where
  pub net : Remote
  pub access_token : Option String
  pub webhook_secret : Option String
  pub webhook_url : Option String
  pub return_url : Option String
  pub api_base_url : String
  pub is_production : Bool
  -- `text.split(separator)`, and the HMAC-SHA-256 of a text under a secret, in hex
  pub split : String → String → List String
  pub hmac_hex : String → String → String
  -- the query parameters of `new URL(rawUrl, base)`, by name
  pub search_params : String → Settled (String → Option String)
  -- the id of a row that a text names: ids are texts in the database
  pub id_of : String → ℕ
  -- the double of `Number((cents / 100).toFixed(2))`
  pub reais : ℕ → ℕ

pub data Level : Type 0 where
  low medium high critical : Level

pub data Reversibility : Type 0 where
  full partly_reversible not_reversible : Reversibility

pub data RollbackSupport : Type 0 where
  supported partial unsupported : RollbackSupport

pub record ConnectorValidateResult : Type 0 where
  pub valid : Bool
  pub errors : List String

pub record ConnectorSimulateResult : Type 0 where
  pub summary : String
  pub estimated_impact : Level
  pub risk_level : Level
  pub reversibility : Reversibility
  pub affected_resources : Json
  pub diff_preview : Option Json
  pub warnings : Option (List String)

pub record ConnectorExecuteResult : Type 0 where
  pub success : Bool
  pub payload : Json
  pub duration : ℕ

pub record ConnectorRollbackResult : Type 0 where
  pub success : Bool
  pub payload : Json

pub record ConnectorRuntimeContext : Type 0 where
  pub connector_id : Option ℕ
  pub connector_name : String
  pub connector_type : String
  pub workspace_id : ℕ
  pub environment : String
  pub config : Json

-- `IConnector`: an action, its parameters, the context, and the moment of the call.
pub record IConnector : Type 0 where
  pub rollback_support : RollbackSupport
  pub validate_config : Option (Json → Settled ConnectorValidateResult)
  pub validate : String → Json → ConnectorRuntimeContext → ℕ → Settled ConnectorValidateResult
  pub simulate : String → Json → ConnectorRuntimeContext → ℕ → Settled ConnectorSimulateResult
  pub execute : String → Json → ConnectorRuntimeContext → ℕ → Settled ConnectorExecuteResult
  -- the third argument is what the execution returned
  pub rollback :
      Option (String → Json → Json → ConnectorRuntimeContext → ℕ → Settled ConnectorRollbackResult)

pub record Env : Type 1 where
  pub db : Prisma
  pub numbers : Numbers
  -- the time of the n-th reading, in milliseconds
  pub clock : ℕ → ℕ
  -- the first instant of the UTC month that holds a time, and of the next one
  pub month_start : ℕ → ℕ
  pub month_end : ℕ → ℕ
  pub iso_text : ℕ → String
  pub id_text : ℕ → String
  pub number_of : ℕ → ℕ
  -- `createHmac('sha256', key).update(JSON.stringify(value)).digest('hex')`
  pub hmac_hex : Json → String
  -- `left.localeCompare(right) <= 0`
  pub text_le : String → String → Bool
  -- `randomBytes(n).toString('base64url')`, and the bytes of a salt
  pub random_token : ℕ → String
  pub random_salt : ℕ → String
  pub scrypt : String → String → String
  pub base64url : String → String
  pub from_base64url : String → String
  pub sha256_hex : String → String
  pub session_secret : Option String
  -- the error of a mail that is not sent at this moment
  pub mail_error : ℕ → Option String
  pub lower : String → String
  -- the name under NFKD, without accents, in lower case, with `-` for what is no letter or digit and
  -- none at the ends; `slice(0, n)`; a number's digits
  pub slug_text : String → String
  pub first_chars : ℕ → String → String
  pub decimal : ℕ → String
  -- `slice(-n)` and `endsWith`
  pub last_chars : ℕ → String → String
  pub ends_with : String → String → Bool
  pub trim : String → String
  pub text_length : String → ℕ
  -- whether the transaction that is begun at this moment fails
  pub audit_fails : ℕ → Bool
  -- the error of a queue that takes no job at this moment
  pub queue_error : ℕ → Option String
  pub registered : String → Option IConnector
  -- aes-256-gcm under the platform's key, for an initialisation vector: the tag and the ciphertext, and
  -- the text from them
  pub seal : String → String → String × String
  pub unseal : String → String → String → Settled String
  -- `JSON.stringify` and `JSON.parse`
  pub stringify : Json → String
  pub parse_json : String → Settled Json
  -- `new Date(text).getTime()`, none for no time, and 0 for one before the epoch
  pub parse_date : String → Option ℕ
  -- config/env.ts
  pub api_key_salt : String
  pub api_key_default_ttl_days : ℕ
  pub api_key_max_ttl_days : ℕ
  pub default_tax_rate_bps : ℕ
  pub br_cpf_tax_rate_bps : ℕ
  pub br_cnpj_tax_rate_bps : ℕ
  pub upper : String → String
  -- the entries of BILLING_COUPON_CATALOG_JSON with a code, a label and a kind
  pub coupon_entries : List BillingCoupon
  -- the payment provider of the invoices
  pub payments : Provider
