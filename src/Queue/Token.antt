-- ===== src/Queue/Token.antt =====
-- The structs of queue/token.go, and of queue/payload.go.
use jec.Prelude.{String, ℤ, Bool, List, ◌&&◌, str_eq, eqb_ℤ, pos}

pub record Credentials : Type 0 where
  pub access_key_id : String
  pub secret_access_key : String
  pub session_token : String
  pub expire_time_millis : ℤ

pub record AssumeRole : Type 0 where
  pub id : String
  pub arn : String

pub record AssumeRoleResult : Type 0 where
  pub credentials : Credentials
  pub assume_role : AssumeRole

pub record QueueConfiguration : Type 0 where
  pub success_refresh_period_in_seconds : ℤ
  pub error_refresh_period_in_seconds : ℤ
  pub region : String
  pub url : String

pub record Properties : Type 0 where
  pub assume_role_result : AssumeRoleResult
  pub configuration : QueueConfiguration

pub record Token : Type 0 where
  pub owner_id : String
  pub queue_properties_list : List Properties

abbrev pub expire_time_millis : Properties → ℤ
expire_time_millis p = p.assume_role_result.credentials.expire_time_millis

abbrev pub region : Properties → String
region p = p.configuration.region

abbrev pub url : Properties → String
url p = p.configuration.url

-- `== AssumeRoleResult{}`: every field has its zero value.
unfoldable pub is_zero : AssumeRoleResult → Bool
is_zero r =
    str_eq r.credentials.access_key_id ""
    && str_eq r.credentials.secret_access_key ""
    && str_eq r.credentials.session_token ""
    && eqb_ℤ r.credentials.expire_time_millis (pos 0)
    && str_eq r.assume_role.id ""
    && str_eq r.assume_role.arn ""

pub record Entity : Type 0 where
  pub id : String
  pub type : String

pub record PayloadAction : Type 0 where
  pub name : String
  pub extra_field : String

pub record Payload : Type 0 where
  pub request_id : String
  pub entity : Entity
  pub action : String
  pub mapped_action : PayloadAction
  pub action_type : String
  pub discard_script_response : Bool

abbrev pub custom_action_type : String
custom_action_type = "custom"

abbrev pub http_action_type : String
http_action_type = "http"
