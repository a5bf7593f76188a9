-- ===== src/Queue/Sqs.antt =====
-- queue/sqs_provider.go. The AWS session and client are not in the repository: `connects` says
-- whether session.NewSession succeeds for the credentials, and each call is given the answer of the
-- SQS client. A request records the queue, the receipt handle and the numbers that the code fills in,
-- and the credentials of the client that sends it.
use jec.Prelude.{
  ℤ, pos, String, Bool, true, false, List, [], ◌∷◌, Option, none, some, if◌then◌else◌,
}
use jec.Queue.Token.{AssumeRoleResult, Credentials, Properties, url, region}

-- sqs.Message, as far as the code reads it. A pointer field is an Option where nil is possible; the
-- attributes are the two that are asked for.
pub record Message : Type 0 where
  pub message_id : String
  pub receipt_handle : String
  pub body : String
  pub attributes : Option (List (String × String))

-- An error of the client: an awserr.Error, with whether its code contains "ExpiredToken", or another.
pub data SqsError : Type 0 where
  aws_error : (expired_token : Bool) → SqsError
  other_error : SqsError

-- The client that `sqs.New(sess)` makes carries the region and the credentials of newConfig.
pub record Client : Type 0 where
  pub client_region : String
  pub client_credentials : Credentials

pub record Provider : Type 0 where
  pub queue_properties : Properties
  pub client : Option Client
  pub is_token_expired : Bool

pub data Request : Type 0 where
  change_visibility : (queue_url receipt_handle : String) (visibility_timeout : ℤ) → Request
  delete_message : (queue_url receipt_handle : String) → Request
  receive_message :
      (attribute_names : List String) (queue_url : String)
      (max_number visibility_timeout wait_time_seconds : ℤ)
      → Request

abbrev pub owner_id : String
owner_id = "ownerId"

abbrev pub channel_id : String
channel_id = "channelId"

unfoldable pub new_config : Provider → AssumeRoleResult → Client
new_config p r = record {
  client_region = region p.queue_properties;
  client_credentials = r.credentials;
}

-- checkExpiration: the flag is only ever set here.
unfoldable pub check_expiration : Provider → Option SqsError → Provider
check_expiration p none = p
check_expiration p (some (aws_error expired)) =
    if expired then record p { is_token_expired = true } else p
check_expiration p (some other_error) = p

abbrev pub set_role : Properties → AssumeRoleResult → Properties
set_role q r = record q { assume_role_result = r }

-- RefreshClient: on an error of session.NewSession nothing changes.
unfoldable pub refresh_client : (Client → Bool) → Provider → AssumeRoleResult → Provider × Bool
unfolding new_config
refresh_client connects p r =
    if connects (new_config p r)
    then (
      record {
        queue_properties = set_role p.queue_properties r;
        client = some (new_config p r);
        is_token_expired = false;
      },
      true,
    )
    else (p, false)

abbrev unconnected : Properties → Provider
unconnected q = record { queue_properties = q; client = none; is_token_expired = false }

-- NewSqsProvider
unfoldable pub new_sqs_provider : (Client → Bool) → Properties → Option Provider
unfolding refresh_client
new_sqs_provider connects q =
    let (p, connected) = refresh_client connects (unconnected q) q.assume_role_result in
    if connected then some p else none

-- The three calls: the request that is sent, and the provider after the client's answer.
unfoldable pub change_message_visibility :
    Provider → Message → ℤ → Option SqsError → Request × Provider × Option SqsError
unfolding check_expiration
change_message_visibility p m timeout err = (
  change_visibility (url p.queue_properties) m.receipt_handle timeout,
  check_expiration p err,
  err,
)

unfoldable pub send_delete :
    Provider → Message → Option SqsError → Request × Provider × Option SqsError
unfolding check_expiration
send_delete p m err =
    (delete_message (url p.queue_properties) m.receipt_handle, check_expiration p err, err)

pub data Received : Type 0 where
  messages : List Message → Received
  failed : SqsError → Received

abbrev pub error_of : Received → Option SqsError
error_of (messages ms) = none
error_of (failed e) = some e

unfoldable pub send_receive : Provider → ℤ → ℤ → Received → Request × Provider × Received
unfolding check_expiration
send_receive p max_num visibility_timeout answer = (
  receive_message (owner_id ∷ channel_id ∷ []) (url p.queue_properties) max_num visibility_timeout
      (pos 20),
  check_expiration p (error_of answer),
  answer,
)
