-- ===== src/Rpc.antt =====
-- internal/rpc/message: the messages of JSON-RPC 2.0. What encoding/json makes of bytes is a
-- parameter; the bytes of a message are texts.
pub mod Registry
pub mod Dispatch
pub mod Wrapped
pub mod Replies
pub mod Batches
mod Tests
use Prim.Native.String.{◌++◌}
use cdev.Base.{
  String, ℕ, Bool, true, false, not, List, [], ◌∷◌, Option, none, some, if◌then◌else◌, test,
  string_discrete,
}
use cdev.Base.Text.{Text}

pub data ℤ : Type 0 where
  pos negsuc : ℕ → ℤ

-- ID: its value is nil, a string or an int64
pub data MessageId : Type 0 where
  null_id : MessageId
  string_id : String → MessageId
  number_id : ℤ → MessageId

pub record Request : Type 0 where
  pub jsonrpc : String
  pub id : Option MessageId
  pub method : String
  pub params : Option Text

-- Error codes
pub data Code : Type 0 where
  parse_error_code invalid_request_code method_not_found_code internal_error_code : Code
  other_code : ℤ → Code

abbrev pub number_of : Code → ℤ
number_of parse_error_code = negsuc 32699
number_of invalid_request_code = negsuc 32599
number_of method_not_found_code = negsuc 32600
number_of internal_error_code = negsuc 32602
number_of (other_code n) = n

pub record RpcError : Type 0 where
  pub code : Code
  pub message : String
  pub error_data : Option Text

pub record Response : Type 0 where
  pub jsonrpc : String
  pub id : Option MessageId
  pub result : Option Text
  pub error : Option RpcError

abbrev pub version : String
version = "2.0"

-- IsNotification
abbrev pub is_notification : Request → Bool
is_notification r = elim r.id [ none ↦ true | some i ↦ false ]

-- NewError
abbrev pub new_error : Code → String → RpcError
new_error code message = record { code = code; message = message; error_data = none }

abbrev pub or_default : String → String → String
or_default message default = if test (string_discrete message "") then default else message

-- ErrParseError
abbrev pub err_parse_error : String → RpcError
err_parse_error message = new_error parse_error_code (or_default message "Parse error")

-- ErrInvalidRequest
abbrev pub err_invalid_request : String → RpcError
err_invalid_request message = new_error invalid_request_code (or_default message "Invalid Request")

-- ErrMethodNotFound
abbrev pub err_method_not_found : String → RpcError
err_method_not_found method = new_error method_not_found_code ("Method not found: " ++ method)

-- ErrInternalError
abbrev pub err_internal_error : String → RpcError
err_internal_error message = new_error internal_error_code (or_default message "Internal error")

-- NewErrorResponse
abbrev pub new_error_response : Option MessageId → RpcError → Response
new_error_response id err = record { jsonrpc = version; id = id; result = none; error = some err }

-- What can come out of a call that can fail.
pub data Outcome {ℓ} (A : Type ℓ) : Type ℓ where
  returned : A → Outcome A
  failed : String → Outcome A

abbrev pub success : Option MessageId → Option Text → Response
success id result = record { jsonrpc = version; id = id; result = result; error = none }

abbrev pub with_result : Option MessageId → Outcome Text → Outcome Response
with_result id (returned t) = returned (success id (some t))
with_result id (failed e) = failed e

-- NewSuccessResponse, with json.Marshal as a parameter
abbrev pub new_success_response {ℓ} :
    {V : Type ℓ} → (V → Outcome Text) → Option MessageId → Option V → Outcome Response
new_success_response marshal id none = returned (success id none)
new_success_response marshal id (some v) = with_result id (marshal v)

abbrev pub check_request : Outcome Request → Outcome Request
check_request (failed e) = failed e
check_request (returned r) =
    if test (string_discrete r.jsonrpc version)
    then (if test (string_discrete r.method "") then failed "missing method" else returned r)
    else failed ("invalid jsonrpc version: " ++ r.jsonrpc)

-- ParseRequest, with json.Unmarshal into a Request as a parameter; a null id becomes a nil pointer
abbrev pub parse_request : (Text → Outcome Request) → Text → Outcome Request
parse_request unmarshal bytes = check_request (unmarshal bytes)
