-- ===== src/Permission/Types.antt =====
-- internal/permission/types.go: the data of the permission bridge. Times are numbers (Go's
-- time.Time as nanoseconds), and a tool's input is a JSON object.
use cdev.Base.{String, ℕ, Bool}
use cdev.Base.Text.{Text}
use cdev.Base.Map.{Map}

pub data Decision : Type 0 where
  allow deny : Decision

-- unset is the zero value "" of a response that is built without a scope.
pub data Scope : Type 0 where
  once session path unset : Scope

-- A JSON value as the program reads it: a text, or something that is no text.
pub data Value : Type 0 where
  text : Text → Value
  other : Value

abbrev pub ToolInput : Type 0
ToolInput = Map String Value

-- The response channel of a request is named by a number: the pointer that its waiter shares.
pub record Request : Type 0 where
  pub id : String
  pub session_id : String
  pub workspace_id : String
  pub tool_name : Text
  pub tool_input : ToolInput
  pub tool_use_id : String
  pub created_at : ℕ
  pub response_chan : ℕ

pub record Response : Type 0 where
  pub decision : Decision
  pub scope : Scope
  pub pattern : Text
  pub message : String
  pub interrupt : Bool

pub record StoredDecision : Type 0 where
  pub pattern : Text
  pub decision : Decision
  pub created_at : ℕ
  pub usage_count : ℕ

pub record SessionMemory : Type 0 where
  pub session_id : String
  pub workspace_id : String
  pub decisions : Map Text StoredDecision
  pub created_at : ℕ
  pub last_access : ℕ

pub record SessionMemoryConfig : Type 0 where
  pub enabled : Bool
  pub ttl : ℕ
  pub max_patterns : ℕ
