-- ===== src/A2a.antt =====
-- pkg/model/a2a.go and pkg/model/error.go: tasks, their responses and errors. A value of the Go type `any`
-- is a JSON value.
use progo_a2a.Prelude.{ℕ, String, Bool, Option, List}

mutual
  pub data Json : Type 0 where
    null : Json
    boolean : Bool → Json
    -- a number by its literal
    number : String → Json
    text : String → Json
    array : Items → Json
    object : Fields → Json

  pub data Items : Type 0 where
    nil : Items
    cons : Json → Items → Items

  pub data Fields : Type 0 where
    end : Fields
    field : String → Json → Fields → Fields

pub data TaskStatus : Type 0 where
  status_pending status_in_progress status_completed status_failed status_canceled : TaskStatus

pub record TaskRequest : Type 0 where
  pub id : String
  pub agent_id : String
  pub required_capability : String
  pub input : Json
  pub context : Option Fields
  pub metadata : Option Fields
  pub stream : Bool

pub record Artifact : Type 0 where
  pub name : String
  pub mime_type : String
  pub uri : String
  pub content : Json

pub record TaskResponse : Type 0 where
  pub task_id : String
  pub agent_id : String
  pub status : TaskStatus
  pub output : Json
  pub artifacts : List Artifact
  pub error : Option String
  pub timestamp : ℕ

pub data StreamEventType : Type 0 where
  task_started step_progress token_delta task_completed task_error : StreamEventType

-- The codes that the proxy gives to its errors.
pub data Code : Type 0 where
  agent_not_found capability_not_found invalid_request cycle_detected : Code
  downstream_timeout downstream_unavailable : Code
  forbidden unauthorized request_too_large internal_error : Code
  task_storage_unavailable task_not_found stream_unsupported : Code

-- `A2AError`, less its message and its time stamp.
pub record A2aError : Type 0 where
  pub code : Code
  pub agent_id : String
  pub status : ℕ
