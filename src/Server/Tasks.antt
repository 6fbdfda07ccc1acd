-- ===== src/Server/Tasks.antt =====
-- pkg/server/a2a_handler.go and pkg/server/request_body.go: the handlers that dispatch a task and load its
-- response, over the dispatcher and the memory store of tasks.
use progo_a2a.Prelude.{
  ℕ, String, Bool, ◌&&◌, not, Option, none, some, List, [], ◌∷◌, ltb, str_eq, is_empty,
  if◌then◌else◌, Result, ok, err,
}
use progo_a2a.A2a.{
  A2aError, Code, TaskRequest, TaskResponse, invalid_request, request_too_large, forbidden,
  internal_error, task_storage_unavailable,
}
use progo_a2a.Config.{AgentConfig}
use progo_a2a.Dispatcher.{World, Dispatcher, Run, Failed, a2a, find_agent_by_capability}
use progo_a2a.Dispatcher.Fallback.{Answer, dispatch, new_run}
use progo_a2a.TaskStore.{StoreError, task_not_found, MemoryTaskStore, save, load}
use progo_a2a.Server.Access.{ClientCredentials, allows, refusal}

abbrev pub max_request_body_bytes : ℕ
max_request_body_bytes = 10_485_760

-- What `io.ReadAll` gives of the limited body: an error, or the bytes with their number.
pub data Body : Type 0 where
  unreadable : Body
  read : ℕ → String → Body

pub data Reply : Type 0 where
  refused : A2aError → Reply
  answered : TaskResponse → Reply

-- `readRequestBody`, and the refusal of its error.
unfoldable pub read_request_body : Body → Result A2aError String
read_request_body unreadable = err (refusal invalid_request "" 400)
read_request_body (read size bytes) =
    if ltb max_request_body_bytes size then err (refusal request_too_large "" 413) else ok bytes

abbrev pub decode_body :
    (String → Option TaskRequest) → Result A2aError String → Result A2aError TaskRequest
decode_body decode (err e) = err e
decode_body decode (ok bytes) = elim (decode bytes) [
  | none ↦ err (refusal invalid_request "" 400)
  | some task ↦ ok task
]

abbrev pub check_agent : ClientCredentials → String → Option A2aError
check_agent creds agent_id =
    if not (is_empty agent_id) && not (allows creds agent_id)
    then some (refusal forbidden agent_id 403)
    else none

abbrev pub aliases_of : TaskRequest → TaskResponse → List String
aliases_of task resp =
    if not (is_empty task.id) && not (str_eq resp.task_id task.id) then task.id ∷ [] else []

abbrev pub saved_reply :
    TaskRequest → TaskResponse → Option StoreError × MemoryTaskStore → Reply × MemoryTaskStore
saved_reply task resp (none, store) = (answered resp, store)
saved_reply task resp (some e, store) =
    (refused (refusal task_storage_unavailable task.agent_id 503), store)

-- The task with an id.
abbrev pub with_id : (X : World) → TaskRequest → X.State → TaskRequest × X.State
with_id X task w =
    let (fresh, w') = X.generate_task_id w in
    if is_empty task.id then (record task { id = fresh }, w') else (task, w)

module _ {X : World} where
  abbrev pub check_found : ClientCredentials → Result (Failed X) AgentConfig → Option A2aError
  check_found creds (ok agent) = check_agent creds agent.id
  check_found creds (err (a2a e)) = some e
  check_found creds (err _) = some (refusal Code.capability_not_found "" 404)

  -- The check of the client's access before a task is dispatched: `none` lets it pass.
  unfoldable pub check_access :
      Dispatcher X → Option ClientCredentials → TaskRequest → Option A2aError
  unfolding allows find_agent_by_capability
  check_access d none task = none
  check_access d (some creds) task =
      if is_empty task.agent_id && not (is_empty task.required_capability)
      then check_found creds (find_agent_by_capability d task.required_capability)
      else check_agent creds task.agent_id

  abbrev pub failed_reply : TaskRequest → Failed X → Reply
  failed_reply task (a2a e) = refused e
  failed_reply task _ = refused (refusal internal_error task.agent_id 500)

  -- The answer of a dispatch is saved under its id and that of the task.
  unfoldable pub finish_dispatch :
      Bool
      → TaskRequest
      → Answer X TaskResponse
      → MemoryTaskStore
      → Option (Reply × Run X × MemoryTaskStore)
  unfolding save
  finish_dispatch ctx_done task none store = none
  finish_dispatch ctx_done task (some (err e, run)) store = some (failed_reply task e, run, store)
  finish_dispatch ctx_done task (some (ok resp, run)) store =
      let (reply, store') =
        saved_reply task resp (save ctx_done (some resp) (aliases_of task resp) store) in
      some (reply, run, store')

  -- The task goes on when the check of access lets it pass.
  abbrev pub dispatch_checked :
      Dispatcher X
      → Bool
      → X.State
      → MemoryTaskStore
      → TaskRequest
      → Option A2aError
      → Option (Reply × Run X × MemoryTaskStore)
  dispatch_checked d ctx_done w store task (some e) = some (refused e, new_run w, store)
  dispatch_checked d ctx_done w store task none =
      finish_dispatch ctx_done task (dispatch d (some task) w) store

  abbrev pub dispatch_decoded :
      Dispatcher X
      → Option ClientCredentials
      → Bool
      → X.State
      → MemoryTaskStore
      → Result A2aError TaskRequest
      → Option (Reply × Run X × MemoryTaskStore)
  dispatch_decoded d creds ctx_done w store (err e) = some (refused e, new_run w, store)
  dispatch_decoded d creds ctx_done w store (ok decoded) =
      let (task, w') = with_id X decoded w in
      dispatch_checked d ctx_done w' store task (check_access d creds task)

  -- `DispatchTask`; `none` is a dispatch out of fuel, and `ctx_done` is whether the context is done when the
  -- response is saved.
  unfoldable pub dispatch_task :
      (String → Option TaskRequest)
      → Dispatcher X
      → Option ClientCredentials
      → Bool
      → Body
      → X.State
      → MemoryTaskStore
      → Option (Reply × Run X × MemoryTaskStore)
  unfolding read_request_body check_access finish_dispatch dispatch
  dispatch_task decode d creds ctx_done body w store =
      dispatch_decoded d creds ctx_done w store (decode_body decode (read_request_body body))

abbrev pub loaded_reply : Option ClientCredentials → Result StoreError TaskResponse → Reply
loaded_reply creds (err task_not_found) = refused (refusal Code.task_not_found "" 404)
loaded_reply creds (err _) = refused (refusal task_storage_unavailable "" 503)
loaded_reply none (ok resp) = answered resp
loaded_reply (some c) (ok resp) =
    if allows c resp.agent_id then answered resp else refused (refusal forbidden resp.agent_id 403)

-- `GetTask`, with the id that the path names.
unfoldable pub get_task : Option ClientCredentials → Bool → String → MemoryTaskStore → Reply
unfolding load allows
get_task creds ctx_done task_id store = loaded_reply creds (load ctx_done task_id store)
