-- ===== src/Server/Replies.antt =====
-- What the handlers of tasks of pkg/server/a2a_handler.go reply, and what they leave in the store.
use progo_a2a.Prelude.{
  ◌≤◌, String, ◌≡◌, refl, sym, ap, subst, ◌∙◌, ◌≢◌, inl, inr, Bool, true, false, ◌||◌, Option, none,
  some, List, [], ◌∷◌, length, str_eq, str_eq_iff, is_empty, Bool-cases, ok, err, arith,
}
use progo_a2a.A2a.{A2aError, TaskRequest, TaskResponse, forbidden}
use progo_a2a.Config.{AgentConfig}
use progo_a2a.Dispatcher.{
  World, Dispatcher, Run, Failed, resolve_agent, get_agent, find_agent_by_capability,
}
use progo_a2a.Dispatcher.Fallback.{Answer, dispatch, new_run}
use progo_a2a.TaskStore.{StoreError, MemoryTaskStore, save, save_keys, load, collect_keys, contains}
use progo_a2a.TaskStore.Fifo.{IsStore}
use progo_a2a.TaskStore.Saving.{load-save}
use progo_a2a.Dispatcher.Routing.{get_agent-found}
use progo_a2a.Server.Access.{ClientCredentials, allows, refusal}
use progo_a2a.Server.Tasks.{
  Body, Reply, refused, answered, read_request_body, decode_body, check_access, with_id,
  failed_reply, aliases_of, saved_reply, finish_dispatch, dispatch_checked, dispatch_decoded,
  dispatch_task, loaded_reply, get_task,
}

saved_ok :
    (ctx_done : Bool) (resp : TaskResponse) (aliases : List String) (s : MemoryTaskStore)
    → (save ctx_done (some resp) aliases s).0 ≡ none
    → (ctx_done ≡ false)
      × (is_empty resp.task_id ≡ false)
      × (length (collect_keys (resp.task_id ∷ []) aliases) ≤ s.max_tasks)
unfolding save save_keys
saved_ok ctx_done resp aliases s h = (ground (arith, h), ground (arith, h), ground (arith, h))

-- The response was saved, and `after` is what the save left.
abbrev IsSaved : Bool → TaskRequest → TaskResponse → MemoryTaskStore → MemoryTaskStore → Type 0
IsSaved ctx_done task resp store after =
    save ctx_done (some resp) (aliases_of task resp) store ≡ (none, after)

saved-answered :
    (task : TaskRequest) (x resp : TaskResponse) (o : Option StoreError × MemoryTaskStore)
    → (saved_reply task x o).0 ≡ answered resp
    → (x ≡ resp) × (o ≡ (none, (saved_reply task x o).1))
saved-answered task x resp (none, s) h = (ground (arith, h), refl)
saved-answered task x resp (some e, s) h = absurd (ground (arith, h))

-- The id that a task came with leads to its response.
alias_found :
    (X : World) (task : TaskRequest) (w : X.State) (resp : TaskResponse) (id : String)
    → is_empty id ≡ false
    → str_eq resp.task_id id || str_eq task.id id ≡ true
    → str_eq resp.task_id id || contains id (aliases_of (with_id X task w).0 resp) ≡ true
unfolding contains
alias_found X task w resp id full h = ground (
  arith,
  h,
  full,
  str_eq_iff task.id id,
  str_eq_iff resp.task_id id,
  str_eq_iff resp.task_id task.id,
  str_eq_iff id id,
)

module _ {X : World} where
  -- The check looks at the agent to which the task resolves.
  check_access-resolved :
      (d : Dispatcher X) (c : ClientCredentials) (task : TaskRequest) (agent : AgentConfig)
      → resolve_agent d (some task) ≡ ok agent
      → allows c agent.id ≡ false
      → is_empty agent.id ≡ false
      → check_access d (some c) task ≡ some (refusal forbidden agent.id 403)
  unfolding check_access resolve_agent
  check_access-resolved d c task agent h banned named = elim (Bool-cases (is_empty task.agent_id)) [
    | inl e ↦ elim (Bool-cases (is_empty task.required_capability)) [
      | inl q ↦ absurd (ground (arith, h, e, q))
      | inr q ↦
          let found : find_agent_by_capability d task.required_capability ≡ ok agent =
            ground (arith, h, e, q) in
          rw (e, q, found, banned, named) refl
    ]
    | inr e ↦
        let found : get_agent d task.agent_id ≡ ok agent = ground (arith, h, e) in
        let (i, (same, known)) = get_agent-found d task.agent_id agent found in
        ground (arith, e, banned, named, same)
  ]

  resolve_agent-with_id :
      (d : Dispatcher X) (task : TaskRequest) (w : X.State)
      → resolve_agent d (some (with_id X task w).0) ≡ resolve_agent d (some task)
  unfolding resolve_agent
  resolve_agent-with_id d task w = elim (Bool-cases (is_empty task.id)) [
    | inl h ↦ rw h refl
    | inr h ↦ rw h refl
  ]

  -- A task whose agent, named or found by its capability, the client may not use is refused with 403 before any request is
  -- sent, and nothing is stored.
  pub dispatch_task-forbidden :
      (decode : String → Option TaskRequest) (d : Dispatcher X) (c : ClientCredentials)
      (ctx_done : Bool) (body : Body) (w : X.State) (store : MemoryTaskStore) (task : TaskRequest)
      (agent : AgentConfig)
      → decode_body decode (read_request_body body) ≡ ok task
      → resolve_agent d (some task) ≡ ok agent
      → is_empty agent.id ≡ false
      → allows c agent.id ≡ false
      → dispatch_task decode d (some c) ctx_done body w store
        ≡ some (refused (refusal forbidden agent.id 403), new_run (with_id X task w).1, store)
  unfolding dispatch_task
  dispatch_task-forbidden decode d c ctx_done body w store task agent decoded h named banned =
      let checked =
        check_access-resolved d c (with_id X task w).0 agent (resolve_agent-with_id d task w ∙ h)
          banned named in
      let named_task = with_id X task w in
      ap (dispatch_decoded d (some c) ctx_done w store) decoded
      ∙ ap (dispatch_checked d ctx_done named_task.1 store named_task.0) checked

  failed-answered :
      (task : TaskRequest) (e : Failed X) (resp : TaskResponse)
      → failed_reply task e ≢ answered resp
  failed-answered task e resp h = ground (arith, h)

  reply_of : Reply → Option (Reply × Run X × MemoryTaskStore) → Reply
  reply_of x none = x
  reply_of x (some (y, r, t)) = y

  store_of : MemoryTaskStore → Option (Reply × Run X × MemoryTaskStore) → MemoryTaskStore
  store_of t none = t
  store_of t (some (y, r, u)) = u

  finished :
      (ctx_done : Bool) (task : TaskRequest) (a : Answer X TaskResponse) (store : MemoryTaskStore)
      (resp : TaskResponse) (run : Run X) (after : MemoryTaskStore)
      → finish_dispatch ctx_done task a store ≡ some (answered resp, run, after)
      → IsSaved ctx_done task resp store after
  unfolding finish_dispatch reply_of store_of
  finished ctx_done task none store resp run after h = absurd (ground (arith, h))
  finished ctx_done task (some (err e, r)) store resp run after h =
      absurd (failed-answered task e resp (ap (reply_of (failed_reply task e)) h))
  finished ctx_done task (some (ok x, r)) store resp run after h =
      let out = save ctx_done (some x) (aliases_of task x) store in
      let (same, saved) =
        saved-answered task x resp out (ap (reply_of (saved_reply task x out).0) h) in
      let left : (saved_reply task x out).1 ≡ after = ap (store_of store) h in
      subst (λ y. IsSaved ctx_done task y store after) same
        (saved ∙ ap (λ (t : MemoryTaskStore). (none, t)) left)

  checked-answered :
      (d : Dispatcher X) (ctx_done : Bool) (w : X.State) (store : MemoryTaskStore)
      (task : TaskRequest) (o : Option A2aError) (resp : TaskResponse) (run : Run X)
      (after : MemoryTaskStore)
      → dispatch_checked d ctx_done w store task o ≡ some (answered resp, run, after)
      → IsSaved ctx_done task resp store after
  unfolding reply_of
  checked-answered d ctx_done w store task (some e) resp run after h =
      let wrong : refused e ≡ answered resp = ap (reply_of (refused e)) h in
      absurd (ground (arith, wrong))
  checked-answered d ctx_done w store task none resp run after h =
      finished ctx_done task (dispatch d (some task) w) store resp run after h

  -- When a task is answered with 200, its response can be loaded: by the id of the response and by the id that the task came
  -- with, when it has one, a client that may use the agent of the response gets the same response.
  pub get_task-dispatch_task :
      (decode : String → Option TaskRequest) (d : Dispatcher X) (creds : Option ClientCredentials)
      (ctx_done : Bool) (body : Body) (w : X.State) (store : MemoryTaskStore) (task : TaskRequest)
      (resp : TaskResponse) (run : Run X) (after : MemoryTaskStore) (c : ClientCredentials)
      (id : String)
      → IsStore store
      → decode_body decode (read_request_body body) ≡ ok task
      → dispatch_task decode d creds ctx_done body w store ≡ some (answered resp, run, after)
      → is_empty id ≡ false
      → str_eq resp.task_id id || str_eq task.id id ≡ true
      → allows c resp.agent_id ≡ true
      → get_task (some c) false id after ≡ answered resp
  unfolding dispatch_task get_task
  get_task-dispatch_task decode d creds ctx_done body w store task resp run after c id x decoded h
        full either allowed =
      let named = with_id X task w in
      let saved =
        checked-answered d ctx_done named.1 store named.0 (check_access d creds named.0) resp run
          after (ap (dispatch_decoded d creds ctx_done w store) (sym decoded) ∙ h) in
      let (live, filled, fits) =
        saved_ok ctx_done resp (aliases_of named.0 resp) store
          (ap (λ (o : Option StoreError × MemoryTaskStore). o.0) saved) in
      let key : str_eq resp.task_id id || contains id (aliases_of named.0 resp) ≡ true =
        alias_found X task w resp id full either in
      let loaded = load-save resp (aliases_of named.0 resp) store id x filled fits full key in
      let left : (save false (some resp) (aliases_of named.0 resp) store).1 ≡ after =
        ap (λ (o : Option StoreError × MemoryTaskStore). o.1)
          (subst (λ b. IsSaved b named.0 resp store after) live saved) in
      let found : load false id after ≡ ok resp =
        subst (λ t. load false id t ≡ ok resp) left loaded in
      ap (loaded_reply (some c)) found ∙ rw allowed refl
