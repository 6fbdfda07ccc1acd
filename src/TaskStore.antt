-- ===== src/TaskStore.antt =====
-- pkg/storage/memory.go: the bounded FIFO store of task responses. A key of the map `tasks` and the element
-- of the list `ll` that it points to carry the same id, so an element is known by its id: `tasks` has the
-- contents of the elements, and `ll` their order. The mutex makes each method one step.
pub mod Order
pub mod Loops
pub mod Eviction
pub mod Fifo
pub mod Saving
mod Examples
use progo_a2a.Prelude.{
  ℕ, ◌+◌, String, Bool, true, false, Option, none, some, List, [], ◌∷◌, ◌++◌, length, any, str_eq,
  is_empty, ltb, if◌then◌else◌, Result, ok, err,
}
use progo_a2a.Prelude.Int.{ℤ, pos, leb_ℤ, pos_part}
use progo_a2a.Prelude.Dict.{Dict, get, put, remove, has, size}
use progo_a2a.A2a.{TaskResponse}

pub data StoreError : Type 0 where
  nil_task_response empty_task_id capacity_exceeded task_not_found context_error : StoreError

abbrev pub default_max_tasks : ℕ
default_max_tasks = 10_000

pub record MemoryTaskStore : Type 0 where
  pub max_tasks : ℕ
  pub tasks : Dict TaskResponse
  pub ll : List String

-- `NewMemoryTaskStore`.
unfoldable pub new_memory_task_store : ℤ → MemoryTaskStore
new_memory_task_store max_tasks = record {
  max_tasks = if leb_ℤ max_tasks (pos 0) then default_max_tasks else pos_part max_tasks;
  tasks = [];
  ll = [];
}

unfoldable pub contains : String → List String → Bool
contains k keys = any (λ j. str_eq j k) keys

-- The keys of a call: the canonical id, then the aliases that are not empty and not seen before.
unfoldable pub collect_keys : List String → List String → List String
unfolding contains
collect_keys keys [] = keys
collect_keys keys (a ∷ aliases) =
    collect_keys (if is_empty a then keys else if contains a keys then keys else keys ++ a ∷ [])
      aliases

-- `ll.Remove` of the element with an id.
unfoldable pub without : String → List String → List String
without k [] = []
without k (j ∷ ll) = let rest = without k ll in if str_eq j k then ll else j ∷ rest

-- The first loop: the elements that are there get the response and move to the back.
unfoldable pub update_existing :
    TaskResponse → List String → List String → MemoryTaskStore → List String × MemoryTaskStore
unfolding without
update_existing resp [] new_keys s = (new_keys, s)
update_existing resp (k ∷ keys) new_keys s =
    let found = has k s.tasks in
    update_existing resp keys (if found then new_keys else new_keys ++ k ∷ [])
      (if found then record s { tasks = put k resp s.tasks; ll = without k s.ll ++ k ∷ [] } else s)

-- The second loop: the oldest elements go until there is room for `n` new keys.
unfoldable pub evict : ℕ → ℕ → Dict TaskResponse → List String → Dict TaskResponse × List String
evict max_tasks n tasks [] = (tasks, [])
evict max_tasks n tasks (j ∷ ll) =
    let rest = evict max_tasks n (remove j tasks) ll in
    if ltb max_tasks (size tasks + n) then rest else (tasks, j ∷ ll)

-- The third loop: the new keys go to the back.
unfoldable pub insert_new : TaskResponse → List String → MemoryTaskStore → MemoryTaskStore
insert_new resp [] s = s
insert_new resp (k ∷ keys) s =
    insert_new resp keys (record s { tasks = put k resp s.tasks; ll = s.ll ++ k ∷ [] })

-- What `Save` does under its lock.
unfoldable pub save_keys :
    TaskResponse → List String → MemoryTaskStore → Option StoreError × MemoryTaskStore
unfolding update_existing evict insert_new
save_keys resp keys s =
    if ltb s.max_tasks (length keys)
    then (some capacity_exceeded, s)
    else let (new_keys, s') = update_existing resp keys [] s in
      let (tasks, ll) = evict s'.max_tasks (length new_keys) s'.tasks s'.ll in
      (none, insert_new resp new_keys (record s' { tasks = tasks; ll = ll }))

-- `Save`. The first argument is whether the context is done; `none` is a nil response.
unfoldable pub save :
    Bool → Option TaskResponse → List String → MemoryTaskStore → Option StoreError × MemoryTaskStore
unfolding save_keys collect_keys
save ctx_done none aliases s = (some nil_task_response, s)
save ctx_done (some resp) aliases s =
    if is_empty resp.task_id
    then (some empty_task_id, s)
    else if ctx_done
    then (some context_error, s)
    else save_keys resp (collect_keys (resp.task_id ∷ []) aliases) s

abbrev found_or : Option TaskResponse → Result StoreError TaskResponse
found_or none = err task_not_found
found_or (some resp) = ok resp

-- `Load`.
unfoldable pub load : Bool → String → MemoryTaskStore → Result StoreError TaskResponse
load ctx_done id s =
    if ctx_done
    then err context_error
    else if is_empty id
    then err task_not_found
    else found_or (get id s.tasks)

-- `Len`.
unfoldable pub len : MemoryTaskStore → ℕ
len s = size s.tasks
