-- ===== src/TaskStore/Examples.antt =====
-- The theorems of the task store at a store of two tasks with room for two.
use progo_a2a.Prelude.{◌≡◌, refl, false, true, none, some, [], ◌∷◌, arith, ◌≤◌, List, String}
use progo_a2a.Prelude.Dict.{get, put, remove}
use progo_a2a.Prelude.Int.{pos}
use progo_a2a.A2a.{Json, TaskResponse, status_completed}
use progo_a2a.TaskStore.{MemoryTaskStore, new_memory_task_store, collect_keys, contains, save, len}
use progo_a2a.TaskStore.Fifo.{IsStore, Saved}
use progo_a2a.TaskStore.Saving.{SaveCall, save_all, save_all-bounded, save-Saved}

abbrev done : String → TaskResponse
done id = record {
  task_id = id;
  agent_id = "writer";
  status = status_completed;
  output = Json.null;
  artifacts = [];
  error = none;
  timestamp = 0;
}

abbrev full : MemoryTaskStore
full = record { max_tasks = 2; tasks = ("a", done "a") ∷ ("b", done "b") ∷ []; ll = "a" ∷ "b" ∷ [] }

full-IsStore : IsStore full
unfolding contains get
full-IsStore = record {
  index = record {
    dict = (refl, (refl, tt));
    distinct = (refl, (refl, tt));
    same = λ k. ground arith;
    sizes = refl;
  };
  bound = omega arith;
}

-- The oldest task goes.
evicts : (save false (some (done "c")) [] full).1.ll ≡ "b" ∷ "c" ∷ []
unfolding save get remove
evicts = refl

-- A task that is saved again is the newest.
moves : (save false (some (done "a")) ("c" ∷ []) full).1.ll ≡ "a" ∷ "c" ∷ []
unfolding save get put remove
moves = refl

collects : collect_keys ("a" ∷ []) ("" ∷ "b" ∷ "a" ∷ "b" ∷ []) ≡ "a" ∷ "b" ∷ []
unfolding collect_keys
collects = refl

save-Saved_example :
    ((save false (some (done "a")) ("c" ∷ []) full).0 ≡ none)
    × Saved
        (done "a")
        (collect_keys ("a" ∷ []) ("c" ∷ []))
        full
        (save false (some (done "a")) ("c" ∷ []) full).1
save-Saved_example =
    save-Saved (done "a") ("c" ∷ []) full full-IsStore refl (unfold collect_keys in omega arith)

abbrev calls : List SaveCall
calls =
    record { ctx_done = false; resp = some (done "a"); aliases = "b" ∷ [] }
    ∷ record { ctx_done = true; resp = some (done "c"); aliases = [] }
    ∷ record { ctx_done = false; resp = some (done "d"); aliases = [] }
    ∷ []

save_all-bounded_example :
    IsStore (save_all calls (new_memory_task_store (pos 2)))
    × (len (save_all calls (new_memory_task_store (pos 2)))
        ≤ (new_memory_task_store (pos 2)).max_tasks)
save_all-bounded_example = save_all-bounded (pos 2) calls
