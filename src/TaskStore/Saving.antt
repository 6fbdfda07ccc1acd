-- ===== src/TaskStore/Saving.antt =====
-- `Save`, `Load` and `Len` of pkg/storage/memory.go.
use progo_a2a.Prelude.{
  ◌≤◌, String, ◌≡◌, ◌⊎◌, refl, ◌∙◌, Bool, true, false, ◌&&◌, ◌||◌, not, Option, none, some, List,
  [], ◌∷◌, ◌++◌, arith, length, str_eq, str_eq_iff, if◌then◌else◌, Bool-cases, inl, inr, is_empty,
  ltb, ok,
}
use progo_a2a.Prelude.Int.{ℤ}
use progo_a2a.Prelude.Dict.{get}
use progo_a2a.A2a.{TaskResponse}
use progo_a2a.TaskStore.{
  MemoryTaskStore, new_memory_task_store, contains, collect_keys, save_keys, save, load, len,
}
use progo_a2a.TaskStore.Order.{AllDistinct, contains-append, append_one-AllDistinct}
use progo_a2a.TaskStore.Fifo.{IsStore, Saved, save_keys-Saved}

collect_keys-AllDistinct :
    (aliases keys : List String) → AllDistinct keys → AllDistinct (collect_keys keys aliases)
unfolding collect_keys
collect_keys-AllDistinct [] keys d = d
collect_keys-AllDistinct (a ∷ aliases) keys d =
    collect_keys-AllDistinct aliases _ (ground (arith, append_one-AllDistinct keys a d))

collect_keys-contains :
    (keys aliases : List String) (j : String)
    → contains j (collect_keys keys aliases)
      ≡ contains j keys || (not (is_empty j) && contains j aliases)
unfolding collect_keys contains
collect_keys-contains keys [] j = ground arith
collect_keys-contains keys (a ∷ aliases) j = ground (
  arith,
  collect_keys-contains
      (if is_empty a then keys else if contains a keys then keys else keys ++ a ∷ []) aliases j,
  contains-append j keys (a ∷ []),
  str_eq_iff a j,
)

-- The keys that a `Save` uses are distinct, and they are the canonical id and the aliases that are not empty.
pub collect_keys_lem :
    (id : String) (aliases : List String)
    → AllDistinct (collect_keys (id ∷ []) aliases)
      × ((j : String)
          → contains j (collect_keys (id ∷ []) aliases)
            ≡ str_eq id j || (not (is_empty j) && contains j aliases))
unfolding contains
collect_keys_lem id aliases = (
  collect_keys-AllDistinct aliases (id ∷ []) (refl, tt),
  λ j. ground (arith, collect_keys-contains (id ∷ []) aliases j),
)

-- A `Save` that returns an error leaves the store as it was.
pub save_failed :
    (ctx_done : Bool) (resp : Option TaskResponse) (aliases : List String) (s : MemoryTaskStore)
    → ((save ctx_done resp aliases s).0 ≡ none) ⊎ ((save ctx_done resp aliases s).1 ≡ s)
unfolding save save_keys
save_failed ctx_done none aliases s = inr refl
save_failed ctx_done (some resp) aliases s = elim (Bool-cases (is_empty resp.task_id)) [
  | inl h ↦ rw h (inr refl)
  | inr h ↦ elim (Bool-cases ctx_done) [
    | inl c ↦ rw (h, c) (inr refl)
    | inr c ↦
        elim (Bool-cases (ltb s.max_tasks (length (collect_keys (resp.task_id ∷ []) aliases)))) [
          | inl b ↦ rw (h, c, b) (inr refl)
          | inr b ↦ rw (h, c, b) (inl refl)
        ]
  ]
]

-- A `Save` of a response with an id, within the context, whose distinct keys fit in the store succeeds: the
-- keys stand in the order of their last save, cut from the front to the size of the store, all the keys lead
-- to the response, and every other key that is left leads to what it did.
pub save-Saved :
    (resp : TaskResponse) (aliases : List String) (s : MemoryTaskStore)
    → IsStore s
    → is_empty resp.task_id ≡ false
    → length (collect_keys (resp.task_id ∷ []) aliases) ≤ s.max_tasks
    → ((save false (some resp) aliases s).0 ≡ none)
      × Saved resp (collect_keys (resp.task_id ∷ []) aliases) s (save false (some resp) aliases s).1
unfolding save
save-Saved resp aliases s x id fits =
    rw id (save_keys-Saved resp _ s (collect_keys_lem resp.task_id aliases).0 x fits)

-- Every `Save`, whatever it returns, keeps the list an index of the map and the size within the maximum.
pub save-IsStore :
    (ctx_done : Bool) (resp : Option TaskResponse) (aliases : List String) (s : MemoryTaskStore)
    → IsStore s
    → IsStore (save ctx_done resp aliases s).1
unfolding save save_keys
save-IsStore ctx_done none aliases s x = x
save-IsStore ctx_done (some resp) aliases s x = elim (Bool-cases (is_empty resp.task_id)) [
  | inl h ↦ rw h x
  | inr h ↦ elim (Bool-cases ctx_done) [
    | inl c ↦ rw (h, c) x
    | inr c ↦
        elim (Bool-cases (ltb s.max_tasks (length (collect_keys (resp.task_id ∷ []) aliases)))) [
          | inl b ↦ rw (h, c, b) x
          | inr b ↦ rw c ((save-Saved resp aliases s x h (ground arith)).1.store)
        ]
  ]
]

save-max_tasks :
    (ctx_done : Bool) (resp : Option TaskResponse) (aliases : List String) (s : MemoryTaskStore)
    → IsStore s
    → (save ctx_done resp aliases s).1.max_tasks ≡ s.max_tasks
unfolding save save_keys
save-max_tasks ctx_done none aliases s x = refl
save-max_tasks ctx_done (some resp) aliases s x = elim (Bool-cases (is_empty resp.task_id)) [
  | inl h ↦ rw h refl
  | inr h ↦ elim (Bool-cases ctx_done) [
    | inl c ↦ rw (h, c) refl
    | inr c ↦
        elim (Bool-cases (ltb s.max_tasks (length (collect_keys (resp.task_id ∷ []) aliases)))) [
          | inl b ↦ rw (h, c, b) refl
          | inr b ↦ rw c ((save-Saved resp aliases s x h (ground arith)).1.same_max)
        ]
  ]
]

-- After a `Save` that fits, a `Load` by the canonical id or by an alias that is not empty returns the response.
pub load-save :
    (resp : TaskResponse) (aliases : List String) (s : MemoryTaskStore) (id : String)
    → IsStore s
    → is_empty resp.task_id ≡ false
    → length (collect_keys (resp.task_id ∷ []) aliases) ≤ s.max_tasks
    → is_empty id ≡ false
    → str_eq resp.task_id id || contains id aliases ≡ true
    → load false id (save false (some resp) aliases s).1 ≡ ok resp
unfolding load
load-save resp aliases s id x named fits full k =
    let out = (save-Saved resp aliases s x named fits).1 in
    let known = (collect_keys_lem resp.task_id aliases).1 id in
    let found : get id (save false (some resp) aliases s).1.tasks ≡ some resp =
      ground (arith, out.contents id, known, k, full) in
    rw (full, found) refl

pub record SaveCall : Type 0 where
  pub ctx_done : Bool
  pub resp : Option TaskResponse
  pub aliases : List String

abbrev pub save_all : List SaveCall → MemoryTaskStore → MemoryTaskStore
save_all [] s = s
save_all (c ∷ calls) s = save_all calls (save c.ctx_done c.resp c.aliases s).1

save_all-IsStore :
    (calls : List SaveCall) (s : MemoryTaskStore) → IsStore s → IsStore (save_all calls s)
save_all-IsStore [] s x = x
save_all-IsStore (c ∷ calls) s x =
    save_all-IsStore calls _ (save-IsStore c.ctx_done c.resp c.aliases s x)

save_all-max_tasks :
    (calls : List SaveCall) (s : MemoryTaskStore)
    → IsStore s
    → (save_all calls s).max_tasks ≡ s.max_tasks
save_all-max_tasks [] s x = refl
save_all-max_tasks (c ∷ calls) s x =
    save_all-max_tasks calls _ (save-IsStore c.ctx_done c.resp c.aliases s x)
    ∙ save-max_tasks c.ctx_done c.resp c.aliases s x

-- After any sequence of saves from a new store, whether they succeed or fail, the list holds exactly the keys
-- of the map, each once, and `Len` is at most the capacity that the store was made with.
pub save_all-bounded :
    (max_tasks : ℤ) (calls : List SaveCall)
    → IsStore (save_all calls (new_memory_task_store max_tasks))
      × (len (save_all calls (new_memory_task_store max_tasks))
          ≤ (new_memory_task_store max_tasks).max_tasks)
unfolding new_memory_task_store len contains get
save_all-bounded max_tasks calls =
    let start : IsStore (new_memory_task_store max_tasks) = record {
      index = record { dict = tt; distinct = tt; same = λ k. refl; sizes = refl };
      bound = omega arith;
    } in
    let out = save_all-IsStore calls _ start in
    (out, omega (arith, out.bound, out.index.sizes, save_all-max_tasks calls _ start))
