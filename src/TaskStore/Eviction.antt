-- ===== src/TaskStore/Eviction.antt =====
-- The second and the third loop of `Save` in pkg/storage/memory.go: eviction, and the new keys.
use mathlib.Core.List.{append_assoc, append-nil}
use progo_a2a.Prelude.{
  ℕ, suc, ◌+◌, ◌-◌, ◌≤◌, String, ◌≡◌, refl, sym, ap, ◌∙◌, true, false, none, some, List, [], ◌∷◌,
  ◌++◌, arith, length, str_eq_iff, if◌then◌else◌, Bool-cases, inl, inr, ltb,
}
use progo_a2a.Prelude.Dict.{Dict, get, put, remove, has, size, get-put, get-remove}
use progo_a2a.A2a.{TaskResponse}
use progo_a2a.TaskStore.{MemoryTaskStore, contains, evict, insert_new}
use progo_a2a.TaskStore.Order.{AllDistinct, drop, drop-contains}
use progo_a2a.TaskStore.Loops.{IsIndex, IsIndex-push, IsIndex-pop}

-- What the second loop leaves: it takes as many elements from the front as there are too many.
pub record Evicted (max_tasks n : ℕ) (tasks : Dict TaskResponse) (ll : List String)
    (out : Dict TaskResponse × List String) : Type 0 where
  pub order : out.1 ≡ drop (length ll + n - max_tasks) ll
  pub contents :
      (j : String)
      → get j out.0
        ≡ (if contains j (drop (length ll + n - max_tasks) ll) then get j tasks else none)
  pub index : IsIndex out.0 out.1

get-none : (j : String) (tasks : Dict TaskResponse) → has j tasks ≡ false → get j tasks ≡ none
get-none j tasks h = ground arith

pub evict-Evicted :
    (max_tasks n : ℕ) (tasks : Dict TaskResponse) (ll : List String)
    → n ≤ max_tasks
    → IsIndex tasks ll
    → Evicted max_tasks n tasks ll (evict max_tasks n tasks ll)
unfolding evict
evict-Evicted max_tasks n tasks [] fits x =
    let e : 0 + n - max_tasks ≡ 0 = omega arith in
    record {
      order = rw e refl;
      contents = λ j. rw e (unfold contains in get-none j tasks (x.same j));
      index = x;
    }
evict-Evicted max_tasks n tasks (j ∷ ll) fits x =
    elim (Bool-cases (ltb max_tasks (size tasks + n))) [
      | inl h ↦
          let e : suc (length ll) + n - max_tasks ≡ suc (length ll + n - max_tasks) =
            ground (arith, x.sizes) in
          let rest =
            evict-Evicted max_tasks n (remove j tasks) ll fits (IsIndex-pop j tasks ll x) in
          rw h (record {
            order = rest.order ∙ sym (ap (λ (m : ℕ). drop m (j ∷ ll)) e);
            contents = λ k. rw e (
                ground (
                  arith,
                  rest.contents k,
                  get-remove j k tasks x.dict,
                  str_eq_iff j k,
                  drop-contains (length ll + n - max_tasks) ll j x.distinct.0,
                ));
            index = rest.index;
          })
      | inr h ↦
          let e : suc (length ll) + n - max_tasks ≡ 0 = ground (arith, x.sizes) in
          rw h (record {
            order = sym (ap (λ (m : ℕ). drop m (j ∷ ll)) e);
            contents = λ k. rw e (ground (arith, x.same k));
            index = x;
          })
    ]

-- What the third loop leaves.
pub record Inserted (resp : TaskResponse) (keys : List String) (s out : MemoryTaskStore)
    : Type 0 where
  pub order : out.ll ≡ s.ll ++ keys
  pub contents :
      (j : String) → get j out.tasks ≡ (if contains j keys then some resp else get j s.tasks)
  pub index : IsIndex out.tasks out.ll
  pub same_max : out.max_tasks ≡ s.max_tasks

pub insert_new-Inserted :
    (resp : TaskResponse) (keys : List String) (s : MemoryTaskStore)
    → AllDistinct keys
    → ((j : String) → contains j keys ≡ true → has j s.tasks ≡ false)
    → IsIndex s.tasks s.ll
    → Inserted resp keys s (insert_new resp keys s)
unfolding insert_new contains
insert_new-Inserted resp [] s d fresh x = record {
  order = sym (append-nil s.ll);
  contents = λ j. refl;
  index = x;
  same_max = refl;
}
insert_new-Inserted resp (k ∷ keys) s d fresh x =
    let absent = fresh k (ground (arith, str_eq_iff k k)) in
    let rest =
      insert_new-Inserted resp keys (record s { tasks = put k resp s.tasks; ll = s.ll ++ k ∷ [] })
        d.1 (λ j h. ground (arith, get-put k j resp s.tasks, fresh j, str_eq_iff k j, d.0))
        (IsIndex-push k resp s.tasks s.ll x absent) in
    record {
      order = rest.order ∙ append_assoc s.ll (k ∷ []) keys;
      contents = λ j. ground (arith, rest.contents j, get-put k j resp s.tasks);
      index = rest.index;
      same_max = rest.same_max;
    }
