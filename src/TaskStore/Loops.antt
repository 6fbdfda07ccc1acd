-- ===== src/TaskStore/Loops.antt =====
-- The invariant of the store of pkg/storage/memory.go, and the first loop of `Save`: what it leaves in the map and in the list.
use mathlib.Core.List.{append_assoc, append-nil}
use progo_a2a.Prelude.{
  String, ◌≡◌, refl, sym, ap, ◌∙◌, true, false, ◌&&◌, not, some, List, [], ◌∷◌, ◌++◌, arith, length,
  length-append, keep, str_eq_iff, if◌then◌else◌, Bool-cases, inl, inr,
}
use progo_a2a.Prelude.Dict.{
  Dict, IsDict, get, put, remove, has, size, get-put, get-remove, size-put, size-remove, put-IsDict,
  remove-IsDict,
}
use progo_a2a.A2a.{TaskResponse}
use progo_a2a.TaskStore.{MemoryTaskStore, contains, without, update_existing}
use progo_a2a.TaskStore.Order.{
  AllDistinct, minus, contains-without, contains-append, without_absent, length-without,
  without-AllDistinct, append_one-AllDistinct, minus-append_one, keep-ext,
}

-- The list has the keys of the map, each once.
pub record IsIndex (tasks : Dict TaskResponse) (ll : List String) : Type 0 where
  pub dict : IsDict tasks
  pub distinct : AllDistinct ll
  pub same : (k : String) → has k tasks ≡ contains k ll
  pub sizes : size tasks ≡ length ll

pub IsIndex-push :
    (k : String) (v : TaskResponse) (tasks : Dict TaskResponse) (ll : List String)
    → IsIndex tasks ll
    → has k tasks ≡ false
    → IsIndex (put k v tasks) (ll ++ k ∷ [])
unfolding contains
IsIndex-push k v tasks ll x h = record {
  dict = put-IsDict k v tasks x.dict;
  distinct = append_one-AllDistinct ll k x.distinct (sym (x.same k) ∙ h);
  same = λ j. ground (arith, get-put k j v tasks, contains-append j ll (k ∷ []), x.same j);
  sizes = ground (arith, size-put k v tasks, length-append ll (k ∷ []), x.sizes);
}

pub IsIndex-move :
    (k : String) (v : TaskResponse) (tasks : Dict TaskResponse) (ll : List String)
    → IsIndex tasks ll
    → has k tasks ≡ true
    → IsIndex (put k v tasks) (without k ll ++ k ∷ [])
unfolding contains
IsIndex-move k v tasks ll x h =
    let gone = contains-without k k ll x.distinct in
    record {
      dict = put-IsDict k v tasks x.dict;
      distinct =
          append_one-AllDistinct (without k ll) k (without-AllDistinct k ll x.distinct)
            (ground (arith, gone, str_eq_iff k k));
      same = λ j. ground (
        arith,
        get-put k j v tasks,
        contains-append j (without k ll) (k ∷ []),
        contains-without k j ll x.distinct,
        x.same j,
      );
      sizes = ground (
        arith,
        size-put k v tasks,
        length-append (without k ll) (k ∷ []),
        length-without k ll,
        x.same k,
        x.sizes,
      );
    }

pub IsIndex-pop :
    (j : String) (tasks : Dict TaskResponse) (ll : List String)
    → IsIndex tasks (j ∷ ll)
    → IsIndex (remove j tasks) ll
unfolding contains
IsIndex-pop j tasks ll x = record {
  dict = remove-IsDict j tasks x.dict;
  distinct = x.distinct.1;
  same = λ k. ground (arith, get-remove j k tasks x.dict, x.same k, x.distinct.0, str_eq_iff j k);
  sizes = ground (arith, size-remove j tasks, x.same j, x.sizes, str_eq_iff j j);
}

-- What the first loop leaves, from the new keys `acc` and the store `s`.
pub record Updated (resp : TaskResponse) (keys acc : List String) (s : MemoryTaskStore)
    (out : List String × MemoryTaskStore) : Type 0 where
  pub new_keys : out.0 ≡ acc ++ keep (λ k. not (has k s.tasks)) keys
  pub order : out.1.ll ≡ minus keys s.ll ++ keep (λ k. has k s.tasks) keys
  pub contents :
      (j : String)
      → get j out.1.tasks ≡ (if contains j keys && has j s.tasks then some resp else get j s.tasks)
  pub index : IsIndex out.1.tasks out.1.ll
  pub same_max : out.1.max_tasks ≡ s.max_tasks

Updated-skip :
    (resp : TaskResponse) (k : String) (keys acc : List String) (s : MemoryTaskStore)
    (out : List String × MemoryTaskStore)
    → IsIndex s.tasks s.ll
    → has k s.tasks ≡ false
    → Updated resp keys (acc ++ k ∷ []) s out
    → Updated resp (k ∷ keys) acc s out
unfolding contains
Updated-skip resp k keys acc s out x h u = record {
  new_keys = u.new_keys ∙ rw h (append_assoc acc (k ∷ []) _);
  order = u.order ∙ rw (h, without_absent k s.ll (sym (x.same k) ∙ h)) refl;
  contents = λ j. ground (arith, u.contents j, str_eq_iff k j);
  index = u.index;
  same_max = u.same_max;
}

Updated-move :
    (resp : TaskResponse) (k : String) (keys acc : List String) (s : MemoryTaskStore)
    (out : List String × MemoryTaskStore)
    → IsIndex s.tasks s.ll
    → has k s.tasks ≡ true
    → contains k keys ≡ false
    → Updated resp keys acc
        (record s { tasks = put k resp s.tasks; ll = without k s.ll ++ k ∷ [] })
        out
    → Updated resp (k ∷ keys) acc s out
unfolding contains
Updated-move resp k keys acc s out x h d u = record {
  new_keys =
      u.new_keys
      ∙ rw h (ap (λ (t : List String). acc ++ t) (keep-ext _ _ keys (λ j. ap not (has_put j))));
  order =
      u.order
      ∙ rw h (
          ap (λ (t : List String). t ++ keep (λ j. has j (put k resp s.tasks)) keys)
            (minus-append_one keys (without k s.ll) k d)
          ∙ append_assoc (minus keys (without k s.ll)) (k ∷ []) _
          ∙ ap (λ (t : List String). minus keys (without k s.ll) ++ k ∷ t)
              (keep-ext _ _ keys has_put));
  contents = λ j. ground (arith, u.contents j, get-put k j resp s.tasks, str_eq_iff k j);
  index = u.index;
  same_max = u.same_max;
}
  where
    has_put : (j : String) → has j (put k resp s.tasks) ≡ has j s.tasks
    has_put j = ground (arith, get-put k j resp s.tasks, str_eq_iff k j)

pub update_existing-Updated :
    (resp : TaskResponse) (keys acc : List String) (s : MemoryTaskStore)
    → AllDistinct keys
    → IsIndex s.tasks s.ll
    → Updated resp keys acc s (update_existing resp keys acc s)
unfolding update_existing contains
update_existing-Updated resp [] acc s d x = record {
  new_keys = sym (append-nil acc);
  order = sym (append-nil s.ll);
  contents = λ j. refl;
  index = x;
  same_max = refl;
}
update_existing-Updated resp (k ∷ keys) acc s d x = elim (Bool-cases (has k s.tasks)) [
  | inl h ↦ rw h (
      Updated-move resp k keys acc s _ x h d.0
        (update_existing-Updated resp keys acc _ d.1 (IsIndex-move k resp s.tasks s.ll x h)))
  | inr h ↦ rw h (
      Updated-skip resp k keys acc s _ x h
        (update_existing-Updated resp keys (acc ++ k ∷ []) s d.1 x))
]
