-- ===== src/TaskStore/Fifo.antt =====
-- The bounded FIFO store as a whole: what one `Save` of pkg/storage/memory.go does to the order, the contents
-- and the invariant of the store.
use progo_a2a.Prelude.{
  ℕ, ◌+◌, ◌-◌, ◌≤◌, String, ◌≡◌, refl, ap, ◌∙◌, Bool, false, ◌&&◌, ◌||◌, not, none, some, List, [],
  ◌++◌, arith, length, length-append, keep, if◌then◌else◌, ltb,
}
use progo_a2a.Prelude.Dict.{Dict, get, has}
use progo_a2a.A2a.{TaskResponse}
use progo_a2a.TaskStore.{MemoryTaskStore, contains, update_existing, evict, save_keys}
use progo_a2a.TaskStore.Order.{
  AllDistinct, drop, minus, contains-append, drop-append, length-keep_both, length-minus,
  keep-AllDistinct, length-drop, keep-ext, contains-keep,
}
use progo_a2a.TaskStore.Loops.{IsIndex, Updated, update_existing-Updated}
use progo_a2a.TaskStore.Eviction.{Evicted, evict-Evicted, Inserted, insert_new-Inserted}

pub record IsStore (s : MemoryTaskStore) : Type 0 where
  pub index : IsIndex s.tasks s.ll
  pub bound : length s.ll ≤ s.max_tasks

-- The keys of the store that survive a `Save` of `keys`, oldest first, before the new keys.
abbrev pub fifo_order : List String → MemoryTaskStore → List String
fifo_order keys s =
    drop (length s.ll + length (keep (λ k. not (contains k s.ll)) keys) - s.max_tasks)
      (minus keys s.ll)
    ++ keep (λ k. contains k s.ll) keys

-- What a `Save` of the distinct keys `keys` leaves when they fit: the keys in order of their last `Save`, cut
-- from the front, and the new response under all the keys.
pub record Saved (resp : TaskResponse) (keys : List String) (s out : MemoryTaskStore) : Type 0 where
  pub order : out.ll ≡ fifo_order keys s ++ keep (λ k. not (contains k s.ll)) keys
  pub contents :
      (j : String)
      → get j out.tasks ≡ (
          if contains j keys
          then some resp
          else if contains j (fifo_order keys s)
          then get j s.tasks
          else none)
  pub store : IsStore out
  pub same_max : out.max_tasks ≡ s.max_tasks

module _ (resp : TaskResponse) (keys : List String) (s : MemoryTaskStore) (d : AllDistinct keys)
    (x : IsStore s) (fits : length keys ≤ s.max_tasks) where
  new_keys : List String
  new_keys = keep (λ k. not (contains k s.ll)) keys

  present : List String
  present = keep (λ k. contains k s.ll) keys

  counts :
      (length present + length new_keys ≡ length keys)
      × (length (minus keys s.ll) + length present ≡ length s.ll)
  unfolding present new_keys
  counts = (length-keep_both (λ k. contains k s.ll) keys, length-minus keys s.ll d x.index.distinct)

  module _ (u : List String × MemoryTaskStore) (h : Updated resp keys [] s u) where
    updated_keys : u.0 ≡ new_keys
    unfolding new_keys
    updated_keys = h.new_keys ∙ keep-ext _ _ keys (λ k. ap not (x.index.same k))

    updated_order : u.1.ll ≡ minus keys s.ll ++ present
    unfolding present
    updated_order =
        h.order ∙ ap (λ (t : List String). minus keys s.ll ++ t) (keep-ext _ _ keys x.index.same)

    excess : ℕ
    excess = length u.1.ll + length u.0 - u.1.max_tasks

    cut : excess ≡ length s.ll + length new_keys - s.max_tasks
    unfolding excess
    cut =
        rw (updated_keys, updated_order, h.same_max)
          (omega (arith, length-append (minus keys s.ll) present, counts))

    remaining : drop excess u.1.ll ≡ fifo_order keys s
    unfolding present new_keys
    remaining =
        ap (λ (n : ℕ). drop n u.1.ll) cut
        ∙ ap (drop (length s.ll + length new_keys - s.max_tasks)) updated_order
        ∙ drop-append _ (minus keys s.ll) present (omega (arith, counts, fits, x.bound))

    module _ (e : Dict TaskResponse × List String)
        (v : Evicted u.1.max_tasks (length u.0) u.1.tasks u.1.ll e) (o : MemoryTaskStore)
        (w : Inserted resp u.0 (record u.1 { tasks = e.0; ll = e.1 }) o) where
      saved_order : o.ll ≡ fifo_order keys s ++ new_keys
      unfolding excess
      saved_order =
          w.order
          ∙ ap (λ (t : List String). t ++ u.0) (v.order ∙ remaining)
          ∙ ap (λ (t : List String). fifo_order keys s ++ t) updated_keys

      saved_contents :
          (j : String)
          → get j o.tasks ≡ (
              if contains j keys
              then some resp
              else if contains j (fifo_order keys s)
              then get j s.tasks
              else none)
      unfolding excess new_keys present
      saved_contents j =
          let split : contains j (fifo_order keys s)
              ≡ contains j (drop (length s.ll + length new_keys - s.max_tasks) (minus keys s.ll))
                || (contains j keys && contains j s.ll) =
            contains-append j (drop (length s.ll + length new_keys - s.max_tasks) (minus keys s.ll))
              present
            ∙ ap
                (λ (b : Bool).
                  contains j (drop (length s.ll + length new_keys - s.max_tasks) (minus keys s.ll))
                  || b)
                (contains-keep (λ k. contains k s.ll) j keys) in
          let new : contains j u.0 ≡ contains j keys && not (contains j s.ll) =
            ap (contains j) updated_keys ∙ contains-keep (λ k. not (contains k s.ll)) j keys in
          ground (
            arith,
            w.contents j,
            v.contents j,
            h.contents j,
            ap (contains j) remaining,
            split,
            new,
            x.index.same j,
          )

      saved : Saved resp keys s o
      unfolding new_keys present
      saved = record {
        order = saved_order;
        contents = saved_contents;
        store = record {
          index = w.index;
          bound =
              rw (saved_order, w.same_max, h.same_max)
                (omega (
                  arith,
                  counts,
                  fits,
                  length-append (fifo_order keys s) new_keys,
                  length-append
                      (drop (length s.ll + length new_keys - s.max_tasks) (minus keys s.ll))
                      present,
                  length-drop (length s.ll + length new_keys - s.max_tasks) (minus keys s.ll),
                ));
        };
        same_max = w.same_max ∙ h.same_max;
      }

-- A `Save` under the lock of distinct keys that fit succeeds, and leaves the store that the record says.
pub save_keys-Saved :
    (resp : TaskResponse) (keys : List String) (s : MemoryTaskStore)
    → AllDistinct keys
    → IsStore s
    → length keys ≤ s.max_tasks
    → ((save_keys resp keys s).0 ≡ none) × Saved resp keys s (save_keys resp keys s).1
unfolding save_keys
save_keys-Saved resp keys s d x fits =
    let h = update_existing-Updated resp keys [] s d x.index in
    let u = update_existing resp keys [] s in
    let same_new : u.0 ≡ keep (λ k. not (has k s.tasks)) keys = h.new_keys in
    let few : length u.0 ≤ u.1.max_tasks =
      rw (same_new, h.same_max) (omega (arith, fits, length-keep_both (λ k. has k s.tasks) keys)) in
    let v = evict-Evicted u.1.max_tasks (length u.0) u.1.tasks u.1.ll few h.index in
    let e = evict u.1.max_tasks (length u.0) u.1.tasks u.1.ll in
    let w =
      insert_new-Inserted resp u.0 (record u.1 { tasks = e.0; ll = e.1 })
        (rw same_new (keep-AllDistinct _ keys d))
        (λ j i. ground (
          arith,
          i,
          v.contents j,
          h.contents j,
          ap (contains j) same_new,
          contains-keep (λ k. not (has k s.tasks)) j keys,
        ))
        v.index in
    let big : ltb s.max_tasks (length keys) ≡ false = ground (arith, fits) in
    rw big (refl, saved resp keys s d x fits u h e v _ w)
