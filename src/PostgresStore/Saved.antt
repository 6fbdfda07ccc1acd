-- ===== src/PostgresStore/Saved.antt =====
-- `Save`, then `Load`, of pkg/storage/postgres.go.
use progo_a2a.Prelude.{
  ℕ, String, ◌≡◌, refl, Bool, true, false, ◌&&◌, ◌||◌, not, none, some, List, [], ◌∷◌, str_eq,
  is_empty, if◌then◌else◌, Bool-cases, inl, inr, Result, ok,
}
use progo_a2a.A2a.{TaskResponse}
use progo_a2a.TaskStore.{contains, collect_keys}
use progo_a2a.TaskStore.Saving.{collect_keys_lem}
use progo_a2a.PostgresStore.{
  Codec, PostgresError, answered, PostgresTaskStore, upsert_all, exec_upsert, result_row, save,
  load, load_row,
}
use progo_a2a.PostgresStore.Upserts.{
  row_of, created_or, AllDistinct-has_duplicate, row_of-upsert_all,
}

-- The store reaches its database.
pub record IsOpen (s : PostgresTaskStore) : Type 0 where
  pub opened : s.closed ≡ false
  pub pooled : s.has_pool ≡ true

-- A response that PostgreSQL keeps, and what it keeps.
pub record Kept (codec : Codec) (resp : TaskResponse) (jsonb : String) : Type 0 where
  pub literal : String
  pub marshaled : codec.marshal resp ≡ some literal
  pub casted : codec.to_jsonb literal ≡ some jsonb
  pub unmarshaled : codec.unmarshal jsonb ≡ some resp

-- The ids of a call of `Save`.
abbrev pub is_key : TaskResponse → List String → String → Bool
is_key resp aliases id = str_eq resp.task_id id || (not (is_empty id) && contains id aliases)

pub record Stored (codec : Codec) (resp : TaskResponse) (stored : String) (aliases : List String)
    (now : ℕ) (s : PostgresTaskStore) (out : Result PostgresError Unit × PostgresTaskStore)
    : Type 0 where
  pub saved : out.0 ≡ ok tt
  pub still_open : IsOpen out.1
  pub loads :
      (id : String)
      → is_empty id ≡ false
      → load codec none answered id out.1
        ≡ (if is_key resp aliases id then ok resp else load codec none answered id s)
  pub rows :
      (id : String)
      → row_of id out.1.rows ≡ (
          if is_key resp aliases id
          then some (record (result_row resp stored now id) {
            created_at = created_or now (row_of id s.rows);
          })
          else row_of id s.rows)

load-open :
    (codec : Codec) (id : String) (s : PostgresTaskStore)
    → IsOpen s
    → is_empty id ≡ false
    → load codec none answered id s ≡ load_row codec answered [] (row_of id s.rows)
unfolding load
load-open codec id s reached full = rw (full, reached.opened, reached.pooled) refl

module _ (codec : Codec) (resp : TaskResponse) (jsonb : String) (kept : Kept codec resp jsonb)
    (aliases : List String) (now : ℕ) (s : PostgresTaskStore) (reached : IsOpen s)
    (named : is_empty resp.task_id ≡ false) where
  save-upsert_all : save codec none answered now (some resp) aliases s ≡ (
    ok tt,
    record s {
      rows =
          upsert_all (result_row resp jsonb now) (collect_keys (resp.task_id ∷ []) aliases) s.rows;
    },
  )
  unfolding save exec_upsert
  save-upsert_all =
      rw
        (
          named,
          kept.marshaled,
          reached.opened,
          reached.pooled,
          kept.casted,
          AllDistinct-has_duplicate _ (collect_keys_lem resp.task_id aliases).0,
        )
        refl

  save-row_of :
      (id : String)
      → row_of id (save codec none answered now (some resp) aliases s).1.rows ≡ (
          if is_key resp aliases id
          then some (record (result_row resp jsonb now id) {
            created_at = created_or now (row_of id s.rows);
          })
          else row_of id s.rows)
  save-row_of id =
      rw
        (
          save-upsert_all,
          row_of-upsert_all (result_row resp jsonb now) (λ _. refl) now (λ _. refl)
              (collect_keys (resp.task_id ∷ []) aliases) s.rows id,
          (collect_keys_lem resp.task_id aliases).1 id,
        )
        refl

  save-IsOpen : IsOpen (save codec none answered now (some resp) aliases s).1
  save-IsOpen = rw save-upsert_all (record { opened = reached.opened; pooled = reached.pooled })

  -- A response that JSON keeps, with an id, is saved by an open store whose statement is answered, whatever the
  -- aliases: PostgreSQL never refuses the statement for a repeated key. Then a `Load` by the id of the task, or by
  -- an alias that is not empty, returns the response, and a `Load` by any other id returns what it did before.
  -- The row of each key has the response, and the time at which its key was first stored.
  pub save-Stored :
      Stored codec resp jsonb aliases now s (save codec none answered now (some resp) aliases s)
  save-Stored = record {
    saved = rw save-upsert_all refl;
    still_open = save-IsOpen;
    loads = λ id full.
        rw (load-open codec id _ save-IsOpen full, save-row_of id)
          (elim (Bool-cases (is_key resp aliases id)) [
            | inl k ↦ rw (k, kept.unmarshaled) refl
            | inr k ↦ rw (k, load-open codec id s reached full) refl
          ]);
    rows = save-row_of;
  }
