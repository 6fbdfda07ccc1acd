-- ===== src/PostgresStore/Examples.antt =====
-- The task store of pkg/storage/postgres.go at a table of two keys.
use progo_a2a.Prelude.{String, ◌≡◌, refl, true, false, none, some, [], ◌∷◌, ok, err}
use progo_a2a.A2a.{Json, TaskResponse, status_completed}
use progo_a2a.PostgresStore.{
  Codec, PostgresTaskStore, answered, refused, message, driver, task_not_found, store_closed,
  result_row, save, load, ping, close, redact_string,
}
use progo_a2a.PostgresStore.Saved.{Stored, save-Stored}

abbrev done : String → TaskResponse
done id = record {
  task_id = id;
  agent_id = "writer";
  status = status_completed;
  output = Json.null;
  artifacts = [];
  error = none;
  timestamp = 0;
}

-- A response by its id.
abbrev by_id : Codec
by_id = record {
  marshal = λ resp. some resp.task_id;
  to_jsonb = λ t. some t;
  unmarshal = λ t. some (done t);
  refusal = message "refused";
}

abbrev two_keys : PostgresTaskStore
two_keys = record {
  has_pool = true;
  closed = false;
  pool_closed = false;
  owns_pool = true;
  redact_tokens = "hunter2" ∷ [];
  rows = result_row (done "a") "a" 5 "a" ∷ result_row (done "a") "a" 5 "x" ∷ [];
}

save-Stored_example :
    Stored by_id
      (done "b")
      "b"
      ("x" ∷ "b" ∷ "" ∷ "x" ∷ [])
      9
      two_keys
      (save by_id none answered 9 (some (done "b")) ("x" ∷ "b" ∷ "" ∷ "x" ∷ []) two_keys)
save-Stored_example =
    save-Stored by_id (done "b") "b"
      (record { literal = "b"; marshaled = refl; casted = refl; unmarshaled = refl })
      ("x" ∷ "b" ∷ "" ∷ "x" ∷ []) 9 two_keys (record { opened = refl; pooled = refl }) refl

-- The alias moves to the new response, and its row keeps the time 5.
moved :
    load by_id none answered "x"
      (save by_id none answered 9 (some (done "b")) ("x" ∷ "b" ∷ []) two_keys).1
    ≡ ok (done "b")
unfolding save load
moved = refl

redacted :
    load by_id none (refused (message "auth hunter2@db hunter2")) "x" two_keys
    ≡ err (driver (message "auth [REDACTED]@db [REDACTED]"))
unfolding load redact_string
redacted = refl

closed : ping answered (close two_keys) ≡ err store_closed
unfolding ping close
closed = refl

missing : load by_id none answered "c" two_keys ≡ err task_not_found
unfolding load
missing = refl
