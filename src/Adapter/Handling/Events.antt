-- ===== src/Adapter/Handling/Events.antt =====
-- The kinds of the events that pkg/adapter emits.
use progo_a2a.Prelude.{◌≡◌, refl, List, [], ◌∷◌, ◌++◌, All, map, ap}
use progo_a2a.A2a.{StreamEventType, step_progress, token_delta, task_error}
use progo_a2a.Adapter.Streaming.{stream_error, emit_failed, Out, Control, next, finish, stop_with}

abbrev pub kinds : {S : Type 0} → Out S → List StreamEventType
kinds out = map (λ e. e.0) out.emitted

-- The events that pass the agent's output on.
pub data IsProgress : StreamEventType → Type 0 where
  by_delta : IsProgress token_delta
  by_step : IsProgress step_progress

abbrev pub Progress : List StreamEventType → Type 0
Progress es = All IsProgress es

pub Progress-append :
    (xs ys : List StreamEventType) → Progress xs → Progress ys → Progress (xs ++ ys)
Progress-append [] ys h k = k
Progress-append (x ∷ xs) ys h k = (h.0, Progress-append xs ys h.1 k)

pub map-append :
    {A B : Type 0} (f : A → B) (xs ys : List A) → map f (xs ++ ys) ≡ map f xs ++ map f ys
map-append f [] ys = refl
map-append f (x ∷ xs) ys = ap (λ zs. f x ∷ zs) (map-append f xs ys)

-- What one line adds to the events, by what follows it.
abbrev pub Adds : {E : Type 0} → Control E → List StreamEventType → Type 0
Adds next es = Progress es
Adds finish es = Progress es
Adds (stop_with (emit_failed e)) es = Progress es
Adds (stop_with (stream_error text)) es = es ≡ task_error ∷ []
Adds (stop_with _) es = ⊥
