-- ===== src/Server/Wrapping.antt =====
-- pkg/server/middleware.go: the wrapper of a response that keeps its status, and `MetricsMiddleware`. A handler is
-- the calls that it makes on the response. One that panics is not counted, and is not modelled.
use Prim.Native.Char.{code}
use progo_a2a.Prelude.{
  ℕ, ◌+◌, ◌%◌, ◌^◌, String, ◌≡◌, refl, arith, Bool, true, false, Option, none, some, List, [], ◌∷◌,
  ◌++◌, ◌==◌, is_empty, if◌then◌else◌,
}
use progo_a2a.Metrics.{
  Floats, RequestKey, DurationKey, Registry, inc_requests, observe_duration, perform, same_request,
  same_duration, inc_64, same_request, same_duration, inc_64,
}
use progo_a2a.Metrics.Counts.{entry-change-same, same_request_iff, same_duration_iff}
use progo_a2a.Metrics.Counters.{requests_of, durations_of, value}

-- `responseWriterWrapper`; the calls of `WriteHeader` and of `Write` on the writer that it wraps are its last fields.
pub record ResponseWriterWrapper : Type 0 where
  pub status_code : ℕ
  pub written : Bool
  pub headers : List ℕ
  pub bodies : List String

abbrev pub new_wrapper : ResponseWriterWrapper
new_wrapper = record { status_code = 200; written = false; headers = []; bodies = [] }

-- `WriteHeader`
abbrev pub write_header : ℕ → ResponseWriterWrapper → ResponseWriterWrapper
write_header status rw =
    if rw.written
    then rw
    else record rw { status_code = status; written = true; headers = rw.headers ++ status ∷ [] }

-- `Write`
abbrev pub write_body : String → ResponseWriterWrapper → ResponseWriterWrapper
write_body bytes rw =
    let rw' = write_header 200 rw in record rw' { bodies = rw'.bodies ++ bytes ∷ [] }

pub data WriterCall : Type 0 where
  header : ℕ → WriterCall
  body : String → WriterCall

abbrev pub write_call : WriterCall → ResponseWriterWrapper → ResponseWriterWrapper
write_call (header status) rw = write_header status rw
write_call (body bytes) rw = write_body bytes rw

unfoldable pub serve : List WriterCall → ResponseWriterWrapper → ResponseWriterWrapper
serve [] rw = rw
serve (c ∷ calls) rw = serve calls (write_call c rw)

-- `path[idx+1:]` for the first space, if there is one.
unfoldable pub after_space : String → Option String
after_space String.[] = none
after_space (String.◌∷◌ c s) = let rest = after_space s in if code c == 32 then some s else rest

-- The path that is counted: that of the pattern which the router found, when the middleware sees it.
unfoldable pub metric_path : String → String → String
unfolding after_space
metric_path path pattern =
    if is_empty pattern
    then path
    else elim (after_space pattern) [ none ↦ pattern | some rest ↦ rest ]

-- `MetricsMiddleware` around a handler, from the method, the path and the pattern of the request.
module _ (F : Floats) where
  unfoldable pub metrics_middleware :
      String
      → String
      → String
      → List WriterCall
      → F.F
      → Registry F
      → ResponseWriterWrapper × Registry F
  unfolding serve metric_path perform
  metrics_middleware method path pattern calls seconds registry =
      let wrapped = serve calls new_wrapper in
      let counted = metric_path path pattern in
      (
        wrapped,
        perform F (observe_duration method counted seconds)
            (perform F (inc_requests method counted wrapped.status_code) registry),
      )

-- The client gets one status at most, which is the one that is kept, and a body only after a status.
pub record IsRecorded (rw : ResponseWriterWrapper) : Type 0 where
  pub unwritten : rw.written ≡ false → (rw.status_code ≡ 200) × (rw.headers ≡ []) × (rw.bodies ≡ [])
  pub sent : rw.written ≡ true → rw.headers ≡ rw.status_code ∷ []

write_header-written :
    (status : ℕ) (rw : ResponseWriterWrapper) → (write_header status rw).written ≡ true
write_header-written status rw = ground arith

write_header-IsRecorded :
    (status : ℕ) (rw : ResponseWriterWrapper) → IsRecorded rw → IsRecorded (write_header status rw)
write_header-IsRecorded status rw h = record {
  unwritten = λ w. ground (arith, w, h.unwritten);
  sent = λ w. ground (arith, w, h.sent, h.unwritten);
}

write_call-IsRecorded :
    (c : WriterCall) (rw : ResponseWriterWrapper) → IsRecorded rw → IsRecorded (write_call c rw)
write_call-IsRecorded (header status) rw h = write_header-IsRecorded status rw h
write_call-IsRecorded (body bytes) rw h =
    let rw' = write_header 200 rw in
    let h' = write_header-IsRecorded 200 rw h in
    record {
      unwritten = λ w. absurd (ground (arith, w, write_header-written 200 rw));
      sent = h'.sent;
    }

serve-IsRecorded :
    (calls : List WriterCall) (rw : ResponseWriterWrapper)
    → IsRecorded rw
    → IsRecorded (serve calls rw)
unfolding serve
serve-IsRecorded [] rw h = h
serve-IsRecorded (c ∷ calls) rw h =
    serve-IsRecorded calls (write_call c rw) (write_call-IsRecorded c rw h)

module _ {F : Floats} where
  -- Whatever a handler writes, the client gets one status at most, and the request is counted once, under the
  -- status that the client got, or 200 if the handler wrote nothing, and its duration is counted once.
  pub metrics_middleware-counts :
      (method path pattern : String) (calls : List WriterCall) (seconds : F.F)
      (registry : Registry F)
      → let (wrapped, after) = metrics_middleware F method path pattern calls seconds registry in
        let counted = metric_path path pattern in
        let key : RequestKey = record {
          method = method;
          path = counted;
          status = wrapped.status_code;
        } in
        let timed : DurationKey = record { method = method; path = counted } in
        IsRecorded wrapped
        × (value (requests_of key) after ≡ (value (requests_of key) registry + 1) % 2 ^ 64)
        × (value (durations_of timed) after ≡ (value (durations_of timed) registry + 1) % 2 ^ 64)
  unfolding metrics_middleware
  metrics_middleware-counts method path pattern calls seconds registry =
      let wrapped = serve calls new_wrapper in
      let counted = metric_path path pattern in
      let key : RequestKey = record {
        method = method;
        path = counted;
        status = wrapped.status_code;
      } in
      let timed : DurationKey = record { method = method; path = counted } in
      (
        serve-IsRecorded calls new_wrapper (record {
          unwritten = λ _. (refl, refl, refl);
          sent = λ w. absurd (ground (arith, w));
        }),
        entry-change-same same_request same_request_iff 0 inc_64 key registry.requests_total,
        entry-change-same same_duration same_duration_iff 0 inc_64 timed registry.duration_count,
      )
