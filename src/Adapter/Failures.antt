-- ===== src/Adapter/Failures.antt =====
-- What the responses that pkg/adapter makes say of a failure.
use progo_a2a.Prelude.{
  ℕ, String, ◌≡◌, refl, arith, Bool, true, false, ◌∷◌, [], Option, none, some, leb, is_some,
  if◌then◌else◌, Result, ok, err,
}
use progo_a2a.A2a.{Json, TaskResponse, TaskStatus, status_completed, status_failed}
use progo_a2a.Adapter.{Gjson, Found}
use progo_a2a.Adapter.Replies.{
  Format, openai, langgraph, crewai, autogen, custom, ResponseError, translate_response, is_failed,
  first_text, crewai_failure, openai_reply, langgraph_reply, crewai_reply, crewai_status,
  autogen_reply, custom_reply, upstream_failure, reads_as, reply_with, custom_status,
}

-- The error of a response and its status belong together; a custom agent may report a failure without an error.
abbrev pub Coherent : Format → TaskResponse → Type 0
Coherent (custom m) r = is_some r.error ≡ true → is_failed r.status ≡ true
Coherent _ r = is_some r.error ≡ is_failed r.status

abbrev pub Responded : Format → String → ℕ → TaskResponse → Type 0
Responded f agent_id status r =
    (r.agent_id ≡ agent_id) × Coherent f r × (leb 400 status ≡ true → r.status ≡ status_failed)

-- What a translation comes to at a status.
abbrev pub Translated :
    {E : Type 0} → Format → String → ℕ → Result (ResponseError E) TaskResponse → Type 0
Translated f agent_id status (err e) = Unit
Translated f agent_id status (ok r) = Responded f agent_id status r

module _ (G : Gjson) (agent_id : String) (now : ℕ) where
  if-Responded :
      (f : Format) (status : ℕ) (t : Bool) (x y : TaskResponse)
      → leb 400 status ≡ t
      → x.agent_id ≡ agent_id
      → y.agent_id ≡ agent_id
      → (x.status ≡ status_failed)
      → Coherent f x
      → Coherent f y
      → Responded f agent_id status (if t then x else y)
  if-Responded f status true x y e n m s c d = (n, c, λ _. s)
  if-Responded f status false x y e n m s c d = (m, d, λ h. absurd (cc (h, e)))

  crewai_status-Coherent :
      (body : String) (output : Json)
      → Coherent crewai (crewai_status G agent_id now body output)
        × ((crewai_status G agent_id now body output).agent_id ≡ agent_id)
  unfolding crewai_status
  crewai_status-Coherent body output = by_status (G.get body "status")
    where
      by_status :
          (o : Option (Found G.Result))
          → let r = (elim o as (λ _. TaskResponse) [
            | none ↦ reply_with G agent_id now status_completed output none
            | some s ↦
                if reads_as ("failed" ∷ "error" ∷ []) s.text
                then reply_with G agent_id now status_failed output (
                    some (
                      first_text G agent_id now body
                        ("error.message" ∷ "error" ∷ "message" ∷ [])
                        (crewai_failure s.text)))
                else reply_with G agent_id now status_completed output none
          ]) in
            Coherent crewai r × (r.agent_id ≡ agent_id)
      by_status none = (refl, refl)
      by_status (some s) = by_text (reads_as ("failed" ∷ "error" ∷ []) s.text)
        where
          by_text :
              (t : Bool)
              → let r =
                  (if t
                    then reply_with G agent_id now status_failed output (
                        some (
                          first_text G agent_id now body
                            ("error.message" ∷ "error" ∷ "message" ∷ [])
                            (crewai_failure s.text)))
                    else reply_with G agent_id now status_completed output none) in
                Coherent crewai r × (r.agent_id ≡ agent_id)
          by_text true = (refl, refl)
          by_text false = (refl, refl)

  -- A response that an adapter translates names the agent. At a status of 400 and more it is a failure; and it
  -- has an error exactly when it is a failure, except that a custom agent, whose mapping may have no path to an
  -- error, may report a failure without one.
  pub translate_response-Translated :
      {E : Type 0} (f : Format) (status : ℕ) (read : Result E String)
      → Translated f agent_id status (translate_response G agent_id now f status read)
  unfolding translate_response openai_reply langgraph_reply crewai_reply autogen_reply custom_reply
      upstream_failure
  translate_response-Translated (custom none) status read = tt
  translate_response-Translated openai status (err e) = tt
  translate_response-Translated langgraph status (err e) = tt
  translate_response-Translated crewai status (err e) = tt
  translate_response-Translated autogen status (err e) = tt
  translate_response-Translated (custom (some m)) status (err e) = tt
  translate_response-Translated openai status (ok body) =
      if-Responded openai status (leb 400 status) _ _ refl refl refl refl refl refl
  translate_response-Translated langgraph status (ok body) =
      if-Responded langgraph status (leb 400 status) _ _ refl refl refl refl refl refl
  translate_response-Translated autogen status (ok body) =
      if-Responded autogen status (leb 400 status) _ _ refl refl refl refl refl refl
  translate_response-Translated crewai status (ok body) =
      let (c, n) = crewai_status-Coherent body _ in
      if-Responded crewai status (leb 400 status) _ _ refl refl n refl refl c
  translate_response-Translated (custom (some m)) status (ok body) =
      if-Responded (custom (some m)) status (leb 400 status) _ _ refl refl refl refl (λ _. refl)
        (λ h. has_failed (custom_status G agent_id now m.response body) _ h)
    where
      has_failed :
          (s : TaskStatus) (found : Option String)
          → is_some (if is_failed s then found else none) ≡ true
          → is_failed s ≡ true
      has_failed s found h = ground (arith, h)
