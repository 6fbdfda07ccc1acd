-- ===== src/Config/Cycles/References.antt =====
-- The loop over the fallback lists in pkg/config/validator.go, in terms of the agents alone.
use progo_a2a.Prelude.{
  String, ◌≡◌, refl, arith, Bool, true, false, str_eq, str_eq_iff, sym, ◌⊎◌, List, [], ◌∷◌,
  Bool-cases, inl, inr, if◌then◌else◌, Result, ok, err, ◌>>=◌, In, here, there, subst, any, any-In,
  In-any, map,
}
use progo_a2a.Prelude.Dict.{put, get-put}
use progo_a2a.Config.{AgentConfig}
use progo_a2a.Config.Cycles.{
  Adjacency, neighbors, FallbackFault, unknown_fallback, own_fallback, cyclic_fallback, out_of_fuel,
  is_known, check_references, check_fallbacks,
}

abbrev pub ids_of : List AgentConfig → List String
ids_of agents = map (λ a. a.id) agents

abbrev pub has_id : String → List AgentConfig → Bool
has_id id agents = any (λ a. str_eq a.id id) agents

abbrev pub DistinctIds : List AgentConfig → Type 0
DistinctIds [] = Unit
DistinctIds (a ∷ agents) = (has_id a.id agents ≡ false) × DistinctIds agents

-- An agent of the id `a` has `b` in its fallback list.
abbrev pub FallsBack : List AgentConfig → String → String → Type 0
FallsBack agents a b = (x : AgentConfig) × In x agents × (x.id ≡ a) × In b x.fallback_agent_ids

-- The chains of fallbacks of at least one step.
pub data Chain (agents : List AgentConfig) (a : String) : String → Type 0 where
  one : {b : String} → FallsBack agents a b → Chain agents a b
  more : {b c : String} → Chain agents a b → FallsBack agents b c → Chain agents a c

neighbors-put :
    (k j : String) (ids : List String) (adj : Adjacency)
    → neighbors (put k ids adj) j ≡ (if str_eq k j then ids else neighbors adj j)
unfolding neighbors
neighbors-put k j ids adj = ground (arith, get-put k j ids adj)

is_known-In : (ids : List String) (id : String) → is_known ids id ≡ true → In id ids
is_known-In ids id h =
    let (other, i, e) = any-In (λ o. str_eq o id) ids h in
    subst (λ o. In o ids) ((str_eq_iff other id).0 e) i

In-is_known : (ids : List String) (id : String) → In id ids → is_known ids id ≡ true
In-is_known ids id i = In-any (λ o. str_eq o id) ids id i ((str_eq_iff id id).1 refl)

-- What one fallback list comes to.
abbrev References : List String → String → List String → Result FallbackFault Unit → Type 0
References ids id fbs (ok u) = (v : String) → In v fbs → In v ids
References ids id fbs (err (unknown_fallback a b)) = (a ≡ id) × In b fbs × ¬ In b ids
References ids id fbs (err (own_fallback a)) = (a ≡ id) × In id fbs
References ids id fbs (err _) = ⊥

check_references-References :
    (ids : List String) (id : String) (fbs : List String)
    → References ids id fbs (check_references ids id fbs)
unfolding check_references
check_references-References ids id [] = λ v i. elim i [ ]
check_references-References ids id (fb ∷ fbs) = elim (Bool-cases (is_known ids fb)) [
  | inr u ↦ rw (check_references, u) (refl, here refl, λ i. cc (u, In-is_known ids fb i))
  | inl k ↦ elim (Bool-cases (str_eq fb id)) [
    | inl s ↦ rw (check_references, k, s) (refl, here (sym ((str_eq_iff fb id).0 s)))
    | inr s ↦
        rw (check_references, k, s)
          (later (is_known-In ids fb k) _ (check_references-References ids id fbs))
  ]
]
  where
    both :
        In fb ids → ((v : String) → In v fbs → In v ids) → (v : String) → In v (fb ∷ fbs) → In v ids
    both k h v (here e) = subst (λ o. In o ids) (sym e) k
    both k h v (there i) = h v i

    later :
        In fb ids
        → (r : Result FallbackFault Unit) → References ids id fbs r
        → References ids id (fb ∷ fbs) r
    later k (ok u) h = both k h
    later k (err (unknown_fallback a b)) h = (h.0, there h.1, h.2)
    later k (err (own_fallback a)) h = (h.0, there h.1)
    later k (err (cyclic_fallback p n)) h = h
    later k (err out_of_fuel) h = h

-- The adjacency map of agents that passed: what it lists is what the agents list, or was there before.
pub record Filled (ids : List String) (agents : List AgentConfig) (adj adj' : Adjacency)
    : Type 0 where
  pub listed :
      (u v : String) → In v (neighbors adj' u) → In v (neighbors adj u) ⊎ FallsBack agents u v
  pub known : (u v : String) → FallsBack agents u v → In v ids
  pub others : (u : String) → has_id u agents ≡ false → neighbors adj' u ≡ neighbors adj u
  pub full : DistinctIds agents → (u v : String) → FallsBack agents u v → In v (neighbors adj' u)

-- What the loop over the agents comes to.
abbrev pub Checked :
    List String → List AgentConfig → Adjacency → Result FallbackFault Adjacency → Type 0
Checked ids agents adj (ok adj') = Filled ids agents adj adj'
Checked ids agents adj (err (unknown_fallback a b)) = FallsBack agents a b × ¬ In b ids
Checked ids agents adj (err (own_fallback a)) = FallsBack agents a a
Checked ids agents adj (err _) = ⊥

FallsBack-there :
    (x : AgentConfig) (agents : List AgentConfig) (a b : String)
    → FallsBack agents a b
    → FallsBack (x ∷ agents) a b
FallsBack-there x agents a b (y, i, e, j) = (y, there i, e, j)

has_id-In : (x : AgentConfig) (agents : List AgentConfig) → In x agents → has_id x.id agents ≡ true
has_id-In x agents i = In-any (λ a. str_eq a.id x.id) agents x i ((str_eq_iff x.id x.id).1 refl)

module _ (ids : List String) (x : AgentConfig) (agents : List AgentConfig) (adj : Adjacency) where
  Filled-cons :
      (adj' : Adjacency)
      → ((v : String) → In v x.fallback_agent_ids → In v ids)
      → Filled ids agents (put x.id x.fallback_agent_ids adj) adj'
      → Filled ids (x ∷ agents) adj adj'
  Filled-cons adj' k f = record {
    listed = λ u v i. elim (f.listed u v i) [
      | inr (y, j, e, q) ↦ inr (y, there j, e, q)
      | inl j ↦ elim (Bool-cases (str_eq x.id u)) [
        | inl e ↦ inr (x, here refl, (str_eq_iff x.id u).0 e, now u v j e)
        | inr e ↦ inl (rw (neighbors-put x.id u x.fallback_agent_ids adj, e) at j)
      ]
    ];
    known = known;
    others = λ u h. others u h;
    full = full;
  }
    where
      now :
          (u v : String)
          → In v (neighbors (put x.id x.fallback_agent_ids adj) u)
          → str_eq x.id u ≡ true
          → In v x.fallback_agent_ids
      now u v j e = rw (neighbors-put x.id u x.fallback_agent_ids adj, e) at j

      known : (u v : String) → FallsBack (x ∷ agents) u v → In v ids
      known u v (y, here e, q, i) = k v (subst (λ z. In v z.fallback_agent_ids) e i)
      known u v (y, there j, q, i) = f.known u v (y, j, q, i)

      others : (u : String) → has_id u (x ∷ agents) ≡ false → neighbors adj' u ≡ neighbors adj u
      others u h = ground (arith, f.others u, h, neighbors-put x.id u x.fallback_agent_ids adj)

      full :
          DistinctIds (x ∷ agents)
          → (u v : String) → FallsBack (x ∷ agents) u v
          → In v (neighbors adj' u)
      full d u v (y, there j, q, i) = f.full d.1 u v (y, j, q, i)
      full d u v (y, here e, q, i) =
          let same : neighbors adj' x.id ≡ x.fallback_agent_ids = ground (
            arith,
            f.others x.id,
            d.0,
            neighbors-put x.id x.id x.fallback_agent_ids adj,
            str_eq_iff x.id x.id,
          ) in
          let named : x.id ≡ u = subst (λ z. z.id ≡ u) e q in
          subst (λ w. In v (neighbors adj' w)) named
            (rw same (subst (λ z. In v z.fallback_agent_ids) e i))

  Checked-cons :
      ((v : String) → In v x.fallback_agent_ids → In v ids)
      → (r : Result FallbackFault Adjacency)
      → Checked ids agents (put x.id x.fallback_agent_ids adj) r
      → Checked ids (x ∷ agents) adj r
  Checked-cons k (ok adj') f = Filled-cons adj' k f
  Checked-cons k (err (unknown_fallback a b)) h = (FallsBack-there x agents a b h.0, h.1)
  Checked-cons k (err (own_fallback a)) h = FallsBack-there x agents a a h
  Checked-cons k (err (cyclic_fallback p n)) h = h
  Checked-cons k (err out_of_fuel) h = h

  Checked-bind :
      (r : Result FallbackFault Unit) (next : Result FallbackFault Adjacency)
      → References ids x.id x.fallback_agent_ids r
      → Checked ids agents (put x.id x.fallback_agent_ids adj) next
      → Checked ids (x ∷ agents) adj (r >>= λ _. next)
  Checked-bind (ok u) next k h = Checked-cons k next h
  Checked-bind (err (unknown_fallback a b)) next h _ = ((x, here refl, sym h.0, h.1), h.2)
  Checked-bind (err (own_fallback a)) next h _ = (x, here refl, sym h.0, rw h.0 h.1)
  Checked-bind (err (cyclic_fallback p n)) next h _ = h
  Checked-bind (err out_of_fuel) next h _ = h

pub check_fallbacks-Checked :
    (ids : List String) (agents : List AgentConfig) (adj : Adjacency)
    → Checked ids agents adj (check_fallbacks ids agents adj)
unfolding check_fallbacks
check_fallbacks-Checked ids [] adj = record {
  listed = λ u v i. inl i;
  known = λ u v (x, i, e, q). elim i [ ];
  others = λ u h. refl;
  full = λ d u v (x, i, e, q). elim i [ ];
}
check_fallbacks-Checked ids (x ∷ agents) adj =
    Checked-bind ids x agents adj _ _ (check_references-References ids x.id x.fallback_agent_ids)
      (check_fallbacks-Checked ids agents (put x.id x.fallback_agent_ids adj))
