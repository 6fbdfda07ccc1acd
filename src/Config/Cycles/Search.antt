-- ===== src/Config/Cycles/Search.antt =====
-- What the search of pkg/config/validator.go finds: every node that it leaves as visited ends all walks, and
-- the error that it raises stands on a cycle.
use progo_a2a.Prelude.{
  ℕ, zero, suc, ◌≤◌, String, ◌≡◌, refl, arith, str_eq, str_eq_iff, sym, ◌⊎◌, List, [], ◌∷◌, ◌++◌,
  Bool-cases, inl, inr, Result, ok, err, ◌>>=◌, In, here, there, subst,
}
use progo_a2a.Prelude.Dict.{put}
use progo_a2a.Config.Cycles.{
  Adjacency, neighbors, Visit, Visits, unvisited, visiting, visited, state_of, FallbackFault,
  cyclic_fallback, check_neighbors, check_cycle, check_agents,
}
use progo_a2a.Config.Cycles.Walks.{
  Walk, stay, go, Cycle, Ends, ends, fresh, state_of-put, fresh-put-le, fresh-put-lt,
}

Visit-cases : (v : Visit) → (v ≡ unvisited) ⊎ ((v ≡ visiting) ⊎ (v ≡ visited))
Visit-cases unvisited = inl refl
Visit-cases visiting = inr (inl refl)
Visit-cases visited = inr (inr refl)

module _ (adj : Adjacency) (ids : List String) where
  -- The visited nodes end all walks.
  abbrev pub Sound : Visits → Type 0
  Sound st = (n : String) → state_of n st ≡ visited → Ends adj n

  -- What a part of the search makes of the states: no visited node is lost, and no open one is left.
  pub record Later (st st' : Visits) : Type 0 where
    pub kept : (n : String) → state_of n st ≡ visited → state_of n st' ≡ visited
    pub closed : (n : String) → state_of n st' ≡ visiting → state_of n st ≡ visiting
    pub fewer : fresh ids st' ≤ fresh ids st
    pub sound : Sound st'

  -- The error of the search stands on a cycle; the search raises no other.
  abbrev pub OnCycle : FallbackFault → Type 0
  OnCycle (cyclic_fallback path n) = Cycle adj
  OnCycle _ = ⊥

  -- A result of the search: states that are `Later` and satisfy `T`, or an error on a cycle.
  abbrev pub Found : Visits → (Visits → Type 0) → Result FallbackFault Visits → Type 0
  Found st T (ok st') = Later st st' × T st'
  Found st T (err e) = OnCycle e

  Later-refl : (st : Visits) → Sound st → Later st st
  Later-refl st s = record { kept = λ n e. e; closed = λ n e. e; fewer = omega arith; sound = s }

  Later-trans : {a b c : Visits} → Later a b → Later b c → Later a c
  Later-trans h g = record {
    kept = λ n e. g.kept n (h.kept n e);
    closed = λ n e. h.closed n (g.closed n e);
    fewer = omega (arith, h.fewer, g.fewer);
    sound = g.sound;
  }

  -- A result after a first part of the search.
  Found-after :
      {a b : Visits} (S T : Visits → Type 0)
      → Later a b
      → ((c : Visits) → Later b c → S c → T c)
      → (r : Result FallbackFault Visits) → Found b S r
      → Found a T r
  Found-after S T l f (ok c) (g, s) = (Later-trans l g, f c g s)
  Found-after S T l f (err e) h = h

  Found-bind :
      {a : Visits} (S T : Visits → Type 0) (k : Visits → Result FallbackFault Visits)
      → ((b : Visits) → Later a b → S b → Found a T (k b))
      → (r : Result FallbackFault Visits) → Found a S r
      → Found a T (r >>= k)
  Found-bind S T k f (ok b) (l, s) = f b l s
  Found-bind S T k f (err e) h = h

  -- What the recursive call does from a node: `fuel` bounds the fresh nodes, and the open nodes lead to it.
  abbrev Searches : ℕ → (String → Visits → Result FallbackFault Visits) → Type 0
  Searches fuel visit =
      (m : String) (st : Visits)
      → In m ids
      → state_of m st ≡ unvisited
      → Sound st
      → ((n : String) → state_of n st ≡ visiting → Walk adj n m)
      → fresh ids st ≤ fuel
      → Found st (λ st'. state_of m st' ≡ visited) (visit m st)

  abbrev pub AllVisited : List String → Visits → Type 0
  AllVisited ns st = (m : String) → In m ns → state_of m st ≡ visited

  AllVisited-cons :
      (n : String) (ns : List String) (a b : Visits)
      → state_of n a ≡ visited
      → Later a b
      → AllVisited ns b
      → AllVisited (n ∷ ns) b
  AllVisited-cons n ns a b v l h m (here e) =
      l.kept m (subst (λ k. state_of k a ≡ visited) (sym e) v)
  AllVisited-cons n ns a b v l h m (there i) = h m i

  check_neighbors-Found :
      (fuel : ℕ) (visit : String → Visits → Result FallbackFault Visits) (path : List String)
      → Searches fuel visit
      → (node : String) (ns : List String) (st : Visits)
      → ((m : String) → In m ns → In m (neighbors adj node))
      → ((m : String) → In m ns → In m ids)
      → Sound st
      → ((n : String) → state_of n st ≡ visiting → Walk adj n node)
      → fresh ids st ≤ fuel
      → Found st (AllVisited ns) (check_neighbors visit path ns st)
  unfolding check_neighbors
  check_neighbors-Found fuel visit path searches node [] st out known s w f =
      (Later-refl st s, λ m i. elim i [ ])
  check_neighbors-Found fuel visit path searches node (n ∷ ns) st out known s w f =
      let again : (b : Visits)
          → Later st b
          → Found b (AllVisited ns) (check_neighbors visit path ns b) =
        λ b l.
          check_neighbors-Found fuel visit path searches node ns b (λ m i. out m (there i))
            (λ m i. known m (there i)) l.sound (λ m e. w m (l.closed m e))
            (omega (arith, l.fewer, f)) in
      elim (Visit-cases (state_of n st)) [
        | inl u ↦
            let runs : check_neighbors visit path (n ∷ ns) st
                ≡ (visit n st >>= check_neighbors visit path ns) =
              rw (check_neighbors, u) refl in
            rw runs (
              Found-bind (λ b. state_of n b ≡ visited) (AllVisited (n ∷ ns))
                (check_neighbors visit path ns)
                (λ b l v.
                  Found-after (AllVisited ns) (AllVisited (n ∷ ns)) l
                    (λ c g h. AllVisited-cons n ns b c v g h) _ (again b l))
                (visit n st)
                (searches n st (known n (here refl)) u s (λ m e. go (w m e) (out n (here refl))) f))
        | inr (inl o) ↦
            let runs : check_neighbors visit path (n ∷ ns) st ≡ err (cyclic_fallback path n) =
              rw (check_neighbors, o) refl in
            rw runs (n, node, w n o, out n (here refl))
        | inr (inr v) ↦
            let runs : check_neighbors visit path (n ∷ ns) st ≡ check_neighbors visit path ns st =
              rw (check_neighbors, v) refl in
            rw runs (
              Found-after (AllVisited ns) (AllVisited (n ∷ ns)) (Later-refl st s)
                (λ c g h. AllVisited-cons n ns st c v g h) _ (again st (Later-refl st s)))
      ]

  -- The end of `checkCycle` at a node whose neighbors are all visited.
  Later-close :
      (m : String) (st b : Visits)
      → state_of m st ≡ unvisited
      → Later (put m visiting st) b
      → AllVisited (neighbors adj m) b
      → Later st (put m visited b)
  Later-close m st b u l all = record {
    kept = λ n e. ground (
      arith,
      state_of-put m n visited b,
      state_of-put m n visiting st,
      l.kept n,
      u,
      e,
      str_eq_iff m n,
    );
    closed = λ n e. ground (
      arith,
      state_of-put m n visited b,
      state_of-put m n visiting st,
      l.closed n,
      e,
      str_eq_iff m n,
    );
    fewer =
        omega
          (arith, l.fewer, fresh-put-le ids m visited b refl, fresh-put-le ids m visiting st refl);
    sound = λ n e. elim (Bool-cases (str_eq m n)) [
      | inl q ↦ rw (← ((str_eq_iff m n).0 q)) (ends (λ k j. l.sound k (all k j)))
      | inr q ↦ l.sound n (ground (arith, state_of-put m n visited b, e, q))
    ];
  }

  Found-close :
      (m : String) (st : Visits)
      → state_of m st ≡ unvisited
      → (r : Result FallbackFault Visits)
      → Found (put m visiting st) (AllVisited (neighbors adj m)) r
      → Found st (λ st'. state_of m st' ≡ visited) (r >>= λ b. ok (put m visited b))
  Found-close m st u (ok b) (l, all) =
      (Later-close m st b u l all, ground (arith, state_of-put m m visited b, str_eq_iff m m))
  Found-close m st u (err e) h = h

  module _ (known : (u v : String) → In v (neighbors adj u) → In v ids) where
    check_cycle-Found : (fuel : ℕ) (path : List String) → Searches fuel (check_cycle fuel adj path)
    unfolding check_cycle
    check_cycle-Found zero path m st i u s w f =
        absurd (omega (arith, fresh-put-lt ids m visiting st refl u i))
    check_cycle-Found (suc fuel) path m st i u s w f = Found-close m st u _ (
        check_neighbors-Found fuel _ _ (check_cycle-Found fuel (path ++ (m ∷ []))) m
          (neighbors adj m) (put m visiting st) (λ k j. j) (λ k j. known m k j) sound' open'
          (omega (arith, fresh-put-lt ids m visiting st refl u i)))
      where
        sound' : Sound (put m visiting st)
        sound' n e = s n (ground (arith, state_of-put m n visiting st, e))

        open' : (n : String) → state_of n (put m visiting st) ≡ visiting → Walk adj n m
        open' n e = elim (Bool-cases (str_eq m n)) [
          | inl q ↦ rw (← ((str_eq_iff m n).0 q)) stay
          | inr q ↦ w n (ground (arith, state_of-put m n visiting st, e, q))
        ]

    -- The loop over the agents.
    pub check_agents-Found :
        (fuel : ℕ) (ns : List String) (st : Visits)
        → ((m : String) → In m ns → In m ids)
        → Sound st
        → ((n : String) → ¬ (state_of n st ≡ visiting))
        → fresh ids st ≤ fuel
        → Found st (AllVisited ns) (check_agents fuel adj ns st)
    unfolding check_agents
    check_agents-Found fuel [] st inside s idle f = (Later-refl st s, λ m i. elim i [ ])
    check_agents-Found fuel (n ∷ ns) st inside s idle f =
        let again : (b : Visits)
            → Later st b
            → Found b (AllVisited ns) (check_agents fuel adj ns b) =
          λ b l.
            check_agents-Found fuel ns b (λ m i. inside m (there i)) l.sound
              (λ m e. idle m (l.closed m e)) (omega (arith, l.fewer, f)) in
        elim (Visit-cases (state_of n st)) [
          | inl u ↦
              let runs : check_agents fuel adj (n ∷ ns) st
                  ≡ (check_cycle fuel adj [] n st >>= check_agents fuel adj ns) =
                rw (check_agents, u) refl in
              rw runs (
                Found-bind (λ b. state_of n b ≡ visited) (AllVisited (n ∷ ns))
                  (check_agents fuel adj ns)
                  (λ b l v.
                    Found-after (AllVisited ns) (AllVisited (n ∷ ns)) l
                      (λ c g h. AllVisited-cons n ns b c v g h) _ (again b l))
                  _
                  (check_cycle-Found fuel [] n st (inside n (here refl)) u s
                    (λ m e. absurd (idle m e)) f))
          | inr (inl o) ↦ absurd (idle n o)
          | inr (inr v) ↦
              let runs : check_agents fuel adj (n ∷ ns) st ≡ check_agents fuel adj ns st =
                rw (check_agents, v) refl in
              rw runs (
                Found-after (AllVisited ns) (AllVisited (n ∷ ns)) (Later-refl st s)
                  (λ c g h. AllVisited-cons n ns st c v g h) _ (again st (Later-refl st s)))
        ]
