-- ===== src/Config/Cycles/Walks.antt =====
-- The graph of the fallback lists, its walks, and the nodes from which every walk ends.
use progo_a2a.Prelude.{
  ℕ, ◌+◌, ◌≤◌, ◌<◌, String, ◌≡◌, refl, sym, subst, Bool, true, false, arith, str_eq, str_eq_iff,
  List, [], ◌∷◌, ◌⊎◌, inl, inr, if◌then◌else◌, In, here, there,
}
use progo_a2a.Prelude.Dict.{put, get-put}
use progo_a2a.Config.Cycles.{Adjacency, neighbors, Visit, Visits, unvisited, state_of}

module _ (adj : Adjacency) where
  -- The walks along the fallback lists.
  pub data Walk (start : String) : String → Type 0 where
    stay : Walk start start
    go : {b c : String} → Walk start b → In c (neighbors adj b) → Walk start c

  abbrev pub Cycle : Type 0
  Cycle = (a b : String) × Walk a b × In a (neighbors adj b)

  -- The nodes from which every walk ends.
  pub data Ends : String → Type 0 where
    ends : {n : String} → ((m : String) → In m (neighbors adj n) → Ends m) → Ends n

  first_step :
      {a b : String} → Walk a b → (a ≡ b) ⊎ ((m : String) × In m (neighbors adj a) × Walk m b)
  first_step stay = inl refl
  first_step (go {b} {c} w i) = elim (first_step w) [
    | inl e ↦ inr (c, rw e i, stay)
    | inr (m, j, v) ↦ inr (m, j, go v i)
  ]

  pub Ends-uncycled : {a b : String} → Ends a → Walk a b → ¬ In a (neighbors adj b)
  Ends-uncycled {a} {b} (ends f) w i = elim (first_step w) [
    | inl e ↦ let j = subst (λ c. In a (neighbors adj c)) (sym e) i in Ends-uncycled (f a j) stay j
    | inr (m, j, v) ↦ Ends-uncycled (f m j) (go v i) j
  ]

-- Whether a node is not visited yet, and the number of such nodes.
abbrev pub is_fresh : Visit → Bool
is_fresh unvisited = true
is_fresh _ = false

abbrev pub fresh : List String → Visits → ℕ
fresh [] st = 0
fresh (n ∷ ns) st = (if is_fresh (state_of n st) then 1 else 0) + fresh ns st

pub state_of-put :
    (k j : String) (v : Visit) (st : Visits)
    → state_of j (put k v st) ≡ (if str_eq k j then v else state_of j st)
unfolding state_of
state_of-put k j v st = ground (arith, get-put k j v st)

pub fresh-put-le :
    (ids : List String) (k : String) (v : Visit) (st : Visits)
    → is_fresh v ≡ false
    → fresh ids (put k v st) ≤ fresh ids st
fresh-put-le [] k v st h = omega arith
fresh-put-le (n ∷ ns) k v st h = ground (arith, state_of-put k n v st, fresh-put-le ns k v st h, h)

pub fresh-put-lt :
    (ids : List String) (k : String) (v : Visit) (st : Visits)
    → is_fresh v ≡ false
    → state_of k st ≡ unvisited
    → In k ids
    → fresh ids (put k v st) < fresh ids st
fresh-put-lt [] k v st h u i = elim i [ ]
fresh-put-lt (n ∷ ns) k v st h u (here e) =
    ground (arith, state_of-put k n v st, fresh-put-le ns k v st h, h, u, str_eq_iff k n, e)
fresh-put-lt (n ∷ ns) k v st h u (there i) =
    ground (arith, state_of-put k n v st, fresh-put-lt ns k v st h u i, h, u)
