-- ===== src/Metrics/Sorting.antt =====
-- The sorting of the items that pkg/metrics/metrics.go reads off a map, and the order in which the map is read.
use progo_a2a.Prelude.{
  ℕ, ltb, String, ◌≡◌, ◌≢◌, refl, ap, sym, ◌∙◌, arith, Bool, true, false, List, [], ◌∷◌, map,
  str_eq, str_eq_iff, str_lt, str_lt_trans, str_lt_asym, str_lt_total, if◌then◌else◌,
}
use progo_a2a.Metrics.{RequestKey, DurationKey, FallbackKey}

-- `sort.Slice`, by the keys.
module _ {A K : Type 0} (less : K → K → Bool) (key : A → K) where
  unfoldable pub insert_item : A → List A → List A
  insert_item x [] = x ∷ []
  insert_item x (y ∷ ys) =
      let rest = insert_item x ys in if less (key y) (key x) then y ∷ rest else x ∷ y ∷ ys

  unfoldable pub sort_items : List A → List A
  unfolding insert_item
  sort_items [] = []
  sort_items (x ∷ xs) = insert_item x (sort_items xs)

-- The comparisons of `Gather`.
abbrev pub less_fallback : FallbackKey → FallbackKey → Bool
less_fallback a b =
    if str_eq a.primary_agent b.primary_agent
    then str_lt a.fallback_agent b.fallback_agent
    else str_lt a.primary_agent b.primary_agent

abbrev pub less_duration : DurationKey → DurationKey → Bool
less_duration a b =
    if str_eq a.method b.method then str_lt a.path b.path else str_lt a.method b.method

abbrev pub less_request : RequestKey → RequestKey → Bool
less_request a b =
    if str_eq a.method b.method
    then (if str_eq a.path b.path then ltb a.status b.status else str_lt a.path b.path)
    else str_lt a.method b.method

pub record IsOrder {K : Type 0} (less : K → K → Bool) : Type 0 where
  pub less_trans : (a b c : K) → less a b ≡ true → less b c ≡ true → less a c ≡ true
  pub less_asym : (a b : K) → less a b ≡ true → less b a ≡ false
  pub less_total : (a b : K) → less a b ≡ false → less b a ≡ false → a ≡ b

pub str_lt-IsOrder : IsOrder str_lt
str_lt-IsOrder = record {
  less_trans = str_lt_trans;
  less_asym = str_lt_asym;
  less_total = str_lt_total;
}

ltb-IsOrder : IsOrder ltb
ltb-IsOrder = record {
  less_trans = λ a b c h k. ground (arith, h, k);
  less_asym = λ a b h. ground (arith, h);
  less_total = λ a b h k. ground (arith, h, k);
}

-- A comparison by a text, and by something else where the texts are equal.
module _ {K B : Type 0} (less : B → B → Bool) (order : IsOrder less) (text : K → String)
    (more : K → B) (same : (a b : K) → text a ≡ text b → more a ≡ more b → a ≡ b) where
  by_text-IsOrder :
      IsOrder (λ a b.
        if str_eq (text a) (text b) then less (more a) (more b) else str_lt (text a) (text b))
  by_text-IsOrder = record {
    less_trans = λ a b c h k. ground (
      arith,
      h,
      k,
      str_eq_iff (text a) (text b),
      str_eq_iff (text b) (text c),
      str_eq_iff (text a) (text c),
      str_lt_trans (text a) (text b) (text c),
      str_lt_asym (text a) (text b),
      str_lt_asym (text b) (text c),
      order.less_trans (more a) (more b) (more c),
    );
    less_asym = λ a b h. ground (
      arith,
      h,
      str_eq_iff (text a) (text b),
      str_eq_iff (text b) (text a),
      str_lt_asym (text a) (text b),
      order.less_asym (more a) (more b),
    );
    less_total = λ a b h k. ground (
      arith,
      h,
      k,
      str_eq_iff (text a) (text b),
      str_eq_iff (text b) (text a),
      str_lt_total (text a) (text b),
      order.less_total (more a) (more b),
      same a b,
    );
  }

pub less_fallback-IsOrder : IsOrder less_fallback
less_fallback-IsOrder =
    by_text-IsOrder str_lt str_lt-IsOrder (λ k. k.primary_agent) (λ k. k.fallback_agent)
      (λ a b p q. cc)

pub less_duration-IsOrder : IsOrder less_duration
less_duration-IsOrder =
    by_text-IsOrder str_lt str_lt-IsOrder (λ k. k.method) (λ k. k.path) (λ a b p q. cc)

abbrev less_rest : String × ℕ → String × ℕ → Bool
less_rest a b = if str_eq a.0 b.0 then ltb a.1 b.1 else str_lt a.0 b.0

pub less_request-IsOrder : IsOrder less_request
less_request-IsOrder =
    by_text-IsOrder less_rest
      (by_text-IsOrder ltb ltb-IsOrder (λ k. k.0) (λ k. k.1) (λ a b p q. cc)) (λ k. k.method)
      (λ k. (k.path, k.status)) (λ a b p q. ground (arith, p, q))

-- The items of one map in another order: any two with different keys may change places.
pub data Reordered {A K : Type 0} (key : A → K) : List A → List A → Type 0 where
  same_order : (xs : List A) → Reordered key xs xs
  keep_first : (x : A) {xs ys : List A} → Reordered key xs ys → Reordered key (x ∷ xs) (x ∷ ys)
  swap_first : (x y : A) (xs : List A) → key x ≢ key y → Reordered key (x ∷ y ∷ xs) (y ∷ x ∷ xs)
  in_turn : {xs ys zs : List A} → Reordered key xs ys → Reordered key ys zs → Reordered key xs zs

module _ {A K : Type 0} {less : K → K → Bool} (order : IsOrder less) (key : A → K) where
  insert_item-insert_item :
      (x y : A) (xs : List A)
      → key x ≢ key y
      → insert_item less key x (insert_item less key y xs)
        ≡ insert_item less key y (insert_item less key x xs)
  unfolding insert_item
  insert_item-insert_item x y [] d =
      ground (arith, d, order.less_asym (key x) (key y), order.less_total (key x) (key y))
  insert_item-insert_item x y (z ∷ xs) d = ground (
    arith,
    d,
    order.less_asym (key x) (key y),
    order.less_total (key x) (key y),
    order.less_trans (key z) (key x) (key y),
    order.less_trans (key z) (key y) (key x),
    insert_item-insert_item x y xs d,
  )

  pub sort_items-Reordered :
      {xs ys : List A} → Reordered key xs ys → sort_items less key xs ≡ sort_items less key ys
  unfolding sort_items
  sort_items-Reordered (same_order xs) = refl
  sort_items-Reordered (keep_first x r) = ap (insert_item less key x) (sort_items-Reordered r)
  sort_items-Reordered (swap_first x y xs d) =
      insert_item-insert_item x y (sort_items less key xs) d
  sort_items-Reordered (in_turn r s) = sort_items-Reordered r ∙ sort_items-Reordered s

module _ {A C K : Type 0} (key : A → K) (name : C → K) (f : A → C)
    (named : (x : A) → name (f x) ≡ key x) where
  pub map-Reordered : {xs ys : List A} → Reordered key xs ys → Reordered name (map f xs) (map f ys)
  map-Reordered (same_order xs) = same_order (map f xs)
  map-Reordered (keep_first x r) = keep_first (f x) (map-Reordered r)
  map-Reordered (swap_first x y xs d) =
      swap_first (f x) (f y) (map f xs) (λ e. d (sym (named x) ∙ e ∙ named y))
  map-Reordered (in_turn r s) = in_turn (map-Reordered r) (map-Reordered s)
