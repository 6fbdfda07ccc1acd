-- ===== src/TaskStore/Order.antt =====
-- The lists of ids of pkg/storage/memory.go: removal, membership and distinctness.
use progo_a2a.Prelude.{
  ℕ, zero, suc, ◌+◌, ◌≤◌, String, ◌≡◌, refl, ap, ◌∙◌, Bool, false, ◌||◌, not, List, [], ◌∷◌, ◌++◌,
  arith, length, keep, str_eq, str_eq_iff, if◌then◌else◌, ◌&&◌, ◌-◌,
}
use progo_a2a.TaskStore.{contains, without}

abbrev pub AllDistinct : List String → Type 0
AllDistinct [] = Unit
AllDistinct (k ∷ ks) = (contains k ks ≡ false) × AllDistinct ks

abbrev pub drop : ℕ → List String → List String
drop zero ks = ks
drop (suc n) [] = []
drop (suc n) (k ∷ ks) = drop n ks

-- The ids of `ll` that are not among `keys`.
abbrev pub minus : List String → List String → List String
minus [] ll = ll
minus (k ∷ keys) ll = minus keys (without k ll)

pub contains-without :
    (k j : String) (ll : List String)
    → AllDistinct ll
    → contains j (without k ll) ≡ (if str_eq k j then false else contains j ll)
unfolding contains without
contains-without k j [] d = ground arith
contains-without k j (i ∷ ll) d =
    ground (arith, d.0, str_eq_iff i k, str_eq_iff k j, str_eq_iff i j, contains-without k j ll d.1)

pub contains-append :
    (j : String) (xs ys : List String) → contains j (xs ++ ys) ≡ contains j xs || contains j ys
unfolding contains
contains-append j [] ys = refl
contains-append j (x ∷ xs) ys = ground (arith, contains-append j xs ys)

pub without_absent : (k : String) (ll : List String) → contains k ll ≡ false → without k ll ≡ ll
unfolding contains without
without_absent k [] h = refl
without_absent k (j ∷ ll) h = ground (arith, without_absent k ll)

pub length-without :
    (k : String) (ll : List String)
    → length (without k ll) + (if contains k ll then 1 else 0) ≡ length ll
unfolding contains without
length-without k [] = refl
length-without k (j ∷ ll) = ground (arith, length-without k ll)

pub without-AllDistinct :
    (k : String) (ll : List String) → AllDistinct ll → AllDistinct (without k ll)
unfolding without
without-AllDistinct k [] d = tt
without-AllDistinct k (j ∷ ll) d =
    ground (arith, d.0, contains-without k j ll d.1, without-AllDistinct k ll d.1)

pub append_one-AllDistinct :
    (ll : List String) (k : String)
    → AllDistinct ll
    → contains k ll ≡ false
    → AllDistinct (ll ++ k ∷ [])
unfolding contains
append_one-AllDistinct [] k d h = (refl, tt)
append_one-AllDistinct (j ∷ ll) k d h = ground (
  arith,
  str_eq_iff j k,
  str_eq_iff k j,
  contains-append j ll (k ∷ []),
  append_one-AllDistinct ll k d.1,
)

without-append_one :
    (j k : String) (ll : List String)
    → str_eq k j ≡ false
    → without j (ll ++ k ∷ []) ≡ without j ll ++ k ∷ []
unfolding without
without-append_one j k [] h = ground arith
without-append_one j k (i ∷ ll) h = ground (arith, without-append_one j k ll h)

pub minus-append_one :
    (keys ll : List String) (k : String)
    → contains k keys ≡ false
    → minus keys (ll ++ k ∷ []) ≡ minus keys ll ++ k ∷ []
unfolding contains
minus-append_one [] ll k h = refl
minus-append_one (j ∷ keys) ll k h =
    ap (minus keys) (without-append_one j k ll (ground (arith, str_eq_iff j k, str_eq_iff k j)))
    ∙ minus-append_one keys (without j ll) k (ground arith)

pub drop-append :
    (n : ℕ) (xs ys : List String) → n ≤ length xs → drop n (xs ++ ys) ≡ drop n xs ++ ys
drop-append zero xs ys h = refl
drop-append (suc n) [] ys h = absurd (omega arith)
drop-append (suc n) (x ∷ xs) ys h = drop-append n xs ys (omega arith)

pub drop-contains :
    (n : ℕ) (ll : List String) (j : String) → contains j ll ≡ false → contains j (drop n ll) ≡ false
unfolding contains
drop-contains zero ll j h = h
drop-contains (suc n) [] j h = h
drop-contains (suc n) (k ∷ ll) j h = drop-contains n ll j (ground arith)

pub length-keep_both :
    (p : String → Bool) (keys : List String)
    → length (keep p keys) + length (keep (λ k. not (p k)) keys) ≡ length keys
length-keep_both p [] = refl
length-keep_both p (k ∷ keys) = ground (arith, length-keep_both p keys)

pub keep-without :
    (k : String) (keys ll : List String)
    → AllDistinct ll
    → contains k keys ≡ false
    → keep (λ j. contains j (without k ll)) keys ≡ keep (λ j. contains j ll) keys
unfolding contains
keep-without k [] ll d h = refl
keep-without k (j ∷ keys) ll d h =
    ground
      (arith, contains-without k j ll d, str_eq_iff j k, str_eq_iff k j, keep-without k keys ll d)

pub length-minus :
    (keys ll : List String)
    → AllDistinct keys
    → AllDistinct ll
    → length (minus keys ll) + length (keep (λ k. contains k ll) keys) ≡ length ll
length-minus [] ll d e = omega arith
length-minus (k ∷ keys) ll d e = ground (
  arith,
  length-minus keys (without k ll) d.1 (without-AllDistinct k ll e),
  length-without k ll,
  ap (λ (t : List String). length t) (keep-without k keys ll e d.0),
)

pub contains-keep :
    (p : String → Bool) (j : String) (keys : List String)
    → contains j (keep p keys) ≡ contains j keys && p j
unfolding contains
contains-keep p j [] = refl
contains-keep p j (k ∷ keys) = ground (arith, contains-keep p j keys, str_eq_iff k j)

pub keep-AllDistinct :
    (p : String → Bool) (keys : List String) → AllDistinct keys → AllDistinct (keep p keys)
keep-AllDistinct p [] d = tt
keep-AllDistinct p (k ∷ keys) d =
    ground (arith, keep-AllDistinct p keys d.1, contains-keep p k keys, d.0)

pub contains-minus :
    (keys ll : List String) (j : String)
    → AllDistinct ll
    → contains j (minus keys ll) ≡ contains j ll && not (contains j keys)
unfolding contains
contains-minus [] ll j d = ground arith
contains-minus (k ∷ keys) ll j d = ground (
  arith,
  contains-minus keys (without k ll) j (without-AllDistinct k ll d),
  contains-without k j ll d,
)

pub length-drop : (n : ℕ) (xs : List String) → length (drop n xs) ≡ length xs - n
length-drop zero xs = omega arith
length-drop (suc n) [] = omega arith
length-drop (suc n) (x ∷ xs) = omega (arith, length-drop n xs)

pub keep-ext :
    (p q : String → Bool) (keys : List String)
    → ((k : String) → p k ≡ q k)
    → keep p keys ≡ keep q keys
keep-ext p q [] h = refl
keep-ext p q (k ∷ keys) h = ground (arith, h k, keep-ext p q keys h)
