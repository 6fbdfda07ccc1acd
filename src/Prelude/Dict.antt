-- ===== src/Prelude/Dict.antt =====
-- Go's `map[string]V` as an association list whose keys are distinct.
use Prim.Native.Nat.{ℕ, suc, ◌+◌}
use Prim.Native.String.{String}
use mathlib.Core.Path.{◌≡◌, refl}
use mathlib.Core.Bool.{Bool, false}
use mathlib.Core.List.{List, [], ◌∷◌}
use mathlib.Core.Option.{Option, none, some}
use native.Mathlib.Omega.{arith}
use text.Mathlib.Text.{◌==◌ as str_eq}
use text.Mathlib.TextEquality.{eq_iff as str_eq_iff}
use progo_a2a.Prelude.Tests.{if◌then◌else◌, is_some}
use progo_a2a.Prelude.Lists.{length}

abbrev pub Dict {ℓ} : Type ℓ → Type ℓ
Dict V = List (String × V)

module _ {ℓ} {V : Type ℓ} where
  unfoldable pub get : String → Dict V → Option V
  get k [] = none
  get k ((j, v) ∷ d) = if str_eq j k then some v else get k d

  -- d[k] = v
  unfoldable pub put : String → V → Dict V → Dict V
  put k v [] = (k, v) ∷ []
  put k v ((j, w) ∷ d) = let rest = put k v d in if str_eq j k then (k, v) ∷ d else (j, w) ∷ rest

  -- delete(d, k)
  unfoldable pub remove : String → Dict V → Dict V
  remove k [] = []
  remove k ((j, w) ∷ d) = let rest = remove k d in if str_eq j k then d else (j, w) ∷ rest

  -- len(d)
  abbrev pub size : Dict V → ℕ
  size d = length d

  abbrev pub has : String → Dict V → Bool
  has k d = is_some (get k d)

  -- The keys are distinct.
  abbrev pub IsDict : Dict V → Type 0
  IsDict [] = Unit
  IsDict ((k, v) ∷ d) = (has k d ≡ false) × IsDict d

  pub get-put :
      (k j : String) (v : V) (d : Dict V)
      → get j (put k v d) ≡ (if str_eq k j then some v else get j d)
  unfolding get put
  get-put k j v [] = refl
  get-put k j v ((i, w) ∷ d) =
      ground (arith, str_eq_iff k j, str_eq_iff i k, str_eq_iff i j, get-put k j v d)

  pub get-remove :
      (k j : String) (d : Dict V)
      → IsDict d
      → get j (remove k d) ≡ (if str_eq k j then none else get j d)
  unfolding get remove
  get-remove k j [] h = ground arith
  get-remove k j ((i, w) ∷ d) h =
      ground (arith, str_eq_iff k j, str_eq_iff i k, str_eq_iff i j, get-remove k j d h.1, h.0)

  pub size-put :
      (k : String) (v : V) (d : Dict V)
      → size (put k v d) ≡ (if has k d then size d else suc (size d))
  unfolding get put
  size-put k v [] = refl
  size-put k v ((j, w) ∷ d) = ground (arith, size-put k v d)

  pub size-remove :
      (k : String) (d : Dict V) → size (remove k d) + (if has k d then 1 else 0) ≡ size d
  unfolding get remove
  size-remove k [] = refl
  size-remove k ((j, w) ∷ d) = ground (arith, size-remove k d)

  pub put-IsDict : (k : String) (v : V) (d : Dict V) → IsDict d → IsDict (put k v d)
  unfolding get put
  put-IsDict k v [] h = (refl, tt)
  put-IsDict k v ((j, w) ∷ d) h =
      ground (arith, h.0, str_eq_iff j k, str_eq_iff k j, get-put k j v d, put-IsDict k v d h.1)

  pub remove-IsDict : (k : String) (d : Dict V) → IsDict d → IsDict (remove k d)
  unfolding get remove
  remove-IsDict k [] h = tt
  remove-IsDict k ((j, w) ∷ d) h =
      ground
        (arith, h.0, str_eq_iff k j, str_eq_iff j k, get-remove k j d h.1, remove-IsDict k d h.1)
