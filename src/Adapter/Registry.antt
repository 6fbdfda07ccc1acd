-- ===== src/Adapter/Registry.antt =====
-- pkg/adapter/registry.go: the registry of adapters by their types, for any type of adapters.
use progo_a2a.Prelude.{
  ℕ, String, ◌≡◌, arith, none, some, [], str_eq, if◌then◌else◌, Result, ok, err,
}
use progo_a2a.Prelude.Dict.{Dict, get, put, size, get-put}

module _ {A : Type 0} (type_of : A → String) where
  abbrev pub new_registry : Dict A
  new_registry = []

  unfoldable pub register : A → Dict A → Dict A
  unfolding put
  register a adapters = put (type_of a) a adapters

  -- `Get`; the error names the type.
  unfoldable pub get_adapter : String → Dict A → Result String A
  unfolding get
  get_adapter kind adapters = elim (get kind adapters) [ none ↦ err kind | some a ↦ ok a ]

  -- `Count`, which `Len` calls.
  abbrev pub count_adapters : Dict A → ℕ
  count_adapters adapters = size adapters

  -- The last adapter registered under a type is the one that its type gets.
  get_adapter-register :
      (a : A) (adapters : Dict A) (kind : String)
      → get_adapter kind (register a adapters)
        ≡ (if str_eq (type_of a) kind then ok a else get_adapter kind adapters)
  unfolding get_adapter register
  get_adapter-register a adapters kind = ground (arith, get-put (type_of a) kind a adapters)
