-- ===== src/EventSender/Registry.antt =====
-- internal/eventsender/registry.go: the sender factories by type name.
use kigeon.Prelude.{
  ◌≡◌, refl, ap, ◌∙◌, ◌⊎◌, inl, inr, ◌||◌, Option-cases, String, true, false, Option, none, some,
  List, [], ◌∷◌, arith, Map, lookup, insert, lookup-insert, ◌==◌, if◌then◌else◌, contains, append,
  is_some,
}
use kigeon.Errors.{errorf, Result, err}

-- A factory makes a sender of the arguments that `Create` passes on.
abbrev pub SenderFactory : Type 0 → Type 0 → Type 0
SenderFactory Arguments EventSender = Arguments → Result EventSender

module _ (Arguments EventSender : Type 0) where
  abbrev pub Registry : Type 0
  Registry = Map (SenderFactory Arguments EventSender)

-- `Register` returns nothing or panics; the registry is as it was after a panic.
pub data Registered (R : Type 0) : Type 0 where
  done : R → Registered R
  panic : String → Registered R

module _ {Arguments EventSender : Type 0} where
  -- `Register`; a nil factory is `none`
  unfoldable pub register :
      Registry Arguments EventSender
      → String
      → Option (SenderFactory Arguments EventSender)
      → Registered (Registry Arguments EventSender)
  register registry type_name none = panic "eventsender: Register factory is nil"
  register registry type_name (some factory) =
      if is_some (lookup type_name registry)
      then panic (append "eventsender: Register called twice for type " type_name)
      else done (insert type_name factory registry)

  -- `Create`
  unfoldable pub create : Registry Arguments EventSender → String → Arguments → Result EventSender
  create registry type_name arguments = elim (lookup type_name registry) [
    | none ↦ err (errorf "unknown sender type: %s" (type_name ∷ []))
    | some factory ↦ factory arguments
  ]

  -- `RegisteredTypes`, in the order in which `range` gives the keys
  unfoldable pub registered_types : Registry Arguments EventSender → List String
  registered_types [] = []
  registered_types ((type_name, factory) ∷ registry) = type_name ∷ registered_types registry

  -- Registering a type that is not there makes `Create` of that type call the factory, and changes
  -- `Create` of no other type.
  pub create-register :
      (registry registry' : Registry Arguments EventSender) (type_name other : String)
      (factory : SenderFactory Arguments EventSender) (arguments : Arguments)
      → register registry type_name (some factory) ≡ done registry'
      → create registry' other arguments
        ≡ (if type_name == other then factory arguments else create registry other arguments)
  unfolding register create
  create-register registry registry' type_name other factory arguments h =
      ground (arith, lookup-insert type_name other factory registry)

  contains-registered_types :
      (registry : Registry Arguments EventSender) (type_name : String)
      → contains (registered_types registry) type_name ≡ is_some (lookup type_name registry)
  unfolding registered_types lookup
  contains-registered_types [] type_name = refl
  contains-registered_types ((t, f) ∷ registry) type_name =
      ground (arith, contains-registered_types registry type_name)

  register_fresh :
      (registry : Registry Arguments EventSender) (type_name : String)
      (factory : SenderFactory Arguments EventSender)
      → lookup type_name registry ≡ none
      → register registry type_name (some factory) ≡ done (insert type_name factory registry)
  unfolding register
  register_fresh registry type_name factory fresh = rw fresh refl

  -- `Register` of a factory panics exactly if `RegisteredTypes` lists the type, and else adds the
  -- type to those that it lists, makes `Create` of the type call the factory, and leaves `Create` of
  -- every other type as it was: no factory is ever replaced.
  pub register_cases :
      (registry : Registry Arguments EventSender) (type_name : String)
      (factory : SenderFactory Arguments EventSender)
      → ((contains (registered_types registry) type_name ≡ true)
          × (register registry type_name (some factory)
              ≡ panic (append "eventsender: Register called twice for type " type_name)))
        ⊎ ((contains (registered_types registry) type_name ≡ false)
            × (registry' : Registry Arguments EventSender) × (register registry type_name
                  (some factory)
                ≡ done registry')
            × ((t : String)
                → contains (registered_types registry') t
                  ≡ (type_name == t || contains (registered_types registry) t))
            × ((t : String) (arguments : Arguments)
                → create registry' t arguments
                  ≡ (if type_name == t then factory arguments else create registry t arguments)))
  unfolding register
  register_cases registry type_name factory = elim (Option-cases (lookup type_name registry)) [
    | inl fresh ↦ inr (
      contains-registered_types registry type_name ∙ ap is_some fresh,
      insert type_name factory registry,
      rw fresh,
      λ t. ground (
        arith,
        contains-registered_types registry t,
        contains-registered_types (insert type_name factory registry) t,
        lookup-insert type_name t factory registry,
      ),
      λ t arguments.
          create-register registry _ type_name t factory arguments
            (register_fresh registry type_name factory fresh),
    )
    | inr (old, there) ↦
        inl (contains-registered_types registry type_name ∙ ap is_some there, rw there)
  ]
