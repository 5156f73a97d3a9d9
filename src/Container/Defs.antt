-- ===== src/Container/Defs.antt =====
-- The container's registrations and instances, and how it resolves a type. Types, parameters'
-- names, threads and instances are numbers: an instance is the number of the object. A method
-- returns its outcome and the new container. The lock is left out: one thread runs at a time.
use dro_asms.Prelude.{
  ℕ, zero, suc, Bool, true, false, not, Option, none, some, List, [], ◌∷◌, keep, elem, ◌==◌,
  if◌then◌else◌,
}
use dro_asms.Prelude.Dict.{Dict, lookup, contains, insert}

pub data Lifecycle : Type 0 where
  singleton factory thread_local : Lifecycle

pub data Exception : Type 0 where
  key_error runtime_error value_error : Exception
  other : ℕ → Exception

-- What a call comes to. Python's recursion is counted: a call that may nest no deeper is
-- `out_of_fuel`.
pub data Outcome (A : Type 0) : Type 0 where
  value : A → Outcome A
  raises : Exception → Outcome A
  out_of_fuel : Outcome A

-- A member of a union annotation.
pub data Member : Type 0 where
  class_member : ℕ → Member
  none_type other_member : Member

-- What `get_type_hints` has for a parameter.
pub data Annotation : Type 0 where
  class_type : ℕ → Annotation
  union_type : List Member → Annotation
  other_annotation : Annotation

-- `annotation` is `none` for no hint and for Any.
pub record Param : Type 0 where
  pub name : ℕ
  pub is_variadic : Bool
  pub annotation : Option Annotation
  pub has_default : Bool

-- A factory: the constructor with its parameters, `lambda: instance`, or a function that resolves
-- some types and makes an object of them.
pub data Factory : Type 0 where
  auto_factory : List Param → Factory
  constant : ℕ → Factory
  resolving_factory : List ℕ → Factory

pub record Container : Type 0 where
  pub registrations : Dict (Factory × Lifecycle)
  pub singletons : Dict ℕ
  pub thread_locals : Dict (Dict ℕ)
  pub resolving : List ℕ
  -- the next object's number
  pub next_object : ℕ

abbrev pub empty_container : Container
empty_container = record {
  registrations = [];
  singletons = [];
  thread_locals = [];
  resolving = [];
  next_object = 0;
}

-- `_create_auto_factory`, where no factory is given
abbrev factory_or_auto : Option Factory → List Param → Factory
factory_or_auto none params = auto_factory params
factory_or_auto (some f) params = f

-- `params` are the constructor's.
unfoldable pub register :
    ℕ → Option Factory → List Param → Lifecycle → Container → Outcome Container
register t f params life c =
    if contains t c.registrations
    then raises value_error
    else value
        (record c { registrations = insert t (factory_or_auto f params, life) c.registrations })

unfoldable pub register_instance : ℕ → ℕ → Container → Outcome Container
register_instance t i c =
    if contains t c.registrations
    then raises value_error
    else value (record c {
      registrations = insert t (constant i, singleton) c.registrations;
      singletons = insert t i c.singletons;
    })

unfoldable pub is_registered : ℕ → Container → Bool
is_registered t c = contains t c.registrations

unfoldable pub clear : Container → Container
clear c = record c { registrations = []; singletons = []; thread_locals = []; resolving = [] }

abbrev non_none : List Member → List Member
non_none [] = []
non_none (none_type ∷ ms) = non_none ms
non_none (m ∷ ms) = m ∷ non_none ms

abbrev has_none : List Member → Bool
has_none [] = false
has_none (none_type ∷ ms) = true
has_none (m ∷ ms) = has_none ms

-- `has_none and len(non_none) == 1`, and the one is a class
abbrev only_class : Bool → List Member → Option ℕ
only_class true (class_member t ∷ []) = some t
only_class _ ms = none

unfoldable pub infer_injectable_type : Annotation → Option ℕ
infer_injectable_type (class_type t) = some t
infer_injectable_type (union_type ms) = only_class (has_none ms) (non_none ms)
infer_injectable_type other_annotation = none

-- The type that the loop over the parameters resolves for this one, if any.
unfoldable pub dependency : Param → Option ℕ
dependency p =
    if p.is_variadic
    then none
    else elim p.annotation [ none ↦ none | some a ↦ infer_injectable_type a ]

abbrev pub Resolver : Type 0
Resolver = ℕ → Container → Outcome ℕ × Container

-- The loop over the parameters. A dependency that is not registered (or whose own factory raises
-- a KeyError) is left out where the parameter has a default.
unfoldable pub resolve_params :
    Resolver → List Param → Dict ℕ → Container → Outcome (Dict ℕ) × Container
resolve_params r [] kwargs c = (value kwargs, c)
resolve_params r (p ∷ ps) kwargs c = elim (dependency p) [
  | none ↦ resolve_params r ps kwargs c
  | some t ↦
      let (o, c') = r t c in
      elim o [
        | value i ↦ resolve_params r ps (insert p.name i kwargs) c'
        | raises key_error ↦
            if p.has_default then resolve_params r ps kwargs c' else (raises key_error, c')
        | raises e ↦ (raises e, c')
        | out_of_fuel ↦ (out_of_fuel, c')
      ]
]

unfoldable pub resolve_each : Resolver → List ℕ → Container → Outcome (List ℕ) × Container
resolve_each r [] c = (value [], c)
resolve_each r (t ∷ ts) c =
    let (o, c') = r t c in
    elim o [
      | raises e ↦ (raises e, c')
      | out_of_fuel ↦ (out_of_fuel, c')
      | value i ↦
          let (os, c'') = resolve_each r ts c' in
          elim os [
            | value is ↦ (value (i ∷ is), c'')
            | raises e ↦ (raises e, c'')
            | out_of_fuel ↦ (out_of_fuel, c'')
          ]
    ]

-- What the registered classes and functions do with their arguments: `none` is a new object.
pub record Classes : Type 0 where
  pub construct : ℕ → Dict ℕ → Option Exception
  pub assemble : ℕ → List ℕ → Option Exception

-- A new object, or the exception of its constructor.
abbrev pub made : Option Exception → Container → Outcome ℕ × Container
made none c = (value c.next_object, record c { next_object = suc c.next_object })
made (some e) c = (raises e, c)

module _ (classes : Classes) (thread : ℕ) where
  unfoldable pub call_factory : Resolver → ℕ → Factory → Container → Outcome ℕ × Container
  call_factory r t (constant i) c = (value i, c)
  call_factory r t (auto_factory params) c =
      let (o, c') = resolve_params r params [] c in
      elim o [
        | value kwargs ↦ made (classes.construct t kwargs) c'
        | raises e ↦ (raises e, c')
        | out_of_fuel ↦ (out_of_fuel, c')
      ]
  call_factory r t (resolving_factory ts) c =
      let (o, c') = resolve_each r ts c in
      elim o [
        | value args ↦ made (classes.assemble t args) c'
        | raises e ↦ (raises e, c')
        | out_of_fuel ↦ (out_of_fuel, c')
      ]

  -- Keep the new instance where the call returned one.
  abbrev pub store_value :
      (ℕ → Container → Container) → Outcome ℕ × Container → Outcome ℕ × Container
  store_value put (value i, c) = (value i, put i c)
  store_value put (raises e, c) = (raises e, c)
  store_value put (out_of_fuel, c) = (out_of_fuel, c)

  abbrev pub put_singleton : ℕ → ℕ → Container → Container
  put_singleton t i c = record c { singletons = insert t i c.singletons }

  abbrev pub locals_of : Container → Dict ℕ
  locals_of c = elim (lookup thread c.thread_locals) [ none ↦ [] | some d ↦ d ]

  abbrev pub put_local : ℕ → ℕ → Container → Container
  put_local t i c = record c {
    thread_locals = insert thread (insert t i (locals_of c)) c.thread_locals;
  }

  -- `_thread_locals[thread_id] = {}`, where the thread has none
  abbrev pub with_locals : Container → Container
  with_locals c = record c { thread_locals = insert thread (locals_of c) c.thread_locals }

  unfoldable pub resolve_singleton : Resolver → ℕ → Factory → Container → Outcome ℕ × Container
  resolve_singleton r t f c = elim (lookup t c.singletons) [
    | some i ↦ (value i, c)
    | none ↦ store_value (put_singleton t) (call_factory r t f c)
  ]

  unfoldable pub resolve_thread_local : Resolver → ℕ → Factory → Container → Outcome ℕ × Container
  resolve_thread_local r t f c =
      let c0 = with_locals c in
      elim (lookup t (locals_of c0)) [
        | some i ↦ (value i, c0)
        | none ↦ store_value (put_local t) (call_factory r t f c0)
      ]

  unfoldable pub resolve_as : Lifecycle → Resolver → ℕ → Factory → Container → Outcome ℕ × Container
  resolve_as singleton r t f c = resolve_singleton r t f c
  resolve_as factory r t f c = call_factory r t f c
  resolve_as thread_local r t f c = resolve_thread_local r t f c

  -- The `finally`.
  abbrev pub leave : ℕ → Outcome ℕ × Container → Outcome ℕ × Container
  leave t (o, c) = (o, record c { resolving = keep (λ s. not (s == t)) c.resolving })

  abbrev pub enter : ℕ → Container → Container
  enter t c = record c { resolving = t ∷ c.resolving }

  unfoldable pub resolve : (fuel : ℕ) → Resolver
  resolve zero t c = (out_of_fuel, c)
  resolve (suc n) t c = elim (lookup t c.registrations) [
    | none ↦ (raises key_error, c)
    | some (f, life) ↦
        if elem t c.resolving
        then (raises runtime_error, c)
        else leave t (resolve_as life (resolve n) t f (enter t c))
  ]
