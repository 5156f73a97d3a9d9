-- ===== src/Container/Tests.antt =====
-- The container at concrete registrations: 1 is a pool, 2 a gateway, 3 a service made of both, and
-- 4 and 5 need each other.
use dro_asms.Prelude.{ℕ, ◌≡◌, ◌≢◌, refl, false, none, some, [], ◌∷◌, arith}
use dro_asms.Container.Defs.{
  singleton, value, raises, runtime_error, out_of_fuel, class_type, Param, auto_factory, constant,
  resolving_factory, Container, empty_container, Classes, resolve, register_instance, dependency,
  infer_injectable_type, resolve_params, resolve_each, call_factory, resolve_as, resolve_singleton,
}
use dro_asms.Container.Resolve.{resolve_restores, resolve_finishes}
use dro_asms.Container.Singletons.{resolve_all, singleton_identity, resolve-register_instance}

abbrev param : ℕ → ℕ → Param
param n t = record {
  name = n;
  is_variadic = false;
  annotation = some (class_type t);
  has_default = false;
}

abbrev container : Container
container = record {
  registrations =
      (1, (constant 100, singleton))
      ∷ (2, (auto_factory [], singleton))
      ∷ (3, (resolving_factory (1 ∷ 2 ∷ []), singleton))
      ∷ (4, (auto_factory (param 1 5 ∷ []), singleton))
      ∷ (5, (auto_factory (param 1 4 ∷ []), singleton))
      ∷ [];
  singletons = (1, 100) ∷ [];
  thread_locals = [];
  resolving = [];
  next_object = 200;
}

abbrev classes : Classes
classes = record { construct = λ t kwargs. none; assemble = λ t args. none }

-- The gateway is made first, then the service.
service : (resolve classes 0 5 3 container).0 ≡ value 201
unfolding resolve resolve_as resolve_singleton call_factory resolve_each resolve_params
service = refl

-- Two classes that need each other are a circular dependency.
cycle : (resolve classes 0 6 4 container).0 ≡ raises runtime_error
unfolding resolve resolve_as resolve_singleton call_factory resolve_each resolve_params dependency
    infer_injectable_type
cycle = refl

resolve_restores_example :
    ((resolve classes 0 6 4 container).1.resolving ≡ [])
    × ((resolve classes 0 6 4 container).1.registrations ≡ (container).registrations)
resolve_restores_example = resolve_restores classes 0 6 4 container

resolve_finishes_example : (resolve classes 0 6 4 container).0 ≢ out_of_fuel
resolve_finishes_example = resolve_finishes classes 0 6 4 container (ground arith)

singleton_identity_example :
    let later = resolve_all classes 0 6 (4 ∷ 2 ∷ []) (resolve classes 0 5 3 container).1 in
    resolve classes 0 2 3 later ≡ (value 201, later)
singleton_identity_example =
    singleton_identity classes 0 4 1 6 3 201 (resolving_factory (1 ∷ 2 ∷ [])) (4 ∷ 2 ∷ []) container
      refl refl service

resolve-register_instance_example :
    let c = record empty_container {
      registrations = (1, (constant 100, singleton)) ∷ [];
      singletons = (1, 100) ∷ [];
    } in
    resolve classes 0 1 1 c ≡ (value 100, c)
unfolding register_instance
resolve-register_instance_example =
    resolve-register_instance classes 0 0 1 100 empty_container
      (record empty_container {
        registrations = (1, (constant 100, singleton)) ∷ [];
        singletons = (1, 100) ∷ [];
      })
      refl refl
