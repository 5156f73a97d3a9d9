-- ===== src/Container/Singletons.antt =====
-- The singletons of the container.
use mathlib.Core.Path.{subst}
use dro_asms.Prelude.{
  ℕ, zero, suc, ◌≡◌, refl, sym, ap, ◌∙◌, false, Option, none, some, List, [], ◌∷◌, arith, elem,
  Option-cases, Bool-cases, inl, inr,
}
use dro_asms.Prelude.Dict.{Dict, lookup, insert, lookup-insert}
use dro_asms.Container.Defs.{
  Lifecycle, singleton, factory, thread_local, Exception, Outcome, value, raises, out_of_fuel,
  Param, Factory, auto_factory, constant, resolving_factory, Container, Resolver, dependency,
  resolve_params, resolve_each, Classes, made, call_factory, store_value, put_singleton, put_local,
  with_locals, locals_of, resolve_singleton, resolve_thread_local, resolve_as, leave, enter,
  resolve, register_instance,
}
use dro_asms.Container.Fuel.{Outcome-cases}
use dro_asms.Container.Resolve.{leave-enter, resolve_found, resolve_restores}

-- The container has made this instance of the type.
abbrev pub Has : ℕ → ℕ → Container → Type 0
Has t i c = lookup t c.singletons ≡ some i

-- A resolver that loses no singleton.
abbrev Conserves : ℕ → ℕ → Resolver → Type 0
Conserves t i r = (s : ℕ) (c : Container) → Has t i c → Has t i (r s c).1

module _ (t i : ℕ) (r : Resolver) (conserves : Conserves t i r) where
  resolve_params-Has :
      (ps : List Param) (kwargs : Dict ℕ) (c : Container)
      → Has t i c
      → Has t i (resolve_params r ps kwargs c).1
  unfolding resolve_params
  resolve_params-Has [] kwargs c h = h
  resolve_params-Has (p ∷ ps) kwargs c h = elim (Option-cases (dependency p)) [
    | inl e ↦ ground (arith, e, resolve_params-Has ps kwargs c h)
    | inr (s, e) ↦
        let c' = (r s c).1 in
        elim (Outcome-cases (r s c).0) [
          | inl (j, o) ↦
              ground
                (arith, e, o, conserves s c h, resolve_params-Has ps (insert p.name j kwargs) c')
          | inr failed ↦ ground (arith, e, failed, conserves s c h, resolve_params-Has ps kwargs c')
        ]
  ]

  resolve_each-Has : (ts : List ℕ) (c : Container) → Has t i c → Has t i (resolve_each r ts c).1
  unfolding resolve_each
  resolve_each-Has [] c h = h
  resolve_each-Has (s ∷ ts) c h = ground (arith, conserves s c h, resolve_each-Has ts (r s c).1)

module _ (classes : Classes) (thread t i : ℕ) where
  made-Has : (o : Option Exception) (c : Container) → Has t i c → Has t i (made o c).1
  made-Has none c h = h
  made-Has (some e) c h = h

  call_factory-Has :
      (r : Resolver) (s : ℕ) (f : Factory) (c : Container)
      → Conserves t i r
      → Has t i c
      → Has t i (call_factory classes thread r s f c).1
  unfolding call_factory
  call_factory-Has r s (constant j) c k h = h
  call_factory-Has r s (auto_factory ps) c k h =
      let c' = (resolve_params r ps [] c).1 in
      let constructed : (kwargs : Dict ℕ)
          → Has t i c'
          → Has t i (made (classes.construct s kwargs) c').1 =
        λ kwargs. made-Has (classes.construct s kwargs) c' in
      ground (arith, resolve_params-Has t i r k ps [] c h, constructed)
  call_factory-Has r s (resolving_factory ts) c k h =
      let c' = (resolve_each r ts c).1 in
      let assembled : (args : List ℕ) → Has t i c' → Has t i (made (classes.assemble s args) c').1 =
        λ args. made-Has (classes.assemble s args) c' in
      ground (arith, resolve_each-Has t i r k ts c h, assembled)

  store_value-Has :
      (put : ℕ → Container → Container) (out : Outcome ℕ × Container)
      → ((j : ℕ) (c : Container) → Has t i c → Has t i (put j c))
      → Has t i out.1
      → Has t i (store_value classes thread put out).1
  store_value-Has put (value j, c) k h = k j c h
  store_value-Has put (raises e, c) k h = h
  store_value-Has put (out_of_fuel, c) k h = h

  put_singleton-Has :
      (s j : ℕ) (c d : Container)
      → Has t i c
      → lookup s c.singletons ≡ none
      → Has t i d
      → Has t i (put_singleton classes thread s j d)
  put_singleton-Has s j c d h e k = ground (arith, lookup-insert t s j d.singletons)

  resolve_as-Has :
      (life : Lifecycle) (r : Resolver) (s : ℕ) (f : Factory) (c : Container)
      → Conserves t i r
      → Has t i c
      → Has t i (resolve_as classes thread life r s f c).1
  unfolding resolve_as resolve_singleton resolve_thread_local
  resolve_as-Has singleton r s f c k h = elim (Option-cases (lookup s c.singletons)) [
    | inr (j, e) ↦ ground (arith, e)
    | inl e ↦
        subst
          (λ (o : Option ℕ).
            Has t i
              (elim o as (λ _. Outcome ℕ × Container) [
                | some j ↦ (value j, c)
                | none ↦
                    store_value classes thread (put_singleton classes thread s)
                      (call_factory classes thread r s f c)
              ]).1)
          (sym e)
          (store_value-Has (put_singleton classes thread s) (call_factory classes thread r s f c)
            (λ j d. put_singleton-Has s j c d h e) (call_factory-Has r s f c k h))
  ]
  resolve_as-Has factory r s f c k h = call_factory-Has r s f c k h
  resolve_as-Has thread_local r s f c k h =
      let c0 = with_locals classes thread c in
      elim (Option-cases (lookup s (locals_of classes thread c0))) [
        | inr (j, e) ↦ ground (arith, e)
        | inl e ↦
            subst
              (λ (o : Option ℕ).
                Has t i
                  (elim o as (λ _. Outcome ℕ × Container) [
                    | some j ↦ (value j, c0)
                    | none ↦
                        store_value classes thread (put_local classes thread s)
                          (call_factory classes thread r s f c0)
                  ]).1)
              (sym e)
              (store_value-Has (put_local classes thread s) (call_factory classes thread r s f c0)
                (λ j d g. g) (call_factory-Has r s f c0 k h))
      ]

  resolve-Has : (fuel : ℕ) → Conserves t i (resolve classes thread fuel)
  unfolding resolve
  resolve-Has zero s c h = h
  resolve-Has (suc n) s c h = elim (Option-cases (lookup s c.registrations)) [
    | inl e ↦ ground (arith, e)
    | inr (v, e) ↦ elim (Bool-cases (elem s c.resolving)) [
      | inl b ↦ ground (arith, e, b)
      | inr b ↦
          subst (λ out. Has t i out.1) (sym (resolve_found classes thread n s c v e b))
            (resolve_as-Has v.1 (resolve classes thread n) s v.0 (enter classes thread s c)
              (resolve-Has n) h)
    ]
  ]

module _ (classes : Classes) (thread : ℕ) where
  -- The container after a sequence of calls of `resolve`.
  unfoldable pub resolve_all : ℕ → List ℕ → Container → Container
  resolve_all fuel [] c = c
  resolve_all fuel (s ∷ ss) c = resolve_all fuel ss (resolve classes thread fuel s c).1

  resolve_all-Has :
      (t i fuel : ℕ) (ss : List ℕ) (c : Container) → Has t i c → Has t i (resolve_all fuel ss c)
  unfolding resolve_all
  resolve_all-Has t i fuel [] c h = h
  resolve_all-Has t i fuel (s ∷ ss) c h =
      resolve_all-Has t i fuel ss (resolve classes thread fuel s c).1
        (resolve-Has classes thread t i fuel s c h)

  resolve_all_restores :
      (fuel : ℕ) (ss : List ℕ) (c : Container)
      → ((resolve_all fuel ss c).resolving ≡ c.resolving)
        × ((resolve_all fuel ss c).registrations ≡ c.registrations)
  unfolding resolve_all
  resolve_all_restores fuel [] c = (refl, refl)
  resolve_all_restores fuel (s ∷ ss) c =
      let (a, b) = resolve_restores classes thread fuel s c in
      let (a', b') = resolve_all_restores fuel ss (resolve classes thread fuel s c).1 in
      (a' ∙ a, b' ∙ b)

  -- A singleton that is there is returned, and the container stays as it is.
  resolve_made :
      (n t i : ℕ) (f : Factory) (c : Container)
      → lookup t c.registrations ≡ some (f, singleton)
      → elem t c.resolving ≡ false
      → Has t i c
      → resolve classes thread (suc n) t c ≡ (value i, c)
  unfolding resolve_as resolve_singleton
  resolve_made n t i f c found fresh h =
      let at_once : resolve_singleton classes thread (resolve classes thread n) t f
            (enter classes thread t c)
          ≡ (value i, enter classes thread t c) =
        rw (h, resolve_singleton) in
      resolve_found classes thread n t c (f, singleton) found fresh
      ∙ ap (leave classes thread t) at_once
      ∙ ap (λ rs. (value i, record c { resolving = rs })) (leave-enter t c.resolving fresh)

  stored-Has :
      (t i : ℕ) (out : Outcome ℕ × Container)
      → (store_value classes thread (put_singleton classes thread t) out).0 ≡ value i
      → Has t i (store_value classes thread (put_singleton classes thread t) out).1
  stored-Has t i (value j, c) h = ground (arith, lookup-insert t t j c.singletons)
  stored-Has t i (raises e, c) h = ground arith
  stored-Has t i (out_of_fuel, c) h = ground arith

  singleton-Has :
      (t i : ℕ) (r : Resolver) (f : Factory) (c : Container)
      → (resolve_singleton classes thread r t f c).0 ≡ value i
      → Has t i (resolve_singleton classes thread r t f c).1
  unfolding resolve_singleton
  singleton-Has t i r f c h = elim (Option-cases (lookup t c.singletons)) [
    | inr (j, e) ↦ ground (arith, e)
    | inl e ↦ ground (arith, e, stored-Has t i (call_factory classes thread r t f c))
  ]

  value-Has :
      (n t i : ℕ) (f : Factory) (c : Container)
      → lookup t c.registrations ≡ some (f, singleton)
      → elem t c.resolving ≡ false
      → (resolve classes thread (suc n) t c).0 ≡ value i
      → Has t i (resolve classes thread (suc n) t c).1
  unfolding resolve_as
  value-Has n t i f c found fresh h =
      let same = resolve_found classes thread n t c (f, singleton) found fresh in
      subst (λ out. Has t i out.1) (sym same)
        (singleton-Has t i (resolve classes thread n) f (enter classes thread t c)
          (sym (ap (λ out. out.0) same) ∙ h))

  -- Once a type that is registered as a singleton, and is not being resolved, has been resolved,
  -- every later call with any fuel returns the same instance and changes nothing, whatever types
  -- are resolved in between.
  pub singleton_identity :
      (n m k t i : ℕ) (f : Factory) (ss : List ℕ) (c : Container)
      → lookup t c.registrations ≡ some (f, singleton)
      → elem t c.resolving ≡ false
      → (resolve classes thread (suc n) t c).0 ≡ value i
      → let later = resolve_all k ss (resolve classes thread (suc n) t c).1 in
        resolve classes thread (suc m) t later ≡ (value i, later)
  singleton_identity n m k t i f ss c found fresh h =
      let c1 = (resolve classes thread (suc n) t c).1 in
      let (resolving1, registrations1) = resolve_restores classes thread (suc n) t c in
      let (resolving2, registrations2) = resolve_all_restores k ss c1 in
      resolve_made m t i f (resolve_all k ss c1)
        (ap (lookup t) (registrations2 ∙ registrations1) ∙ found)
        (ap (elem t) (resolving2 ∙ resolving1) ∙ fresh)
        (resolve_all-Has t i k ss c1 (value-Has n t i f c found fresh h))

  -- An instance that is registered while its type is not being resolved is what the type resolves
  -- to, and resolving it changes nothing.
  pub resolve-register_instance :
      (n t i : ℕ) (c c' : Container)
      → register_instance t i c ≡ value c'
      → elem t c.resolving ≡ false
      → resolve classes thread (suc n) t c' ≡ (value i, c')
  unfolding register_instance
  resolve-register_instance n t i c c' h fresh = elim (Option-cases (lookup t c.registrations)) [
    | inr (v, e) ↦ ground (arith, e)
    | inl e ↦
        resolve_made n t i (constant i) c'
          (ground (arith, e, lookup-insert t t (constant i, singleton) c.registrations))
          (ground (arith, e)) (ground (arith, e, lookup-insert t t i c.singletons))
  ]
