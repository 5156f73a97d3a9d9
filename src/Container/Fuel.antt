-- ===== src/Container/Fuel.antt =====
-- Lemmas on the parts of `resolve`: the set of types being resolved, and running out of fuel.
use mathlib.Core.Path.{subst}
use dro_asms.Prelude.{
  ◌⊎◌, ℕ, ◌≡◌, refl, sym, Option, none, some, List, [], ◌∷◌, arith, Option-cases, inl, inr,
}
use dro_asms.Prelude.Dict.{Dict, lookup, insert}
use dro_asms.Container.Defs.{
  Lifecycle, singleton, factory, thread_local, Exception, Outcome, value, raises, out_of_fuel,
  Param, Factory, auto_factory, constant, resolving_factory, Container, dependency, Resolver,
  resolve_params, resolve_each, Classes, made, call_factory, store_value, put_singleton,
  with_locals, locals_of, put_local, resolve_singleton, resolve_thread_local, resolve_as,
}

-- The types being resolved and the registrations are those given.
pub record Same (rs : List ℕ) (regs : Dict (Factory × Lifecycle)) (c : Container) : Type 0 where
  pub same_resolving : c.resolving ≡ rs
  pub same_registrations : c.registrations ≡ regs

abbrev pub Finished {ℓ} : {A : Type 0} → Type ℓ → Outcome A → Type ℓ
Finished P (value a) = Unit
Finished P (raises e) = Unit
Finished P out_of_fuel = P

pub Outcome-cases :
    {A : Type 0} (o : Outcome A)
    → ((a : A) × (o ≡ value a)) ⊎ (((e : Exception) × (o ≡ raises e)) ⊎ (o ≡ out_of_fuel))
Outcome-cases (value a) = inl (a, refl)
Outcome-cases (raises e) = inr (inl (e, refl))
Outcome-cases out_of_fuel = inr (inr refl)

-- A resolver keeps the two, and runs out of fuel only where `P` holds.
abbrev pub Keeps : Type 0 → List ℕ → Dict (Factory × Lifecycle) → Resolver → Type 0
Keeps P rs regs r =
    (t : ℕ) (c : Container) → Same rs regs c → Finished P (r t c).0 × Same rs regs (r t c).1

module _ (P : Type 0) (rs : List ℕ) (regs : Dict (Factory × Lifecycle)) (r : Resolver)
    (keeps : Keeps P rs regs r) where
  resolve_params-Keeps :
      (ps : List Param) (kwargs : Dict ℕ) (c : Container)
      → Same rs regs c
      → Finished P (resolve_params r ps kwargs c).0 × Same rs regs (resolve_params r ps kwargs c).1
  unfolding resolve_params
  resolve_params-Keeps [] kwargs c s = (tt, s)
  resolve_params-Keeps (p ∷ ps) kwargs c s = elim (Option-cases (dependency p)) [
    | inl e ↦ ground (arith, e, resolve_params-Keeps ps kwargs c s)
    | inr (t, e) ↦
        let c' = (r t c).1 in
        elim (Outcome-cases (r t c).0) [
          | inl (i, o) ↦
              ground (arith, e, o, keeps t c s, resolve_params-Keeps ps (insert p.name i kwargs) c')
          | inr failed ↦ ground (arith, e, failed, keeps t c s, resolve_params-Keeps ps kwargs c')
        ]
  ]

  resolve_each-Keeps :
      (ts : List ℕ) (c : Container)
      → Same rs regs c
      → Finished P (resolve_each r ts c).0 × Same rs regs (resolve_each r ts c).1
  unfolding resolve_each
  resolve_each-Keeps [] c s = (tt, s)
  resolve_each-Keeps (t ∷ ts) c s = ground (arith, keeps t c s, resolve_each-Keeps ts (r t c).1)

module _ (P : Type 0) (classes : Classes) (thread : ℕ) (rs : List ℕ)
    (regs : Dict (Factory × Lifecycle)) where
  abbrev Keeping : Outcome ℕ × Container → Type 0
  Keeping out = Finished P out.0 × Same rs regs out.1

  made-Keeps : (o : Option Exception) (c : Container) → Same rs regs c → Keeping (made o c)
  made-Keeps none c s =
      (tt, record { same_resolving = s.same_resolving; same_registrations = s.same_registrations })
  made-Keeps (some e) c s = (tt, s)

  call_factory-Keeps :
      (r : Resolver) (t : ℕ) (f : Factory) (c : Container)
      → Keeps P rs regs r
      → Same rs regs c
      → Keeping (call_factory classes thread r t f c)
  unfolding call_factory
  call_factory-Keeps r t (constant i) c keeps s = (tt, s)
  call_factory-Keeps r t (auto_factory ps) c keeps s =
      let c' = (resolve_params r ps [] c).1 in
      let constructed : (kwargs : Dict ℕ)
          → Same rs regs c'
          → Keeping (made (classes.construct t kwargs) c') =
        λ kwargs. made-Keeps (classes.construct t kwargs) c' in
      ground (arith, resolve_params-Keeps P rs regs r keeps ps [] c s, constructed)
  call_factory-Keeps r t (resolving_factory ts) c keeps s =
      let c' = (resolve_each r ts c).1 in
      let assembled : (args : List ℕ)
          → Same rs regs c'
          → Keeping (made (classes.assemble t args) c') =
        λ args. made-Keeps (classes.assemble t args) c' in
      ground (arith, resolve_each-Keeps P rs regs r keeps ts c s, assembled)

  store_value-Keeps :
      (put : ℕ → Container → Container) (out : Outcome ℕ × Container)
      → ((i : ℕ) (c : Container) → Same rs regs c → Same rs regs (put i c))
      → Keeping out
      → Keeping (store_value classes thread put out)
  store_value-Keeps put (value i, c) h k = (tt, h i c k.1)
  store_value-Keeps put (raises e, c) h k = k
  store_value-Keeps put (out_of_fuel, c) h k = k

  pub resolve_as-Keeps :
      (life : Lifecycle) (r : Resolver) (t : ℕ) (f : Factory) (c : Container)
      → Keeps P rs regs r
      → Same rs regs c
      → Keeping (resolve_as classes thread life r t f c)
  unfolding resolve_as resolve_singleton resolve_thread_local
  resolve_as-Keeps singleton r t f c keeps s = elim (Option-cases (lookup t c.singletons)) [
    | inr (i, e) ↦ ground (arith, e)
    | inl e ↦
        subst
          (λ (o : Option ℕ). Keeping (elim o as (λ _. Outcome ℕ × Container) [
            | some i ↦ (value i, c)
            | none ↦
                store_value classes thread (put_singleton classes thread t)
                  (call_factory classes thread r t f c)
          ]))
          (sym e)
          (store_value-Keeps (put_singleton classes thread t) (call_factory classes thread r t f c)
            (λ i d k. record {
              same_resolving = k.same_resolving;
              same_registrations = k.same_registrations;
            })
            (call_factory-Keeps r t f c keeps s))
  ]
  resolve_as-Keeps factory r t f c keeps s = call_factory-Keeps r t f c keeps s
  resolve_as-Keeps thread_local r t f c keeps s =
      let c0 = with_locals classes thread c in
      let s0 : Same rs regs c0 = record {
        same_resolving = s.same_resolving;
        same_registrations = s.same_registrations;
      } in
      elim (Option-cases (lookup t (locals_of classes thread c0))) [
        | inr (i, e) ↦ ground (arith, e)
        | inl e ↦
            subst
              (λ (o : Option ℕ). Keeping (elim o as (λ _. Outcome ℕ × Container) [
                | some i ↦ (value i, c0)
                | none ↦
                    store_value classes thread (put_local classes thread t)
                      (call_factory classes thread r t f c0)
              ]))
              (sym e)
              (store_value-Keeps (put_local classes thread t) (call_factory classes thread r t f c0)
                (λ i d k. record {
                  same_resolving = k.same_resolving;
                  same_registrations = k.same_registrations;
                })
                (call_factory-Keeps r t f c0 keeps s0))
      ]
