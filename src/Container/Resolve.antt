-- ===== src/Container/Resolve.antt =====
-- `DependencyContainer.resolve`: what it leaves as it was, and how deep it nests.
use mathlib.Core.Path.{subst}
use dro_asms.Prelude.{
  ℕ, zero, suc, ◌≤◌, ◌<◌, ◌≡◌, ◌≢◌, refl, sym, ap, ◌∙◌, false, not, some, List, [], ◌∷◌, arith,
  keep, elem, ◌==◌, if◌then◌else◌, Option-cases, Bool-cases, inl, inr,
}
use dro_asms.Prelude.Dict.{Dict, lookup}
use dro_asms.Container.Defs.{
  Lifecycle, Outcome, value, raises, out_of_fuel, Factory, Container, Classes, resolve_as, leave,
  enter, resolve,
}
use dro_asms.Container.Fuel.{Same, Finished, Keeps, resolve_as-Keeps}

-- The registered types that are not being resolved.
abbrev pub pending {ℓ} : {V : Type ℓ} → Dict V → List ℕ → ℕ
pending [] rs = 0
pending ((t, v) ∷ regs) rs = let n = pending regs rs in if elem t rs then n else suc n

pending_mono {ℓ} :
    {V : Type ℓ} (regs : Dict V) (t : ℕ) (rs : List ℕ) → pending regs (t ∷ rs) ≤ pending regs rs
pending_mono [] t rs = omega arith
pending_mono ((s, v) ∷ regs) t rs = ground (arith, pending_mono regs t rs)

pending_enter {ℓ} :
    {V : Type ℓ} (regs : Dict V) (t : ℕ) (v : V) (rs : List ℕ)
    → lookup t regs ≡ some v
    → elem t rs ≡ false
    → pending regs (t ∷ rs) < pending regs rs
pending_enter [] t v rs h e = ground arith
pending_enter ((s, w) ∷ regs) t v rs h e =
    ground (arith, pending_mono regs t rs, pending_enter regs t v rs)

pub leave-enter : (t : ℕ) (rs : List ℕ) → elem t rs ≡ false → keep (λ s. not (s == t)) (t ∷ rs) ≡ rs
leave-enter t [] h = ground arith
leave-enter t (s ∷ rs) h = ground (arith, leave-enter t rs)

Finished-map : {A P Q : Type 0} (o : Outcome A) → (P → Q) → Finished P o → Finished Q o
Finished-map (value a) f h = tt
Finished-map (raises e) f h = tt
Finished-map out_of_fuel f h = f h

module _ (classes : Classes) (thread : ℕ) where
  leave-Keeps :
      (P : Type 0) (t : ℕ) (rs : List ℕ) (regs : Dict (Factory × Lifecycle))
      (out : Outcome ℕ × Container)
      → elem t rs ≡ false
      → Finished P out.0 × Same (t ∷ rs) regs out.1
      → Finished P (leave classes thread t out).0 × Same rs regs (leave classes thread t out).1
  leave-Keeps P t rs regs (o, c) fresh (done, s) = (
    done,
    record {
      same_resolving = ap (keep (λ r. not (r == t))) s.same_resolving ∙ leave-enter t rs fresh;
      same_registrations = s.same_registrations;
    },
  )

  pub resolve_found :
      (n t : ℕ) (c : Container) (v : Factory × Lifecycle)
      → lookup t c.registrations ≡ some v
      → elem t c.resolving ≡ false
      → resolve classes thread (suc n) t c
        ≡ leave classes thread t (
            resolve_as classes thread v.1
              (resolve classes thread n)
              t
              v.0
              (enter classes thread t c))
  unfolding resolve
  resolve_found n t c v found fresh = rw (found, resolve, fresh)

  -- Out of fuel only where there is no more fuel than pending types.
  pub resolve-Keeps :
      (fuel : ℕ) (rs : List ℕ) (regs : Dict (Factory × Lifecycle))
      → Keeps (fuel ≤ pending regs rs) rs regs (resolve classes thread fuel)
  unfolding resolve
  resolve-Keeps zero rs regs t c s = (omega arith, s)
  resolve-Keeps (suc n) rs regs t c s = elim (Option-cases (lookup t c.registrations)) [
    | inl e ↦ ground (arith, e)
    | inr (v, e) ↦ elim (Bool-cases (elem t c.resolving)) [
      | inl b ↦ ground (arith, e, b)
      | inr b ↦
          let found = ap (lookup t) (sym s.same_registrations) ∙ e in
          let fresh = ap (elem t) (sym s.same_resolving) ∙ b in
          let (done, same) =
            resolve_as-Keeps (n ≤ pending regs (t ∷ rs)) classes thread (t ∷ rs) regs v.1
              (resolve classes thread n) t v.0 (enter classes thread t c)
              (resolve-Keeps n (t ∷ rs) regs)
              (record {
                same_resolving = ap (λ r. t ∷ r) s.same_resolving;
                same_registrations = s.same_registrations;
              }) in
          subst (λ out. Finished (suc n ≤ pending regs rs) out.0 × Same rs regs out.1)
            (sym (resolve_found n t c v e b))
            (leave-Keeps (suc n ≤ pending regs rs) t rs regs
              (resolve_as classes thread v.1 (resolve classes thread n) t v.0
                (enter classes thread t c))
              fresh
              (
                Finished-map {P = n ≤ pending regs (t ∷ rs)} {Q = suc n ≤ pending regs rs}
                    (resolve_as classes thread v.1 (resolve classes thread n) t v.0
                      (enter classes thread t c)).0
                    (λ le. omega (arith, le, pending_enter regs t v rs found fresh)) done,
                same,
              ))
    ]
  ]

  -- Whatever comes of resolving a type, be it an instance, an exception of any depth or a cycle,
  -- the set of types being resolved and the registrations are afterwards what they were before.
  pub resolve_restores :
      (fuel t : ℕ) (c : Container)
      → ((resolve classes thread fuel t c).1.resolving ≡ c.resolving)
        × ((resolve classes thread fuel t c).1.registrations ≡ c.registrations)
  resolve_restores fuel t c =
      let (_, s) =
        resolve-Keeps fuel c.resolving c.registrations t c
          (record { same_resolving = refl; same_registrations = refl }) in
      (s.same_resolving, s.same_registrations)

  -- Resolving a type comes to an instance or an exception, and never runs out of fuel, where there
  -- is more fuel than registered types that are not being resolved, whatever cycles the
  -- dependencies have.
  pub resolve_finishes :
      (fuel t : ℕ) (c : Container)
      → pending c.registrations c.resolving < fuel
      → (resolve classes thread fuel t c).0 ≢ out_of_fuel
  resolve_finishes fuel t c enough stuck =
      let (done, _) =
        resolve-Keeps fuel c.resolving c.registrations t c
          (record { same_resolving = refl; same_registrations = refl }) in
      let too_little = subst (Finished (fuel ≤ pending c.registrations c.resolving)) stuck done in
      omega (arith, too_little)
