-- ===== src/Pool/Checks.antt =====
-- The store of check results, against the results that came in.
use Prim.Native.String.{String}
use dro_asms.Prelude.{
  ℕ, ◌≡◌, refl, ap, ◌∙◌, ◌++◌, ◌&&◌, Bool, true, false, Option, none, some, List, [], ◌∷◌, arith,
  ◌==◌, if◌then◌else◌,
}
use dro_asms.Prelude.Int.{ℤ, pos, eqb_ℤ}
use dro_asms.Prelude.Dict.{lookup-insert}
use dro_asms.Prelude.Texts.{eqb_text, text_lookup, text_insert, text_lookup-text_insert}
use dro_asms.Pool.Defs.{
  Store, record_check, all_passed, has_check, passed_check, every_required, state_of,
}

-- A result that comes in: the transfer, the check and the number.
abbrev pub Message : Type 0
Message = ℕ × String × ℤ

-- The store after these results.
abbrev pub recorded : List Message → Store → Store
recorded [] s = s
recorded ((t, name, r) ∷ ms) s = recorded ms (record_check t name r s).1

-- The last result of a check of a transfer, or `before` where none is among these.
abbrev pub latest : ℕ → String → List Message → Option ℤ → Option ℤ
latest t name [] before = before
latest t name ((u, k, r) ∷ ms) before =
    latest t name ms (if (t == u) && eqb_text name k then some r else before)

lookup-record_check :
    (t u : ℕ) (name k : String) (r : ℤ) (s : Store)
    → text_lookup name (state_of t (record_check u k r s).1)
      ≡ (if (t == u) && eqb_text name k then some r else text_lookup name (state_of t s))
unfolding record_check
lookup-record_check t u name k r s = ground (
  arith,
  lookup-insert t u (text_insert k r (state_of u s)) s,
  text_lookup-text_insert name k r (state_of u s),
)

lookup-recorded :
    (t : ℕ) (name : String) (ms : List Message) (s : Store)
    → text_lookup name (state_of t (recorded ms s))
      ≡ latest t name ms (text_lookup name (state_of t s))
lookup-recorded t name [] s = refl
lookup-recorded t name ((u, k, r) ∷ ms) s =
    lookup-recorded t name ms (record_check u k r s).1
    ∙ ap (latest t name ms) (lookup-record_check t u name k r s)

-- Whether the last of these results is there, or is 1.
abbrev pub came : ℕ → String → List Message → Bool
came t name ms = elim (latest t name ms none) [ none ↦ false | some r ↦ true ]

abbrev pub succeeded : ℕ → String → List Message → Bool
succeeded t name ms = elim (latest t name ms none) [ none ↦ false | some r ↦ eqb_ℤ r (pos 1) ]

has_check-recorded :
    (t : ℕ) (name : String) (ms : List Message)
    → has_check name (state_of t (recorded ms [])) ≡ came t name ms
has_check-recorded t name ms =
    ap (λ o. elim o [ none ↦ false | some r ↦ true ]) (lookup-recorded t name ms [])

passed_check-recorded :
    (t : ℕ) (name : String) (ms : List Message)
    → passed_check name (state_of t (recorded ms [])) ≡ succeeded t name ms
passed_check-recorded t name ms =
    ap (λ o. elim o [ none ↦ false | some r ↦ eqb_ℤ r (pos 1) ]) (lookup-recorded t name ms [])

recorded-snoc :
    (ms : List Message) (t : ℕ) (name : String) (r : ℤ) (s : Store)
    → (record_check t name r (recorded ms s)).1 ≡ recorded (ms ++ ((t, name, r) ∷ [])) s
recorded-snoc [] t name r s = refl
recorded-snoc ((u, k, q) ∷ ms) t name r s = recorded-snoc ms t name r (record_check u k q s).1

received_in :
    (t : ℕ) (name : String) (r : ℤ) (s : Store)
    → (record_check t name r s).0
      ≡ every_required λ n. has_check n (state_of t (record_check t name r s).1)
unfolding record_check
received_in t name r s = ground (arith, lookup-insert t t (text_insert name r (state_of t s)) s)

-- After any sequence of results of any transfers, from an empty store: the last call of `record`
-- returns true exactly where its transfer has results of all of balance, cooldown and daily_limit;
-- and a transfer counts as passed exactly where the latest result of each of these three checks is
-- 1, whatever earlier results, other checks and other transfers there are.
pub store_lem :
    (ms : List Message) (t u : ℕ) (name : String) (r : ℤ)
    → let all = ms ++ ((t, name, r) ∷ []) in
      ((record_check t name r (recorded ms [])).0
        ≡ (came t "balance" all && (came t "cooldown" all && came t "daily_limit" all)))
      × (all_passed u (record_check t name r (recorded ms [])).1 ≡ (
          succeeded u "balance" all
          && (succeeded u "cooldown" all && succeeded u "daily_limit" all)))
unfolding all_passed
store_lem ms t u name r =
    let all = ms ++ ((t, name, r) ∷ []) in
    let same = recorded-snoc ms t name r [] in
    (
      received_in t name r (recorded ms [])
          ∙ ap (λ s. every_required λ n. has_check n (state_of t s)) same
          ∙ ground (
            arith,
            has_check-recorded t "balance" all,
            has_check-recorded t "cooldown" all,
            has_check-recorded t "daily_limit" all,
          ),
      ap (λ s. every_required λ n. passed_check n (state_of u s)) same
          ∙ ground (
            arith,
            passed_check-recorded u "balance" all,
            passed_check-recorded u "cooldown" all,
            passed_check-recorded u "daily_limit" all,
          ),
    )
