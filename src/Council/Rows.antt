-- ===== src/Council/Rows.antt =====
-- The table of proposals: lemmas on `find` and `count_active` after an update or an insertion.
use mathlib.Core.Option
use mathlib.Core.Path.{subst}
use dro_asms.Prelude.{
  ℕ, ◌+◌, ◌≤◌, ◌<◌, ◌≡◌, refl, inl, inr, true, ◌&&◌, Option, none, some, List, [], ◌∷◌, ◌++◌, arith,
  All, ◌==◌, ==_iff, Bool-cases, if◌then◌else◌,
}
use dro_asms.Council.Defs.{Row, is_in_progress}
use dro_asms.Council.Gateway.{pid, find, update, count_active}

-- A change of a row that keeps its key and its guild, and does not make it active again.
pub record KeepsKey (f : Row → Row) : Type 0 where
  pub same_id : (r : Row) → (f r).proposal.proposal_id ≡ r.proposal.proposal_id
  pub same_guild : (r : Row) → (f r).proposal.guild_id ≡ r.proposal.guild_id
  pub not_revived :
      (r : Row)
      → is_in_progress (f r).proposal.status ≡ true
      → is_in_progress r.proposal.status ≡ true

abbrev pub map_row : (Row → Row) → Option Row → Option Row
map_row f none = none
map_row f (some r) = some (f r)

module _ (k : ℕ) (f : Row → Row) (keeps : KeepsKey f) where
  pub find-update :
      (j : ℕ) (rs : List Row)
      → find j (update k f rs) ≡ (if j == k then map_row f (find j rs) else find j rs)
  unfolding find update
  find-update j [] = ground arith
  find-update j (r ∷ rs) = ground (arith, keeps.same_id r, find-update j rs)

  pub count_active-update :
      (g : ℕ) (rs : List Row) → count_active g (update k f rs) ≤ count_active g rs
  unfolding count_active update
  count_active-update g [] = omega arith
  count_active-update g (r ∷ rs) =
      ground (arith, keeps.same_guild r, keeps.not_revived r, count_active-update g rs)

pub find-pid : (k : ℕ) (rs : List Row) {r : Row} → find k rs ≡ some r → pid r ≡ k
unfolding find
find-pid k [] h = cc
find-pid k (r ∷ rs) {r = s} h = ground (arith, find-pid k rs {r = s})

-- What holds of every row holds of the row that is found.
pub All-find :
    (P : Row → Type 0) (k : ℕ) (rs : List Row) {r : Row} → All P rs → find k rs ≡ some r → P r
unfolding find
All-find P k [] a h = cc
All-find P k (r ∷ rs) {r = s} a h = elim (Bool-cases (k == pid r)) [
  | inl e ↦ subst P (Option.some-injective r s (rw e at h)) a.0
  | inr e ↦ All-find P k rs a.1 (rw e at h)
]

-- No key is used twice.
abbrev pub UniqueIds : List Row → Type 0
UniqueIds [] = Unit
UniqueIds (r ∷ rs) = (find (pid r) rs ≡ none) × UniqueIds rs

pub UniqueIds-update :
    (k : ℕ) (f : Row → Row) (rs : List Row) → KeepsKey f → UniqueIds rs → UniqueIds (update k f rs)
unfolding update
UniqueIds-update k f [] keeps u = tt
UniqueIds-update k f (r ∷ rs) keeps u =
    ground
      (arith, keeps.same_id r, find-update k f keeps (pid r) rs, UniqueIds-update k f rs keeps u.1)

update_absent : (k : ℕ) (f : Row → Row) (rs : List Row) → find k rs ≡ none → update k f rs ≡ rs
unfolding find update
update_absent k f [] h = refl
update_absent k f (r ∷ rs) h = ground (arith, update_absent k f rs)

-- An update keeps what holds of every row, if it keeps it at the row with the key.
pub All-update :
    (P : Row → Type 0) (k : ℕ) (f : Row → Row) (rs : List Row)
    → UniqueIds rs
    → ((r : Row) → find k rs ≡ some r → P r → P (f r))
    → All P rs
    → All P (update k f rs)
unfolding find update
All-update P k f [] u h a = tt
All-update P k f (r ∷ rs) u h a = elim (Bool-cases (k == pid r)) [
  | inl e ↦
      let absent : find k rs ≡ none = rw ((==_iff k (pid r)).0 e) u.0 in
      rw e (h r (rw e) a.0, rw (update_absent k f rs absent) a.1)
  | inr e ↦ rw e (a.0, All-update P k f rs u.1 (λ s es. h s (rw e es)) a.1)
]

-- Below the next key.
abbrev pub Below : ℕ → List Row → Type 0
Below n rs = All (λ r. pid r < n) rs

pub Below-find : (n : ℕ) (rs : List Row) → Below n rs → find n rs ≡ none
unfolding find
Below-find n [] b = refl
Below-find n (r ∷ rs) b = ground (arith, Below-find n rs b.1)

pub find-append :
    (k : ℕ) (rs : List Row) (r : Row)
    → find k (rs ++ (r ∷ []))
      ≡ elim (find k rs) [ none ↦ (if k == pid r then some r else none) | some s ↦ some s ]
unfolding find
find-append k [] r = ground arith
find-append k (s ∷ rs) r = ground (arith, find-append k rs r)

pub All-append :
    (P : Row → Type 0) (rs : List Row) (r : Row) → All P rs → P r → All P (rs ++ (r ∷ []))
All-append P [] r a p = (p, tt)
All-append P (s ∷ rs) r a p = (a.0, All-append P rs r a.1 p)

pub UniqueIds-append :
    (rs : List Row) (r : Row) → find (pid r) rs ≡ none → UniqueIds rs → UniqueIds (rs ++ (r ∷ []))
unfolding find
UniqueIds-append [] r f u = (refl, tt)
UniqueIds-append (s ∷ rs) r f u =
    ground (arith, find-append (pid s) rs r, UniqueIds-append rs r, u.1)

pub count_active-append :
    (g : ℕ) (rs : List Row) (r : Row)
    → count_active g (rs ++ (r ∷ []))
      ≡ count_active g rs
        + (if g == r.proposal.guild_id && is_in_progress r.proposal.status then 1 else 0)
unfolding count_active
count_active-append g [] r = omega arith
count_active-append g (s ∷ rs) r = omega (arith, count_active-append g rs r)
