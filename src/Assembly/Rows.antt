-- ===== src/Assembly/Rows.antt =====
-- The table of proposals after an update, and the proposals that a query finds in it.
use dro_asms.Prelude.{
  ℕ, ◌≡◌, refl, sym, ◌∙◌, ◌≤◌, Bool, true, false, some, List, [], ◌∷◌, ◌++◌, map, keep, length,
  arith, All, ◌==◌, if_cases, length-append,
}
use mathlib.Core.Path.{subst}
use dro_asms.Prelude.Exclusive.{any, Exclusive}
use dro_asms.Council.Gateway.{from_keys}
use dro_asms.Assembly.Defs.{Proposal, Row, pid, find, update, proposal_in}

abbrev pub same_pid : Row → Row → Bool
same_pid r s = pid r == pid s

abbrev pub same_id : Proposal → Proposal → Bool
same_id p q = p.proposal_id == q.proposal_id

pub find-update_same :
    (k : ℕ) (f : Row → Row) (rows : List Row) (r : Row)
    → ((s : Row) → pid (f s) ≡ pid s)
    → find k rows ≡ some r
    → find k (update k f rows) ≡ some (f r)
unfolding find update
find-update_same k f [] r same e = ground arith
find-update_same k f (s ∷ rows) r same e = ground (arith, same s, find-update_same k f rows r same)

pub find-update_other :
    (j k : ℕ) (f : Row → Row) (rows : List Row)
    → ((s : Row) → pid (f s) ≡ pid s)
    → (j == k) ≡ false
    → find j (update k f rows) ≡ find j rows
unfolding find update
find-update_other j k f [] same e = refl
find-update_other j k f (s ∷ rows) same e =
    ground (arith, same s, find-update_other j k f rows same e)

pub All-update :
    (P : Row → Type 0) (k : ℕ) (f : Row → Row) (rows : List Row) (r : Row)
    → find k rows ≡ some r
    → (P r → P (f r))
    → All P rows
    → All P (update k f rows)
unfolding find update
All-update P k f [] r e h a = tt
All-update P k f (s ∷ rows) r e h a =
    if_cases (All P) (pid s == k)
      (λ here.
        let one : s ≡ r = ground (arith, here, e) in
        (subst (λ x. P x → P (f x)) (sym one) h a.0, a.1))
      (λ away. (a.0, All-update P k f rows r (ground (arith, away, e)) h a.1))

any-update :
    (k : ℕ) (f : Row → Row) (s : Row) (rows : List Row)
    → ((r : Row) → pid (f r) ≡ pid r)
    → any (same_pid s) (update k f rows) ≡ any (same_pid s) rows
unfolding update
any-update k f s [] same = refl
any-update k f s (r ∷ rows) same = ground (arith, same r, any-update k f s rows same)

pub Exclusive-update :
    (k : ℕ) (f : Row → Row) (rows : List Row)
    → ((r : Row) → pid (f r) ≡ pid r)
    → Exclusive same_pid rows
    → Exclusive same_pid (update k f rows)
unfolding update
Exclusive-update k f [] same e = tt
Exclusive-update k f (s ∷ rows) same e =
    if_cases (Exclusive same_pid) (pid s == k) (λ here. (ground (arith, e.0, same s), e.1))
      (λ away. (any-update k f s rows same ∙ e.0, Exclusive-update k f rows same e.1))

-- The proposals that a query finds.
abbrev pub proposals_where : (Row → Bool) → List Row → List Proposal
proposals_where q rows = map (λ r. r.proposal) (keep q rows)

any-proposals_where :
    (q : Row → Bool) (p : Proposal) (rows : List Row)
    → any (λ r. p.proposal_id == pid r) rows ≡ false
    → any (same_id p) (proposals_where q rows) ≡ false
any-proposals_where q p [] e = refl
any-proposals_where q p (r ∷ rows) e = ground (arith, any-proposals_where q p rows)

pub proposals_where-Exclusive :
    (q : Row → Bool) (rows : List Row)
    → Exclusive same_pid rows
    → Exclusive same_id (proposals_where q rows)
proposals_where-Exclusive q [] e = tt
proposals_where-Exclusive q (r ∷ rows) e =
    ground (arith, any-proposals_where q r.proposal rows e.0, proposals_where-Exclusive q rows e.1)

abbrev pub IsFetched : List Row → Proposal → Type 0
IsFetched rows p = proposal_in (find p.proposal_id rows) ≡ some p

-- A row put in front, with another number, hides none.
All-IsFetched-cons :
    (r : Row) (rows : List Row) (ps : List Proposal)
    → any (same_id r.proposal) ps ≡ false
    → All (IsFetched rows) ps
    → All (IsFetched (r ∷ rows)) ps
unfolding find
All-IsFetched-cons r rows [] e a = tt
All-IsFetched-cons r rows (p ∷ ps) e a =
    (ground (arith, e, a.0), All-IsFetched-cons r rows ps (ground (arith, e)) a.1)

pub All-IsFetched :
    (q : Row → Bool) (rows : List Row)
    → Exclusive same_pid rows
    → All (IsFetched rows) (proposals_where q rows)
unfolding find
All-IsFetched q [] e = tt
All-IsFetched q (r ∷ rows) e =
    let apart = any-proposals_where q r.proposal rows e.0 in
    let rest =
      All-IsFetched-cons r rows (proposals_where q rows) apart (All-IsFetched q rows e.1) in
    if_cases (λ l. All (IsFetched (r ∷ rows)) (map {A = Row} (λ x. x.proposal) l)) (q r)
      (λ yes. (ground (arith), rest)) (λ no. rest)

pub update-update :
    (k : ℕ) (f g : Row → Row) (rows : List Row)
    → ((s : Row) → pid (f s) ≡ pid s)
    → update k g (update k f rows) ≡ update k (λ s. g (f s)) rows
unfolding update
update-update k f g [] same = refl
update-update k f g (s ∷ rows) same = ground (arith, same s, update-update k f g rows same)

pub find_id : (k : ℕ) (rows : List Row) (r : Row) → find k rows ≡ some r → (pid r == k) ≡ true
unfolding find
find_id k [] r e = ground arith
find_id k (s ∷ rows) r e = ground (arith, find_id k rows r)

pub All-update_each :
    (P : Row → Type 0) (k : ℕ) (f : Row → Row) (rows : List Row)
    → ((s : Row) → P s → P (f s))
    → All P rows
    → All P (update k f rows)
unfolding update
All-update_each P k f [] h a = tt
All-update_each P k f (s ∷ rows) h a =
    if_cases (All P) (pid s == k) (λ here. (h s a.0, a.1))
      (λ away. (a.0, All-update_each P k f rows h a.1))

pub All-append :
    (P : Row → Type 0) (rows : List Row) (r : Row) → All P rows → P r → All P (rows ++ (r ∷ []))
All-append P [] r a p = (p, tt)
All-append P (s ∷ rows) r a p = (a.0, All-append P rows r a.1 p)

pub All-weaken :
    (P Q : Row → Type 0) (rows : List Row) → ((s : Row) → P s → Q s) → All P rows → All Q rows
All-weaken P Q [] h a = tt
All-weaken P Q (s ∷ rows) h a = (h s a.0, All-weaken P Q rows h a.1)

pub length-from_keys : (seen xs : List ℕ) → length seen ≤ length (from_keys seen xs)
unfolding from_keys
length-from_keys seen [] = ground arith
length-from_keys seen (x ∷ xs) = ground (
  arith,
  length-append seen (x ∷ []),
  length-from_keys seen xs,
  length-from_keys (seen ++ (x ∷ [])) xs,
)
