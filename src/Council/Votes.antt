-- ===== src/Council/Votes.antt =====
-- Counting votes: lemmas on the parts of a tally and on tallies that grow.
use dro_asms.Prelude.{
  ℕ, suc, ◌+◌, ◌≤◌, ◌≡◌, refl, ap, ◌≢◌, inl, inr, Bool, true, false, not, some, List, [], ◌∷◌,
  arith, length, elem, keep, ◌==◌, ==_iff, Bool-cases, if◌then◌else◌,
}
use dro_asms.Prelude.Dict.{Dict, lookup, contains, insert, erase, lookup-insert, lookup-erase}
use dro_asms.Council.Defs.{Choice, approve, reject, abstain, other_text}
use dro_asms.Council.Gateway.{is_approve, is_reject, is_abstain, count_votes, unvoted}
use dro_asms.Council.Service.{valid_choice}

-- No voter is listed twice.
abbrev pub Distinct {ℓ} : {V : Type ℓ} → Dict V → Type 0
Distinct [] = Unit
Distinct ((k, c) ∷ d) = (contains k d ≡ false) × Distinct d

-- No value is listed twice.
abbrev pub NoRepeat : List ℕ → Type 0
NoRepeat [] = Unit
NoRepeat (x ∷ xs) = (elem x xs ≡ false) × NoRepeat xs

-- Every voter is in the snapshot, and voted with one of the three choices.
abbrev pub VotersIn : List ℕ → Dict Choice → Type 0
VotersIn snapshot [] = Unit
VotersIn snapshot ((k, c) ∷ d) =
    (elem k snapshot ≡ true) × (valid_choice c ≡ true) × VotersIn snapshot d

pub count_votes-split :
    (snapshot : List ℕ) (d : Dict Choice)
    → VotersIn snapshot d
    → count_votes is_approve d + count_votes is_reject d + count_votes is_abstain d ≡ length d
unfolding count_votes
count_votes-split s [] h = refl
count_votes-split s ((k, approve) ∷ d) h = omega (arith, count_votes-split s d h.2)
count_votes-split s ((k, reject) ∷ d) h = omega (arith, count_votes-split s d h.2)
count_votes-split s ((k, abstain) ∷ d) h = omega (arith, count_votes-split s d h.2)
count_votes-split s ((k, other_text t) ∷ d) h = cc (h.1)

-- Two tests that differ at one value alone keep as many entries of a list without that value.
length-keep_same :
    (k : ℕ) (p q : ℕ → Bool) (xs : List ℕ)
    → ((m : ℕ) → m ≢ k → q m ≡ p m)
    → elem k xs ≡ false
    → length (keep q xs) ≡ length (keep p xs)
length-keep_same k p q [] f h = refl
length-keep_same k p q (x ∷ xs) f h = ground (arith, f x, length-keep_same k p q xs f)

-- Where the value is listed once, the test that refuses it keeps one entry less.
length-keep_less :
    (k : ℕ) (p q : ℕ → Bool) (xs : List ℕ)
    → ((m : ℕ) → m ≢ k → q m ≡ p m)
    → p k ≡ true
    → q k ≡ false
    → NoRepeat xs
    → elem k xs ≡ true
    → suc (length (keep q xs)) ≡ length (keep p xs)
length-keep_less k p q [] f hp hq n h = cc
length-keep_less k p q (x ∷ xs) f hp hq n h = elim (Bool-cases (k == x)) [
  | inl e ↦
      rw (← (==_iff k x).0 e)
        (rw (hp, hq) (ap suc (length-keep_same k p q xs f (rw (← (==_iff k x).0 e) at n.0))))
  | inr ne ↦ ground (arith, f x, length-keep_less k p q xs f hp hq n.1)
]

unvoted_nil : (s : List ℕ) → length (unvoted s []) ≡ length s
unvoted_nil [] = refl
unvoted_nil (x ∷ xs) = ap suc (unvoted_nil xs)

contains_tail :
    (k m : ℕ) (c : Choice) (d : Dict Choice)
    → m ≢ k
    → not (contains m ((k, c) ∷ d)) ≡ not (contains m d)
contains_tail k m c d h = ground arith

-- Those who have not voted and the votes make up the snapshot.
pub length-unvoted :
    (snapshot : List ℕ) (d : Dict Choice)
    → NoRepeat snapshot
    → Distinct d
    → VotersIn snapshot d
    → length (unvoted snapshot d) + length d ≡ length snapshot
length-unvoted s [] n u v = omega (arith, unvoted_nil s)
length-unvoted s ((k, c) ∷ d) n u v = omega (
  arith,
  length-unvoted s d n u.1 v.2,
  length-keep_less k (λ m. not (contains m d)) (λ m. not (contains m ((k, c) ∷ d))) s
      (λ m h. contains_tail k m c d h) (rw u.0) (ground arith) n v.0,
)

erase_absent : (k : ℕ) (d : Dict Choice) → contains k d ≡ false → erase k d ≡ d
erase_absent k [] h = refl
erase_absent k ((j, b) ∷ d) h = ground (arith, erase_absent k d)

count_votes-erase :
    (p : Choice → Bool) (k : ℕ) (c : Choice) (d : Dict Choice)
    → Distinct d
    → lookup k d ≡ some c
    → count_votes p d ≡ (if p c then 1 else 0) + count_votes p (erase k d)
unfolding count_votes
count_votes-erase p k c [] u h = cc
count_votes-erase p k c ((j, b) ∷ d) u h =
    ground (arith, count_votes-erase p k c d u.1, erase_absent j d u.0)

Distinct-erase : (k : ℕ) (d : Dict Choice) → Distinct d → Distinct (erase k d)
Distinct-erase k [] u = tt
Distinct-erase k ((j, b) ∷ d) u = ground (arith, Distinct-erase k d u.1, lookup-erase j k d)

-- `final` holds every vote of `d`.
abbrev pub Extends : Dict Choice → Dict Choice → Type 0
Extends final d = (k : ℕ) (c : Choice) → lookup k d ≡ some c → lookup k final ≡ some c

Extends-erase :
    (k : ℕ) (c : Choice) (final d : Dict Choice)
    → contains k d ≡ false
    → Extends final ((k, c) ∷ d)
    → Extends (erase k final) d
Extends-erase k c final d u h j b e = ground (arith, lookup-erase j k final, h j b)

-- A kind of votes can only grow in number while no vote is changed.
pub count_votes-Extends :
    (p : Choice → Bool) (final d : Dict Choice)
    → Distinct final
    → Distinct d
    → Extends final d
    → count_votes p d ≤ count_votes p final
unfolding count_votes
count_votes-Extends p final [] uf u h = omega arith
count_votes-Extends p final ((k, c) ∷ d) uf u h = omega (
  arith,
  count_votes-erase p k c final uf (h k c (ground arith)),
  count_votes-Extends p (erase k final) d (Distinct-erase k final uf) u.1
      (Extends-erase k c final d u.0 h),
)

-- Every vote is for one choice, so what is no approval is the rest.
count_votes-rest :
    (d : Dict Choice)
    → count_votes is_approve d + count_votes (λ c. not (is_approve c)) d ≡ length d
unfolding count_votes
count_votes-rest [] = refl
count_votes-rest ((k, c) ∷ d) = ground (arith, count_votes-rest d)

pub VotersIn-length-le :
    (snapshot : List ℕ) (d : Dict Choice)
    → NoRepeat snapshot
    → Distinct d
    → VotersIn snapshot d
    → length d ≤ length snapshot
VotersIn-length-le s d n u v = omega (arith, length-unvoted s d n u v)

-- However those who have not voted will vote, no approval is added beyond their number.
pub approvals_bounded :
    (snapshot : List ℕ) (final d : Dict Choice)
    → NoRepeat snapshot
    → Distinct final
    → Distinct d
    → VotersIn snapshot final
    → Extends final d
    → count_votes is_approve final + length d ≤ count_votes is_approve d + length snapshot
approvals_bounded s final d n uf u vf e = omega (
  arith,
  count_votes-rest d,
  count_votes-rest final,
  VotersIn-length-le s final n uf vf,
  count_votes-Extends (λ c. not (is_approve c)) final d uf u e,
)

pub Distinct-insert : (k : ℕ) (c : Choice) (d : Dict Choice) → Distinct d → Distinct (insert k c d)
Distinct-insert k c [] u = ground arith
Distinct-insert k c ((j, b) ∷ d) u =
    ground (arith, Distinct-insert k c d u.1, lookup-insert j k c d)

pub VotersIn-insert :
    (snapshot : List ℕ) (k : ℕ) (c : Choice) (d : Dict Choice)
    → elem k snapshot ≡ true
    → valid_choice c ≡ true
    → VotersIn snapshot d
    → VotersIn snapshot (insert k c d)
VotersIn-insert s k c [] m v h = (m, v, tt)
VotersIn-insert s k c ((j, b) ∷ d) m v h = ground (arith, VotersIn-insert s k c d m v h.2)
