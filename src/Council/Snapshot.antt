-- ===== src/Council/Snapshot.antt =====
-- The snapshot of a new proposal, `list(dict.fromkeys(snapshot_member_ids))`.
use dro_asms.Prelude.{
  ℕ, ◌≡◌, refl, ◌∙◌, false, ◌||◌, List, [], ◌∷◌, ◌++◌, arith, elem, if◌then◌else◌,
}
use mathlib.Core.List.{append-nil, append_assoc}
use dro_asms.Council.Gateway.{from_keys}
use dro_asms.Council.Votes.{NoRepeat}

elem-append : (k : ℕ) (xs ys : List ℕ) → elem k (xs ++ ys) ≡ (elem k xs || elem k ys)
elem-append k [] ys = refl
elem-append k (x ∷ xs) ys = ground (arith, elem-append k xs ys)

NoRepeat-snoc : (xs : List ℕ) (x : ℕ) → NoRepeat xs → elem x xs ≡ false → NoRepeat (xs ++ (x ∷ []))
NoRepeat-snoc [] x n h = (refl, tt)
NoRepeat-snoc (y ∷ ys) x n h = ground (arith, NoRepeat-snoc ys x n.1, elem-append y ys (x ∷ []))

from_keys-NoRepeat : (seen xs : List ℕ) → NoRepeat seen → NoRepeat (from_keys seen xs)
unfolding from_keys
from_keys-NoRepeat seen [] n = n
from_keys-NoRepeat seen (x ∷ xs) n =
    from_keys-NoRepeat (if elem x seen then seen else seen ++ (x ∷ [])) xs
      (ground (arith, NoRepeat-snoc seen x n))

-- The members that are kept are those that were listed.
pub elem-from_keys :
    (k : ℕ) (seen xs : List ℕ) → elem k (from_keys seen xs) ≡ (elem k seen || elem k xs)
unfolding from_keys
elem-from_keys k seen [] = ground arith
elem-from_keys k seen (x ∷ xs) = ground (
  arith,
  elem-append k seen (x ∷ []),
  elem-from_keys k (if elem x seen then seen else seen ++ (x ∷ [])) xs,
)

NoRepeat-middle :
    (seen : List ℕ) (x : ℕ) (xs : List ℕ) → NoRepeat (seen ++ (x ∷ xs)) → elem x seen ≡ false
NoRepeat-middle [] x xs n = refl
NoRepeat-middle (y ∷ ys) x xs n =
    ground (arith, NoRepeat-middle ys x xs n.1, elem-append y ys (x ∷ xs))

-- A list with no repetition comes back as it is.
from_keys_fixed : (seen xs : List ℕ) → NoRepeat (seen ++ xs) → from_keys seen xs ≡ seen ++ xs
unfolding from_keys
from_keys_fixed seen [] n = rw append-nil
from_keys_fixed seen (x ∷ xs) n =
    let new : elem x seen ≡ false = NoRepeat-middle seen x xs n in
    rw new
      (from_keys_fixed (seen ++ (x ∷ [])) xs (rw append_assoc n) ∙ append_assoc seen (x ∷ []) xs)

pub members-NoRepeat : (xs : List ℕ) → NoRepeat (from_keys [] xs)
members-NoRepeat xs = from_keys-NoRepeat [] xs tt

pub members_fixed : (xs : List ℕ) → from_keys [] (from_keys [] xs) ≡ from_keys [] xs
members_fixed xs = from_keys_fixed [] (from_keys [] xs) (members-NoRepeat xs)
