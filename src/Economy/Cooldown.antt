-- ===== src/Economy/Cooldown.antt =====
-- The cooldown of a member, which the column throttled_until ends.
use Prim.Native.String.{String}
use dro_asms.Prelude.{ℕ, ◌≡◌, refl, ap, ◌∙◌, Option, none, some, List, [], ◌∷◌, ◌++◌, arith, if_ind}
use dro_asms.Economy.Defs.{
  Account, Db, find_account, new_account, ensured, ensure_account, update_account, credit, debit,
}
use dro_asms.Economy.Transfer.{
  until_of, debit_transfer, cooldown, is_government, move, waiting, with_rows,
}
use dro_asms.Economy.Adjust.{with_admin_rows}
use dro_asms.Economy.Runs.{Event, run, Kept, run-Kept}

abbrev until_at : ℕ → ℕ → List Account → Option ℕ
until_at g m accounts = until_of (find_account g m accounts)

until_at-append :
    (now h m g i : ℕ) (accounts : List Account)
    → until_at h m (accounts ++ (new_account now g i ∷ [])) ≡ until_at h m accounts
unfolding find_account
until_at-append now h m g i [] = ground arith
until_at-append now h m g i (a ∷ more) = ground (arith, until_at-append now h m g i more)

until_at-ensured :
    (now h m g i : ℕ) (accounts : List Account) (found : Option Account)
    → until_at h m (ensured now g i accounts found) ≡ until_at h m accounts
until_at-ensured now h m g i accounts none = until_at-append now h m g i accounts
until_at-ensured now h m g i accounts (some a) = refl

until_at-ensure_account :
    (now h m g i : ℕ) (accounts : List Account)
    → until_at h m (ensure_account now g i accounts) ≡ until_at h m accounts
unfolding ensure_account
until_at-ensure_account now h m g i accounts =
    until_at-ensured now h m g i accounts (find_account g i accounts)

until_at-update_credit :
    (now n h m g i : ℕ) (accounts : List Account)
    → until_at h m (update_account g i (credit now n) accounts) ≡ until_at h m accounts
unfolding find_account update_account
until_at-update_credit now n h m g i [] = refl
until_at-update_credit now n h m g i (a ∷ more) =
    ground (arith, until_at-update_credit now n h m g i more)

until_at-update_debit :
    (now n h m g i : ℕ) (accounts : List Account)
    → until_at h m (update_account g i (debit now n) accounts) ≡ until_at h m accounts
unfolding find_account update_account
until_at-update_debit now n h m g i [] = refl
until_at-update_debit now n h m g i (a ∷ more) =
    ground (arith, until_at-update_debit now n h m g i more)

until_at-update_transfer :
    (now n h m g i : ℕ) (accounts : List Account)
    → until_at h m accounts ≡ none
    → until_at h m (update_account g i (debit_transfer now n) accounts) ≡ none
unfolding find_account update_account
until_at-update_transfer now n h m g i [] e = refl
until_at-update_transfer now n h m g i (a ∷ more) e =
    ground (arith, until_at-update_transfer now n h m g i more)

-- No member is marked as throttled.
abbrev pub Unthrottled : Db → Type 0
Unthrottled db = (h m : ℕ) → until_at h m db.accounts ≡ none

pub until_at-rows :
    (now h m g i t : ℕ) (accounts : List Account)
    → until_at h m (ensure_account now g t (ensure_account now g i accounts))
      ≡ until_at h m accounts
until_at-rows now h m g i t accounts =
    until_at-ensure_account now h m g t (ensure_account now g i accounts)
    ∙ until_at-ensure_account now h m g i accounts

move-Unthrottled :
    (now n g i t h m : ℕ) (accounts : List Account)
    → until_at h m accounts ≡ none
    → until_at h m (move now g i t n accounts) ≡ none
unfolding move
move-Unthrottled now n g i t h m accounts e =
    until_at-update_credit now n h m g t (update_account g i (debit_transfer now n) accounts)
    ∙ until_at-update_transfer now n h m g i accounts e

Unthrottled-Kept : Kept Unthrottled
Unthrottled-Kept = record {
  pays = λ g i t n reason db apart enough u h m.
      move-Unthrottled db.now n g i t h m (with_rows g i t db).accounts
        (until_at-rows db.now h m g i t db.accounts ∙ u h m);
  waits = λ p next db u. u;
  grants = λ g admin t n reason db u h m.
      until_at-update_credit db.now n h m g t (with_admin_rows g admin t db).accounts
      ∙ until_at-rows db.now h m g admin t db.accounts
      ∙ u h m;
  deducts = λ g admin t n reason db enough u h m.
      until_at-update_debit db.now n h m g t (with_admin_rows g admin t db).accounts
      ∙ until_at-rows db.now h m g admin t db.accounts
      ∙ u h m;
  looks = λ g m db u h k. until_at-ensure_account db.now h k g m db.accounts ∙ u h k;
  later = λ n db u. u;
}

-- Where no member is marked as throttled at first, no member is ever on cooldown, whatever the
-- daily limit and however often transfers above it are asked for: the function marks the member
-- and then raises, which undoes the mark.
pub never_on_cooldown :
    (strip : String → String) (es : List Event) (db : Db) (g m : ℕ)
    → Unthrottled db
    → cooldown g m (run strip es db) ≡ none
unfolding cooldown
never_on_cooldown strip es db g m u =
    let after = run strip es db in
    let free : until_at g m after.accounts ≡ none =
      run-Kept Unthrottled Unthrottled-Kept strip es db u g m in
    if_ind (λ o. o ≡ none) (is_government g m after) refl (ap (waiting after.now) free)
