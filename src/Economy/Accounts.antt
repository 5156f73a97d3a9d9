-- ===== src/Economy/Accounts.antt =====
-- Balances after the statements that write the table of accounts.
use dro_asms.Prelude.{
  ℕ, ◌+◌, ◌-◌, ◌≡◌, refl, sym, ap, Bool, true, false, ◌&&◌, ◌||◌, Option, none, some, List, [], ◌∷◌,
  ◌++◌, arith, ◌==◌, if◌then◌else◌,
}
use dro_asms.Economy.Defs.{
  Account, find_account, balance_of, new_account, ensured, ensure_account, update_account, credit,
  debit,
}
use dro_asms.Economy.Transfer.{debit_transfer}

abbrev pub is_some : {A : Type 0} → Option A → Bool
is_some none = false
is_some (some a) = true

-- The member has a row.
abbrev pub has_account : ℕ → ℕ → List Account → Bool
has_account g m accounts = is_some (find_account g m accounts)

abbrev pub same_key : ℕ → ℕ → ℕ → ℕ → Bool
same_key h m g i = (h == g) && (m == i)

balance_of-append :
    (now h m g i : ℕ) (accounts : List Account)
    → balance_of h m (accounts ++ (new_account now g i ∷ [])) ≡ balance_of h m accounts
unfolding find_account
balance_of-append now h m g i [] = ground arith
balance_of-append now h m g i (a ∷ more) = ground (arith, balance_of-append now h m g i more)

has_account-append :
    (now h m g i : ℕ) (accounts : List Account)
    → has_account h m (accounts ++ (new_account now g i ∷ []))
      ≡ (has_account h m accounts || same_key h m g i)
unfolding find_account
has_account-append now h m g i [] = ground arith
has_account-append now h m g i (a ∷ more) = ground (arith, has_account-append now h m g i more)

balance_of-ensured :
    (now h m g i : ℕ) (accounts : List Account) (found : Option Account)
    → balance_of h m (ensured now g i accounts found) ≡ balance_of h m accounts
balance_of-ensured now h m g i accounts none = balance_of-append now h m g i accounts
balance_of-ensured now h m g i accounts (some a) = refl

pub balance_of-ensure_account :
    (now h m g i : ℕ) (accounts : List Account)
    → balance_of h m (ensure_account now g i accounts) ≡ balance_of h m accounts
unfolding ensure_account
balance_of-ensure_account now h m g i accounts =
    balance_of-ensured now h m g i accounts (find_account g i accounts)

has_account-ensured :
    (now h m g i : ℕ) (accounts : List Account) (found : Option Account)
    → found ≡ find_account g i accounts
    → has_account h m (ensured now g i accounts found)
      ≡ (has_account h m accounts || same_key h m g i)
has_account-ensured now h m g i accounts none e = has_account-append now h m g i accounts
has_account-ensured now h m g i accounts (some a) e =
    let there : has_account g i accounts ≡ true = ap is_some (sym e) in ground (arith, there)

pub has_account-ensure_account :
    (now h m g i : ℕ) (accounts : List Account)
    → has_account h m (ensure_account now g i accounts)
      ≡ (has_account h m accounts || same_key h m g i)
unfolding ensure_account
has_account-ensure_account now h m g i accounts =
    has_account-ensured now h m g i accounts (find_account g i accounts) refl

pub has_account-update_credit :
    (now n h m g i : ℕ) (accounts : List Account)
    → has_account h m (update_account g i (credit now n) accounts) ≡ has_account h m accounts
unfolding find_account update_account
has_account-update_credit now n h m g i [] = refl
has_account-update_credit now n h m g i (a ∷ more) =
    ground (arith, has_account-update_credit now n h m g i more)

pub has_account-update_debit :
    (now n h m g i : ℕ) (accounts : List Account)
    → has_account h m (update_account g i (debit_transfer now n) accounts)
      ≡ has_account h m accounts
unfolding find_account update_account
has_account-update_debit now n h m g i [] = refl
has_account-update_debit now n h m g i (a ∷ more) =
    ground (arith, has_account-update_debit now n h m g i more)

pub balance_of-update_credit :
    (now n h m g i : ℕ) (accounts : List Account)
    → balance_of h m (update_account g i (credit now n) accounts) ≡ (
        if same_key h m g i && has_account g i accounts
        then balance_of h m accounts + n
        else balance_of h m accounts)
unfolding find_account update_account
balance_of-update_credit now n h m g i [] = ground arith
balance_of-update_credit now n h m g i (a ∷ more) =
    ground (arith, balance_of-update_credit now n h m g i more)

pub balance_of-update_debit :
    (now n h m g i : ℕ) (accounts : List Account)
    → balance_of h m (update_account g i (debit now n) accounts)
      ≡ (if same_key h m g i then balance_of h m accounts - n else balance_of h m accounts)
unfolding find_account update_account
balance_of-update_debit now n h m g i [] = ground arith
balance_of-update_debit now n h m g i (a ∷ more) =
    ground (arith, balance_of-update_debit now n h m g i more)

pub balance_of-update_transfer :
    (now n h m g i : ℕ) (accounts : List Account)
    → balance_of h m (update_account g i (debit_transfer now n) accounts)
      ≡ (if same_key h m g i then balance_of h m accounts - n else balance_of h m accounts)
unfolding find_account update_account
balance_of-update_transfer now n h m g i [] = ground arith
balance_of-update_transfer now n h m g i (a ∷ more) =
    ground (arith, balance_of-update_transfer now n h m g i more)
