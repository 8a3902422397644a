-- ===== src/Credit/Ledger.antt =====
-- The tables of backend/models/orm/credits.py and the statements of `CreditRepository`
-- (backend/repositories/credit_repo.py) that expiry uses. An id is a number, a time a number of
-- microseconds; an amount is a whole number, positive for a grant.
use dewflow.Base.{
  ℕ, ◌+◌, ◌-◌, String, Bool, false, ◌&&◌, ◌||◌, not, Option, List, [], ◌∷◌, ltb, leb, ◌==◌,
  if◌then◌else◌, str_eq, is_none, is_some, due_by, keep, find, update_where, returning,
}

-- A whole number: `negsuc n` is the negative of `n + 1`.
pub data ℤ : Type 0 where
  pos negsuc : ℕ → ℤ

-- `a - b`
unfoldable pub minus : ℕ → ℕ → ℤ
minus a b = if leb b a then pos (a - b) else negsuc (b - a - 1)

infixl 65 ◌+ℤ◌
unfoldable pub ◌+ℤ◌ : ℤ → ℤ → ℤ
unfolding minus
pos a +ℤ pos b = pos (a + b)
pos a +ℤ negsuc b = minus a (b + 1)
negsuc a +ℤ pos b = minus b (a + 1)
negsuc a +ℤ negsuc b = negsuc (a + b + 1)

unfoldable pub abs : ℤ → ℕ
abs (pos n) = n
abs (negsuc n) = n + 1

abbrev pub is_positive : ℤ → Bool
is_positive (pos n) = ltb 0 n
is_positive (negsuc n) = false

pub record CreditAccount : Type 0 where
  pub id : ℕ
  pub user_id : ℕ
  pub balance : ℕ  -- the CHECK constraint `balance_non_negative`

pub record CreditTransaction : Type 0 where
  pub account_id : ℕ
  pub amount : ℤ
  pub source : String
  pub expires_at : Option ℕ
  pub idempotency_key : Option String

pub record CreditDb : Type 0 where
  pub accounts : List CreditAccount
  pub transactions : List CreditTransaction

abbrev pub account_key : CreditAccount → ℕ
account_key a = a.id

unfoldable pub get_account_by_id_with_lock : ℕ → CreditDb → Option CreditAccount
get_account_by_id_with_lock account_id db = find account_key account_id db.accounts

-- `SUM(amount)`, 0 of no rows
unfoldable pub sum : List CreditTransaction → ℤ
sum [] = pos 0
sum (t ∷ ts) = t.amount +ℤ sum ts

unfoldable pub get_expired_grants_sum : ℕ → ℕ → CreditDb → ℤ
get_expired_grants_sum account_id now db = sum (
    keep (λ t. t.account_id == account_id && str_eq t.source "checkin" && due_by t.expires_at now)
      db.transactions)

unfoldable pub get_already_expired_sum : ℕ → CreditDb → ℕ
get_already_expired_sum account_id db =
    abs (sum (keep (λ t. t.account_id == account_id && str_eq t.source "expire") db.transactions))

unfoldable pub get_spent_sum : ℕ → CreditDb → ℕ
get_spent_sum account_id db =
    abs (sum (keep (λ t. t.account_id == account_id && str_eq t.source "spend") db.transactions))

-- `source != 'checkin' OR expires_at IS NULL OR expires_at > now`
abbrev pub is_protected : ℕ → CreditTransaction → Bool
is_protected now t =
    not (str_eq t.source "checkin") || is_none t.expires_at || not (due_by t.expires_at now)

unfoldable pub get_protected_positive_sum : ℕ → ℕ → CreditDb → ℤ
get_protected_positive_sum account_id now db = sum (
    keep (λ t. t.account_id == account_id && is_positive t.amount && is_protected now t)
      db.transactions)

abbrev pub decrement_guard : ℕ → ℕ → CreditAccount → Bool
decrement_guard account_id cost a = a.id == account_id && leb cost a.balance

abbrev pub decrement_assign : ℕ → CreditAccount → CreditAccount
decrement_assign cost a = record a { balance = a.balance - cost }

unfoldable pub try_decrement_balance : ℕ → ℕ → CreditDb → Bool × CreditDb
try_decrement_balance account_id cost db = (
  is_some (returning (decrement_guard account_id cost) (decrement_assign cost) db.accounts),
  record db {
    accounts = update_where (decrement_guard account_id cost) (decrement_assign cost) db.accounts;
  },
)

unfoldable pub add_transaction : CreditTransaction → CreditDb → CreditDb
add_transaction t db = record db { transactions = t ∷ db.transactions }
