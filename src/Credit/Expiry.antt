-- ===== src/Credit/Expiry.antt =====
-- `CreditService.expire_credits_for_account` (backend/services/credit_service.py).
use dewflow.Base.{ℕ, ◌+◌, Bool, true, false, Option, none, some, if◌then◌else◌, ltb, min, not}
use dewflow.Credit.Ledger.{
  ℤ, pos, negsuc, minus, is_positive, CreditAccount, CreditTransaction, CreditDb,
  get_account_by_id_with_lock, get_expired_grants_sum, get_already_expired_sum, get_spent_sum,
  get_protected_positive_sum, try_decrement_balance, add_transaction,
}

-- `max(0, z)`
abbrev pub above_zero : ℤ → ℕ
above_zero (pos n) = n
above_zero (negsuc n) = 0

-- `a - b` of a whole number and a natural one, and of a natural one and a whole one
unfoldable pub less : ℤ → ℕ → ℤ
unfolding minus
less (pos a) b = minus a b
less (negsuc a) b = negsuc (a + b)

unfoldable pub excess : ℕ → ℤ → ℤ
unfolding minus
excess a (pos b) = minus a b
excess a (negsuc b) = pos (a + b + 1)

unfoldable pub pending_expire : ℕ → ℕ → CreditDb → ℤ
pending_expire account_id now db =
    less (less (get_expired_grants_sum account_id now db) (get_spent_sum account_id db))
      (get_already_expired_sum account_id db)

unfoldable pub to_expire : CreditAccount → ℕ → CreditDb → ℕ
to_expire account now db =
    min (above_zero (excess account.balance (get_protected_positive_sum account.id now db)))
      (above_zero (pending_expire account.id now db))

abbrev pub expiry : ℕ → ℕ → CreditTransaction
expiry account_id n = record {
  account_id = account_id;
  amount = minus 0 n;
  source = "expire";
  expires_at = none;
  idempotency_key = none;
}

abbrev pub expire_locked : CreditAccount → ℕ → CreditDb → Bool × CreditDb
expire_locked account now db =
    if not (is_positive (pending_expire account.id now db))
    then (false, db)
    else if ltb 0 (to_expire account now db)
    then (
      true,
      add_transaction (expiry account.id (to_expire account now db))
          (try_decrement_balance account.id (to_expire account now db) db).1,
    )
    else (false, db)

abbrev pub expire_found : Option CreditAccount → ℕ → CreditDb → Bool × CreditDb
expire_found none now db = (false, db)
expire_found (some account) now db = expire_locked account now db

unfoldable pub expire_credits_for_account : ℕ → ℕ → CreditDb → Bool × CreditDb
expire_credits_for_account account_id now db =
    expire_found (get_account_by_id_with_lock account_id db) now db
