-- ===== src/Credit/Tests.antt =====
-- An account with a check-in that has expired and one that has not, a call that it pays, and each theorem
-- about credits at it.
use dewflow.Base.{
  ℕ, ◌≤◌, ◌≡◌, refl, false, none, some, [], ◌∷◌, find, returning, update_where, arith,
}
use dewflow.Credit.Ledger.{
  pos, negsuc, minus, ◌+ℤ◌, abs, sum, CreditAccount, CreditTransaction, CreditDb, account_key,
  get_account_by_id_with_lock, get_expired_grants_sum, get_spent_sum, get_already_expired_sum,
  get_protected_positive_sum, try_decrement_balance, add_transaction,
}
use dewflow.Credit.Expiry.{less, excess, pending_expire, to_expire, expire_credits_for_account}
use dewflow.Credit.Spend.{
  UsageRecord, SpendDb, ok, CreditSettings, Usage, spend_for_model_usage, spend_new,
  get_or_create_account_with_lock, write_records, create_usage_record, insert_transaction,
  get_transaction_by_idempotency_key, get_usage_record_by_chat_message_id, usage_record, spending,
}
use dewflow.Credit.Spent.{spend_for_model_usage_again}
use dewflow.Credit.Settled.{expire_credits_for_account_again}
use dewflow.Credit.Books.{
  Balanced, expire_credits_for_account-Balanced, expire_credits_for_account-protected,
}

abbrev account : CreditAccount
account = record { id = 1; user_id = 2; balance = 13 }

abbrev checkin : ℕ → ℕ → CreditTransaction
checkin amount expires_at = record {
  account_id = 1;
  amount = pos amount;
  source = "checkin";
  expires_at = some expires_at;
  idempotency_key = none;
}

abbrev db : CreditDb
db = record {
  accounts = account ∷ [];
  transactions =
      record (checkin 0 0) { amount = negsuc 6; source = "spend"; expires_at = none }
      ∷ checkin 10 50
      ∷ checkin 10 20
      ∷ [];
}

after_balance :
    find account_key 1 (expire_credits_for_account 1 30 db).1.accounts
    ≡ some (record account { balance = 10 })
unfolding find expire_credits_for_account get_account_by_id_with_lock get_expired_grants_sum
    get_spent_sum get_already_expired_sum get_protected_positive_sum try_decrement_balance
    add_transaction minus ◌+ℤ◌ abs sum less excess pending_expire to_expire returning update_where
after_balance = refl

expire_credits_for_account_again_example :
    expire_credits_for_account 1 30 (expire_credits_for_account 1 30 db).1
    ≡ (false, (expire_credits_for_account 1 30 db).1)
expire_credits_for_account_again_example =
    expire_credits_for_account_again 1 30 db
      (λ e. refl, (λ e. absurd (ground arith), (λ e. absurd (ground arith), tt)))

db-Balanced : Balanced 1 db
unfolding find sum ◌+ℤ◌ minus
db-Balanced a h = ground arith

expire_credits_for_account-Balanced_example : Balanced 1 (expire_credits_for_account 1 30 db).1
expire_credits_for_account-Balanced_example =
    expire_credits_for_account-Balanced 1 30 1 db db-Balanced

expire_credits_for_account-protected_example : 10 ≤ 10
unfolding find get_protected_positive_sum sum ◌+ℤ◌
expire_credits_for_account-protected_example =
    expire_credits_for_account-protected 1 30 10 db account (record account { balance = 10 }) refl
      refl (omega arith) after_balance

-- A call of 5 credits for message 7, and the same call again with other token counts.
abbrev settings : CreditSettings
settings = record {
  cost = λ model input output. 5;
  total_token_value = λ model input output. 50;
  covered = λ credits. credits;
  spend_key = λ m. "spend:7";
  fresh_account_id = λ u. 9;
}

abbrev call : ℕ → Usage
call tokens = record {
  user_id = 2;
  tokens_input = tokens;
  tokens_output = 0;
  model_name = "m";
  chat_message_id = some 7;
}

abbrev start_db : SpendDb
start_db = record {
  credit = db;
  usage = [];
  users = record { id = 2; max_tokens = 100; used_tokens = 0 } ∷ [];
}

abbrev charge : UsageRecord
charge = usage_record settings (call 40) 5

abbrev payment : CreditTransaction
payment = spending settings (call 40) 1 5

abbrev spent_db : SpendDb
spent_db = record start_db {
  credit = record {
    accounts = record account { balance = 8 } ∷ [];
    transactions = payment ∷ db.transactions;
  };
  usage = charge ∷ [];
}

first_spend : spend_for_model_usage settings (call 40) start_db ≡ ok (charge, payment, spent_db)
unfolding spend_for_model_usage spend_new get_or_create_account_with_lock write_records
    create_usage_record insert_transaction get_transaction_by_idempotency_key
    get_usage_record_by_chat_message_id find try_decrement_balance add_transaction returning
    update_where minus
first_spend = refl

spend_for_model_usage_again_example :
    spend_for_model_usage settings (call 60) spent_db ≡ ok (charge, payment, spent_db)
spend_for_model_usage_again_example =
    spend_for_model_usage_again settings 7 (call 40) (call 60) start_db spent_db charge payment refl
      refl first_spend
