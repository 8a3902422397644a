-- ===== src/Credit/Spend.antt =====
-- `spend_for_model_usage` (backend/services/credit_service.py) in the unit of work of its caller, which
-- keeps nothing of a call that raises. The costs are sums of floats: what they are rounded to is a
-- parameter.
use dewflow.Base.{
  ℕ, ◌+◌, ◌-◌, String, Bool, true, false, ◌&&◌, Option, none, some, List, [], ◌∷◌, ◌==◌, ltb, leb,
  if◌then◌else◌, is_some, num_is, text_is, find, update_where, returning,
}
use dewflow.Credit.Ledger.{
  minus, CreditAccount, CreditTransaction, CreditDb, try_decrement_balance, add_transaction,
}

-- `UsageRecord`
pub record UsageRecord : Type 0 where
  pub user_id : ℕ
  pub chat_message_id : Option ℕ
  pub model_name : String
  input_tokens : ℕ
  output_tokens : ℕ
  pub credit_cost : ℕ

-- the token quota of a `User`
pub record QuotaUser : Type 0 where
  pub id : ℕ
  pub max_tokens : ℕ
  pub used_tokens : ℕ

pub record SpendDb : Type 0 where
  pub credit : CreditDb
  pub usage : List UsageRecord
  pub users : List QuotaUser

pub data Result (A : Type 0) : Type 0 where
  ok : A → Result A
  app_exception : String → Result A
  integrity_error : Result A

infixl 5 ◌>>=◌
abbrev pub ◌>>=◌ : {A B : Type 0} → Result A → (A → Result B) → Result B
ok a >>= f = f a
app_exception code >>= f = app_exception code
integrity_error >>= f = integrity_error

-- The settings: the cost of a call in credits and in tokens, the tokens that credits stand for, the key of
-- the transaction for a message, and the id that a new account gets.
pub record CreditSettings : Type 0 where
  pub cost : String → ℕ → ℕ → ℕ
  pub total_token_value : String → ℕ → ℕ → ℕ
  pub covered : ℕ → ℕ
  pub spend_key : ℕ → String
  pub fresh_account_id : ℕ → ℕ

pub record Usage : Type 0 where
  pub user_id : ℕ
  pub tokens_input : ℕ
  pub tokens_output : ℕ
  pub model_name : String
  pub chat_message_id : Option ℕ

abbrev pub lookup_transaction : String → List CreditTransaction → Option CreditTransaction
lookup_transaction key [] = none
lookup_transaction key (t ∷ ts) =
    if text_is t.idempotency_key key then some t else lookup_transaction key ts

unfoldable pub get_transaction_by_idempotency_key : String → SpendDb → Option CreditTransaction
get_transaction_by_idempotency_key key db = lookup_transaction key db.credit.transactions

abbrev pub lookup_usage : ℕ → List UsageRecord → Option UsageRecord
lookup_usage m [] = none
lookup_usage m (u ∷ us) = if num_is u.chat_message_id m then some u else lookup_usage m us

unfoldable pub get_usage_record_by_chat_message_id : ℕ → SpendDb → Option UsageRecord
get_usage_record_by_chat_message_id m db = lookup_usage m db.usage

-- The column `idempotency_key` is unique.
abbrev pub key_taken : Option String → SpendDb → Bool
key_taken none db = false
key_taken (some key) db = is_some (get_transaction_by_idempotency_key key db)

unfoldable pub insert_transaction : CreditTransaction → SpendDb → Result SpendDb
insert_transaction t db =
    if key_taken t.idempotency_key db
    then integrity_error
    else ok (record db { credit = add_transaction t db.credit })

-- So is `chat_message_id` of the usage records.
abbrev pub message_taken : Option ℕ → SpendDb → Bool
message_taken none db = false
message_taken (some m) db = is_some (get_usage_record_by_chat_message_id m db)

unfoldable pub create_usage_record : UsageRecord → SpendDb → Result SpendDb
create_usage_record u db =
    if message_taken u.chat_message_id db
    then integrity_error
    else ok (record db { usage = u ∷ db.usage })

abbrev pub user_key : QuotaUser → ℕ
user_key u = u.id

abbrev quota_guard : ℕ → ℕ → QuotaUser → Bool
quota_guard user_id amount u = u.id == user_id && leb (u.used_tokens + amount) u.max_tokens

abbrev quota_assign : ℕ → QuotaUser → QuotaUser
quota_assign amount u = record u { used_tokens = u.used_tokens + amount }

unfoldable pub try_increment_used_tokens_with_limit : ℕ → ℕ → SpendDb → Bool × SpendDb
try_increment_used_tokens_with_limit user_id amount db = (
  is_some (returning (quota_guard user_id amount) (quota_assign amount) db.users),
  record db { users = update_where (quota_guard user_id amount) (quota_assign amount) db.users },
)

abbrev pub owner_key : CreditAccount → ℕ
owner_key a = a.user_id

abbrev or_create : CreditSettings → ℕ → Option CreditAccount → SpendDb → CreditAccount × SpendDb
or_create self user_id (some account) db = (account, db)
or_create self user_id none db =
    let account : CreditAccount = record {
      id = self.fresh_account_id user_id;
      user_id = user_id;
      balance = 0;
    } in
    (account, record db { credit = record db.credit { accounts = account ∷ db.credit.accounts } })

module _ (self : CreditSettings) where
  -- `_get_or_create_account_with_lock`, without a concurrent creation
  unfoldable pub get_or_create_account_with_lock : ℕ → SpendDb → CreditAccount × SpendDb
  get_or_create_account_with_lock user_id db =
      or_create self user_id (find owner_key user_id db.credit.accounts) db

  module _ (u : Usage) where
    abbrev pub cost : ℕ
    cost = self.cost u.model_name u.tokens_input u.tokens_output

    abbrev pub credits_to_deduct : ℕ → ℕ
    credits_to_deduct balance = if leb cost balance then cost else balance

    abbrev pub tokens_to_deduct : ℕ → ℕ
    tokens_to_deduct balance =
        if leb cost balance
        then 0
        else self.total_token_value u.model_name u.tokens_input u.tokens_output
          - self.covered balance

    abbrev pub must : String → Bool × SpendDb → Result SpendDb
    must code (true, db) = ok db
    must code (false, db) = app_exception code

    abbrev with_credit : SpendDb → Bool × CreditDb → Bool × SpendDb
    with_credit db (b, credit) = (b, record db { credit = credit })

    abbrev pub deduct_credits : ℕ → ℕ → SpendDb → Result SpendDb
    deduct_credits account_id amount db =
        if ltb 0 amount
        then must "INSUFFICIENT_CREDITS"
            (with_credit db (try_decrement_balance account_id amount db.credit))
        else ok db

    abbrev pub deduct_tokens : ℕ → SpendDb → Result SpendDb
    deduct_tokens amount db =
        if ltb 0 amount
        then must "CREDIT_QUOTA_EXCEEDED" (try_increment_used_tokens_with_limit u.user_id amount db)
        else ok db

    abbrev spend_key_of : Option ℕ → Option String
    spend_key_of none = none
    spend_key_of (some m) = some (self.spend_key m)

    abbrev pub spending : ℕ → ℕ → CreditTransaction
    spending account_id amount = record {
      account_id = account_id;
      amount = minus 0 amount;
      source = "spend";
      expires_at = none;
      idempotency_key = spend_key_of u.chat_message_id;
    }

    abbrev pub usage_record : ℕ → UsageRecord
    usage_record amount = record {
      user_id = u.user_id;
      chat_message_id = u.chat_message_id;
      model_name = u.model_name;
      input_tokens = u.tokens_input;
      output_tokens = u.tokens_output;
      credit_cost = amount;
    }

    abbrev pub Spent : Type 0
    Spent = UsageRecord × CreditTransaction × SpendDb

    -- the records of the call
    unfoldable pub write_records : ℕ → ℕ → SpendDb → Result Spent
    write_records account_id amount db = create_usage_record (usage_record amount) db >>= λ a.
        insert_transaction (spending account_id amount) a >>= λ b.
        ok (usage_record amount, spending account_id amount, b)

    abbrev pub deduct : CreditAccount × SpendDb → Result Spent
    deduct (account, db) = deduct_credits account.id (credits_to_deduct account.balance) db >>= λ a.
        deduct_tokens (tokens_to_deduct account.balance) a >>= λ b.
        write_records account.id (credits_to_deduct account.balance) b

    abbrev for_user : Option QuotaUser → SpendDb → Result Spent
    for_user none db = app_exception "USER_NOT_FOUND"
    for_user (some user) db = deduct (get_or_create_account_with_lock u.user_id db)

    unfoldable pub spend_new : SpendDb → Result Spent
    spend_new db = for_user (find user_key u.user_id db.users) db

    -- Recovery: the credits are gone, and only the transaction record was lost.
    abbrev pub recover : UsageRecord → CreditAccount × SpendDb → Result Spent
    recover ur (account, db) = insert_transaction (spending account.id ur.credit_cost) db >>= λ a.
        ok (ur, spending account.id ur.credit_cost, a)

    -- by the transaction and the record that the message has
    abbrev pub spend_found : Option CreditTransaction → Option UsageRecord → SpendDb → Result Spent
    spend_found (some tx) (some ur) db = ok (ur, tx, db)
    spend_found none (some ur) db = recover ur (get_or_create_account_with_lock u.user_id db)
    spend_found tx none db = spend_new db

    abbrev pub spend_for : Option ℕ → SpendDb → Result Spent
    spend_for none db = spend_new db
    spend_for (some m) db =
        spend_found (get_transaction_by_idempotency_key (self.spend_key m) db)
          (get_usage_record_by_chat_message_id m db) db

    unfoldable pub spend_for_model_usage : SpendDb → Result Spent
    spend_for_model_usage db = spend_for u.chat_message_id db
