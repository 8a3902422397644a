-- ===== src/Credit/Spent.antt =====
-- A call of `spend_for_model_usage` (backend/services/credit_service.py) that is made again.
use dewflow.Base.{
  ℕ, ◌≡◌, refl, ap, sym, ◌∙◌, subst, String, true, Option, none, some, List, ◌∷◌, Bool-cases,
  Option-cases, inl, inr, arith, num_is, find, text_is,
}
use dewflow.Generation.FailDue.{text_is_self}
use dewflow.Credit.Ledger.{CreditAccount, CreditTransaction, add_transaction}
use dewflow.Credit.Spend.{
  UsageRecord, SpendDb, Result, ok, app_exception, integrity_error, ◌>>=◌, CreditSettings, Usage,
  lookup_transaction, lookup_usage, get_transaction_by_idempotency_key,
  get_usage_record_by_chat_message_id, key_taken, insert_transaction, message_taken,
  create_usage_record, get_or_create_account_with_lock, credits_to_deduct, tokens_to_deduct,
  deduct_credits, deduct_tokens, spending, usage_record, Spent, write_records, deduct, spend_new,
  recover, spend_found, spend_for, spend_for_model_usage, user_key, owner_key,
}

bind-ok :
    {A B : Type 0} (r : Result A) (f : A → Result B) (b : B)
    → (r >>= f) ≡ ok b
    → (a : A) × (r ≡ ok a) × (f a ≡ ok b)
bind-ok (ok a) f b h = (a, refl, h)
bind-ok (app_exception code) f b h = cc
bind-ok integrity_error f b h = cc

num_is_same : (m : ℕ) → num_is (some m) m ≡ true
num_is_same m = ground arith

-- the message has the record and the transaction
abbrev Recorded : CreditSettings → ℕ → UsageRecord × CreditTransaction × SpendDb → Type 0
Recorded self m (ur, tx, db) =
    (get_usage_record_by_chat_message_id m db ≡ some ur)
    × (get_transaction_by_idempotency_key (self.spend_key m) db ≡ some tx)

lookup-head :
    (t : CreditTransaction) (key : String) (ts : List CreditTransaction)
    → t.idempotency_key ≡ some key
    → lookup_transaction key (t ∷ ts) ≡ some t
lookup-head t key ts named =
    let hit : text_is t.idempotency_key key ≡ true = rw named (text_is_self key) in rw hit refl

insert_transaction-found :
    (t : CreditTransaction) (key : String) (db after : SpendDb)
    → t.idempotency_key ≡ some key
    → insert_transaction t db ≡ ok after
    → (get_transaction_by_idempotency_key key after ≡ some t) × (after.usage ≡ db.usage)
unfolding insert_transaction get_transaction_by_idempotency_key add_transaction
insert_transaction-found t key db after named made =
    elim (Bool-cases (key_taken t.idempotency_key db)) [
      | inl e ↦ cc (rw e at made)
      | inr e ↦
          let same : after ≡ record db { credit = add_transaction t db.credit } =
            cc (rw e at made) in
          (
            ap (λ (d : SpendDb). lookup_transaction key d.credit.transactions) same
                ∙ lookup-head t key db.credit.transactions named,
            ap (λ (d : SpendDb). d.usage) same,
          )
    ]

create_usage_record-found :
    (r : UsageRecord) (m : ℕ) (db after : SpendDb)
    → r.chat_message_id ≡ some m
    → create_usage_record r db ≡ ok after
    → get_usage_record_by_chat_message_id m after ≡ some r
unfolding create_usage_record get_usage_record_by_chat_message_id
create_usage_record-found r m db after named made =
    elim (Bool-cases (message_taken r.chat_message_id db)) [
      | inl e ↦ cc (rw e at made)
      | inr e ↦
          let same : after ≡ record db { usage = r ∷ db.usage } = cc (rw e at made) in
          let hit : num_is r.chat_message_id m ≡ true = rw named (num_is_same m) in
          ap (λ (d : SpendDb). lookup_usage m d.usage) same ∙ rw hit refl
    ]

module _ (self : CreditSettings) (m : ℕ) where
  write_records-Recorded :
      (u : Usage) (account_id amount : ℕ) (db : SpendDb) (out : Spent self u)
      → u.chat_message_id ≡ some m
      → write_records self u account_id amount db ≡ ok out
      → Recorded self m out
  unfolding write_records get_usage_record_by_chat_message_id
  write_records-Recorded u account_id amount db (ur, tx, after) named made =
      let (a, created, rest) =
        bind-ok (create_usage_record (usage_record self u amount) db) _ (ur, tx, after) made in
      let (b, inserted, ended) =
        bind-ok (insert_transaction (spending self u account_id amount) a) _ (ur, tx, after) rest in
      let key : (spending self u account_id amount).idempotency_key ≡ some (self.spend_key m) =
        rw named refl in
      let (found, kept) =
        insert_transaction-found (spending self u account_id amount) (self.spend_key m) a b key
          inserted in
      let stored = create_usage_record-found (usage_record self u amount) m db a named created in
      let same : ◌≡◌ {A = Spent self u}
          (usage_record self u amount, spending self u account_id amount, b) (ur, tx, after) =
        cc ended in
      subst (λ (o : Spent self u). Recorded self m o) same
        (ap (lookup_usage m) kept ∙ stored, found)

  recover-Recorded :
      (u : Usage) (r : UsageRecord) (account : CreditAccount) (db : SpendDb) (out : Spent self u)
      → u.chat_message_id ≡ some m
      → get_usage_record_by_chat_message_id m db ≡ some r
      → recover self u r (account, db) ≡ ok out
      → Recorded self m out
  unfolding get_usage_record_by_chat_message_id
  recover-Recorded u r account db (ur, tx, after) named stored made =
      let t = spending self u account.id r.credit_cost in
      let (b, inserted, ended) = bind-ok (insert_transaction t db) _ (ur, tx, after) made in
      let key : t.idempotency_key ≡ some (self.spend_key m) = rw named refl in
      let (found, kept) = insert_transaction-found t (self.spend_key m) db b key inserted in
      let same : ◌≡◌ {A = Spent self u} (r, t, b) (ur, tx, after) = cc ended in
      subst (λ (o : Spent self u). Recorded self m o) same
        (ap (lookup_usage m) kept ∙ stored, found)

  deduct-Recorded :
      (u : Usage) (account : CreditAccount) (db : SpendDb) (out : Spent self u)
      → u.chat_message_id ≡ some m
      → deduct self u (account, db) ≡ ok out
      → Recorded self m out
  deduct-Recorded u account db out named made =
      let c = credits_to_deduct self u account.balance in
      let (a, paid, rest) = bind-ok (deduct_credits self u account.id c db) _ out made in
      let (b, used, written) =
        bind-ok (deduct_tokens self u (tokens_to_deduct self u account.balance) a) _ out rest in
      write_records-Recorded u account.id c b out named written

  spend_new-Recorded :
      (u : Usage) (db : SpendDb) (out : Spent self u)
      → u.chat_message_id ≡ some m
      → spend_new self u db ≡ ok out
      → Recorded self m out
  unfolding spend_new
  spend_new-Recorded u db out named made = elim (Option-cases (find user_key u.user_id db.users)) [
    | inl e ↦ cc (rw e at made)
    | inr (user, e) ↦
        let (account, after) = get_or_create_account_with_lock self u.user_id db in
        deduct-Recorded u account after out named (rw e at made)
  ]

  get_or_create-usage :
      (user_id : ℕ) (db : SpendDb)
      → get_usage_record_by_chat_message_id m (get_or_create_account_with_lock self user_id db).1
        ≡ get_usage_record_by_chat_message_id m db
  unfolding get_or_create_account_with_lock get_usage_record_by_chat_message_id
  get_or_create-usage user_id db = elim (Option-cases (find owner_key user_id db.credit.accounts)) [
    | inl e ↦ rw e refl
    | inr (account, e) ↦ rw e refl
  ]

  spend_found-Recorded :
      (u : Usage) (t : Option CreditTransaction) (r : Option UsageRecord) (db : SpendDb)
      (out : Spent self u)
      → u.chat_message_id ≡ some m
      → get_transaction_by_idempotency_key (self.spend_key m) db ≡ t
      → get_usage_record_by_chat_message_id m db ≡ r
      → spend_found self u t r db ≡ ok out
      → Recorded self m out
  spend_found-Recorded u (some t) (some r) db (ur, tx, after) named e f made =
      let same : ◌≡◌ {A = Spent self u} (r, t, db) (ur, tx, after) = cc made in
      subst (λ (o : Spent self u). Recorded self m o) same (f, e)
  spend_found-Recorded u none (some r) db out named e f made =
      let (account, after) = get_or_create_account_with_lock self u.user_id db in
      recover-Recorded u r account after out named (get_or_create-usage u.user_id db ∙ f) made
  spend_found-Recorded u none none db out named e f made = spend_new-Recorded u db out named made
  spend_found-Recorded u (some t) none db out named e f made =
      spend_new-Recorded u db out named made

  -- A call for a message that has gone through, be it the first or the recovery of a lost transaction, is
  -- not charged again: any later call for the same message, whatever its token counts, returns the same
  -- record and transaction and changes nothing.
  pub spend_for_model_usage_again :
      (u v : Usage) (db after : SpendDb) (ur : UsageRecord) (tx : CreditTransaction)
      → u.chat_message_id ≡ some m
      → v.chat_message_id ≡ some m
      → spend_for_model_usage self u db ≡ ok (ur, tx, after)
      → spend_for_model_usage self v after ≡ ok (ur, tx, after)
  unfolding spend_for_model_usage
  spend_for_model_usage_again u v db after ur tx named named' made =
      let (r, t) =
        spend_found-Recorded u (get_transaction_by_idempotency_key (self.spend_key m) db)
          (get_usage_record_by_chat_message_id m db) db (ur, tx, after) named refl refl
          (sym (ap (λ (o : Option ℕ). spend_for self u o db) named) ∙ made) in
      let again : spend_for self v (some m) after ≡ ok (ur, tx, after) = rw (r, t) refl in
      ap (λ (o : Option ℕ). spend_for self v o after) named' ∙ again
