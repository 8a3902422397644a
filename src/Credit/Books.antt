-- ===== src/Credit/Books.antt =====
-- The books of the accounts and the protected credits, over an expiry
-- (backend/services/credit_service.py).
use dewflow.Base.{
  ℕ, ◌-◌, ◌≤◌, ◌≡◌, refl, ap, sym, ◌∙◌, Bool, some, find, keep, arith, Bool-cases, inl, inr, ◌==◌,
  Option-cases, subst, find-update_where_ne, ◌≢◌, find-key, if◌then◌else◌,
}
use dewflow.Credit.Ledger.{
  pos, minus, ◌+ℤ◌, abs, sum, CreditAccount, CreditDb, account_key, get_account_by_id_with_lock,
  get_protected_positive_sum, try_decrement_balance, add_transaction, decrement_guard,
  decrement_assign,
}
use dewflow.Credit.Expiry.{to_expire, expire_locked, expire_credits_for_account}
use dewflow.Credit.Settled.{
  expired, lowered, find-expired, within_balance, to_expire_within, expire_locked-OutcomeOf,
}

-- The balance of account `k` is the sum of its transactions.
abbrev pub Balanced : ℕ → CreditDb → Type 0
Balanced k db =
    (a : CreditAccount)
    → find account_key k db.accounts ≡ some a
    → pos a.balance ≡ sum (keep (λ t. t.account_id == k) db.transactions)

minus-pos : (n b : ℕ) → n ≤ b → minus 0 n +ℤ pos b ≡ pos (b - n)
unfolding minus ◌+ℤ◌
minus-pos n b h = ground arith

sum-expired :
    (id n k : ℕ) (db : CreditDb)
    → sum (keep (λ t. t.account_id == k) (expired id n db).transactions) ≡ (
        if id == k
        then minus 0 n +ℤ sum (keep (λ t. t.account_id == k) db.transactions)
        else sum (keep (λ t. t.account_id == k) db.transactions))
unfolding sum add_transaction try_decrement_balance
sum-expired id n k db = ground arith

balance_of_lowered :
    (account a : CreditAccount) (n : ℕ)
    → some a ≡ some (lowered account n)
    → a.balance ≡ account.balance - n
unfolding lowered
balance_of_lowered account a n e = ground arith

module _ (account : CreditAccount) (n : ℕ) (db : CreditDb)
    (found : find account_key account.id db.accounts ≡ some account)
    (fits : n ≤ account.balance) where
  expired-Balanced_self : Balanced account.id db → Balanced account.id (expired account.id n db)
  expired-Balanced_self h a is_a =
      let held = sum (keep (λ t. t.account_id == account.id) db.transactions) in
      let summed : sum
            (keep (λ t. t.account_id == account.id) (expired account.id n db).transactions)
          ≡ minus 0 n +ℤ held =
        ground (arith, sum-expired account.id n account.id db) in
      ap pos (balance_of_lowered account a n (sym is_a ∙ find-expired account n db found fits))
      ∙ sym (minus-pos n account.balance fits)
      ∙ ap (λ z. minus 0 n +ℤ z) (h account found)
      ∙ sym summed

  expired-Balanced_other :
      (k : ℕ) → k ≢ account.id → Balanced k db → Balanced k (expired account.id n db)
  unfolding try_decrement_balance add_transaction
  expired-Balanced_other k other h a is_a =
      let kept =
        find-update_where_ne account_key (decrement_guard account.id n) (decrement_assign n)
          account.id (λ r g. ground arith) (λ r. refl) k db.accounts other in
      h a (sym kept ∙ is_a) ∙ sym (ground (arith, other, sum-expired account.id n k db))

  expired-Balanced : (k : ℕ) → Balanced k db → Balanced k (expired account.id n db)
  expired-Balanced k h = elim (Bool-cases (account.id == k)) [
    | inl e ↦
        let same : account.id ≡ k = ground (arith, e) in
        subst (λ j. Balanced j (expired account.id n db)) same
          (expired-Balanced_self (subst (λ j. Balanced j db) (sym same) h))
    | inr e ↦ expired-Balanced_other k (λ s. absurd (ground (arith, e, s))) h
  ]

-- An expiry keeps the books of every account: a balance that was the sum of its transactions still is.
pub expire_credits_for_account-Balanced :
    (account_id now k : ℕ) (db : CreditDb)
    → Balanced k db
    → Balanced k (expire_credits_for_account account_id now db).1
unfolding expire_credits_for_account get_account_by_id_with_lock
expire_credits_for_account-Balanced account_id now k db h =
    elim (Option-cases (find account_key account_id db.accounts)) [
      | inl missing ↦ rw missing h
      | inr (account, found) ↦
          let named = find-key account_key account_id db.accounts account found in
          let found' : find account_key account.id db.accounts ≡ some account =
            subst (λ k. find account_key k db.accounts ≡ some account) (sym named) found in
          elim (expire_locked-OutcomeOf account now db) [
            | inl same ↦ rw found (subst (λ (out : Bool × CreditDb). Balanced k out.1) (sym same) h)
            | inr (some_left, taken) ↦ rw found (
                subst (λ (out : Bool × CreditDb). Balanced k out.1) (sym taken)
                  (expired-Balanced account (to_expire account now db) db found'
                    (within_balance account now db) k h))
          ]
    ]

protected_stay :
    (account b : CreditAccount) (now p : ℕ) (db : CreditDb)
    → find account_key account.id db.accounts ≡ some account
    → get_protected_positive_sum account.id now db ≡ pos p
    → p ≤ account.balance
    → find account_key account.id (expire_locked account now db).1.accounts ≡ some b
    → p ≤ b.balance
unfolding abs
protected_stay account b now p db found protected fits is_b =
    elim (expire_locked-OutcomeOf account now db) [
      | inl same ↦
          let stays : some account ≡ some b =
            sym found
            ∙ ap (λ (out : Bool × CreditDb). find account_key account.id out.1.accounts) (sym same)
            ∙ is_b in
          ground (arith, stays)
      | inr (some_left, taken) ↦
          let n = to_expire account now db in
          let left = find-expired account n db found (within_balance account now db) in
          let now_b : some b ≡ some (lowered account n) =
            sym is_b
            ∙ ap (λ (out : Bool × CreditDb). find account_key account.id out.1.accounts) taken
            ∙ left in
          ground (
            arith,
            balance_of_lowered account b n now_b,
            to_expire_within account now db,
            ap abs protected,
          )
    ]

-- An expiry leaves the protected credits of the account alone: if the balance covers them, it still
-- does.
pub expire_credits_for_account-protected :
    (account_id now p : ℕ) (db : CreditDb) (a b : CreditAccount)
    → find account_key account_id db.accounts ≡ some a
    → get_protected_positive_sum account_id now db ≡ pos p
    → p ≤ a.balance
    → find account_key account_id (expire_credits_for_account account_id now db).1.accounts ≡ some b
    → p ≤ b.balance
unfolding expire_credits_for_account get_account_by_id_with_lock
expire_credits_for_account-protected account_id now p db a b found protected fits is_b =
    let named = find-key account_key account_id db.accounts a found in
    let (found', protected', is_b') =
      subst
        (λ (k : ℕ).
          (find account_key k db.accounts ≡ some a)
          × (get_protected_positive_sum k now db ≡ pos p)
          × (find account_key k (expire_locked a now db).1.accounts ≡ some b))
        (sym named) (found, protected, rw found at is_b) in
    protected_stay a b now p db found' protected' fits is_b'
