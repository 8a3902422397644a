-- ===== src/Credit/Settled.antt =====
-- What `CreditService.expire_credits_for_account` (backend/services/credit_service.py) takes from an
-- account, and what a second expiry finds.
use dewflow.Base.{
  ℕ, ◌+◌, ◌-◌, ◌≤◌, ◌≡◌, refl, sym, ◌∙◌, Bool, true, false, some, List, [], ◌∷◌, All, find, keep,
  ltb, min, arith, Bool-cases, inl, inr, ◌==◌, ◌&&◌, str_eq, find-update_where, keep-All, ◌⊎◌,
  Option-cases, subst, find-key,
}
use dewflow.Credit.Ledger.{
  ℤ, pos, minus, ◌+ℤ◌, abs, sum, is_positive, CreditAccount, CreditTransaction, CreditDb,
  account_key, get_account_by_id_with_lock, get_expired_grants_sum, get_already_expired_sum,
  get_spent_sum, get_protected_positive_sum, try_decrement_balance, add_transaction,
  decrement_guard, decrement_assign,
}
use dewflow.Credit.Expiry.{
  above_zero, less, excess, pending_expire, to_expire, expiry, expire_locked, expire_found,
  expire_credits_for_account,
}

abbrev IsNegative : ℤ → Type 0
IsNegative z = is_positive z ≡ false

-- the tables after the expiry of `n` credits
abbrev pub expired : ℕ → ℕ → CreditDb → CreditDb
expired id n db = add_transaction (expiry id n) (try_decrement_balance id n db).1

module _ (id n : ℕ) (db : CreditDb) where
  get_expired_grants_sum-expired :
      (now : ℕ) → get_expired_grants_sum id now (expired id n db) ≡ get_expired_grants_sum id now db
  unfolding get_expired_grants_sum add_transaction try_decrement_balance
  get_expired_grants_sum-expired now = ground arith

  get_spent_sum-expired : get_spent_sum id (expired id n db) ≡ get_spent_sum id db
  unfolding get_spent_sum add_transaction try_decrement_balance
  get_spent_sum-expired = ground arith

  get_protected_positive_sum-expired :
      (now : ℕ)
      → get_protected_positive_sum id now (expired id n db) ≡ get_protected_positive_sum id now db
  unfolding get_protected_positive_sum add_transaction try_decrement_balance minus
  get_protected_positive_sum-expired now = ground arith

abs-minus : (n : ℕ) (z : ℤ) → IsNegative z → abs (minus 0 n +ℤ z) ≡ n + abs z
unfolding abs minus ◌+ℤ◌
abs-minus n z h = ground arith

sum-IsNegative :
    (ts : List CreditTransaction) → All (λ t. IsNegative t.amount) ts → IsNegative (sum ts)
unfolding sum minus ◌+ℤ◌
sum-IsNegative [] h = refl
sum-IsNegative (t ∷ ts) h = ground (arith, sum-IsNegative ts h.1, h.0)

-- `expire` transactions take credits away.
abbrev pub IsSigned : CreditTransaction → Type 0
IsSigned t = str_eq t.source "expire" ≡ true → is_positive t.amount ≡ false

keep-IsNegative :
    (id : ℕ) (ts : List CreditTransaction)
    → All IsSigned ts
    → All (λ t. IsNegative t.amount) (keep (λ t. t.account_id == id && str_eq t.source "expire") ts)
keep-IsNegative id [] h = tt
keep-IsNegative id (t ∷ ts) h = elim (Bool-cases (t.account_id == id && str_eq t.source "expire")) [
  | inl e ↦ rw e (h.0 (ground (arith, e)), keep-IsNegative id ts h.1)
  | inr e ↦ rw e (keep-IsNegative id ts h.1)
]

get_already_expired_sum-expired :
    (id n : ℕ) (db : CreditDb)
    → All IsSigned db.transactions
    → get_already_expired_sum id (expired id n db) ≡ n + get_already_expired_sum id db
unfolding get_already_expired_sum add_transaction try_decrement_balance sum
get_already_expired_sum-expired id n db h =
    let gone = keep (λ t. t.account_id == id && str_eq t.source "expire") db.transactions in
    let negative : IsNegative (sum gone) =
      sum-IsNegative gone (keep-IsNegative id db.transactions h) in
    ground (arith, abs-minus n (sum gone) negative)

-- A sum of positive amounts is a natural number.
sum-positive :
    (ts : List CreditTransaction)
    → All (λ t. is_positive t.amount ≡ true) ts
    → sum ts ≡ pos (abs (sum ts))
unfolding sum abs ◌+ℤ◌
sum-positive [] h = refl
sum-positive (t ∷ ts) h = ground (arith, sum-positive ts h.1, h.0)

pub get_protected_positive_sum-positive :
    (id now : ℕ) (db : CreditDb)
    → get_protected_positive_sum id now db ≡ pos (abs (get_protected_positive_sum id now db))
unfolding get_protected_positive_sum
get_protected_positive_sum-positive id now db =
    sum-positive _ (keep-All _ _ db.transactions (λ t e. ground (arith, e)))

pub to_expire_within :
    (account : CreditAccount) (now : ℕ) (db : CreditDb)
    → to_expire account now db + abs (get_protected_positive_sum account.id now db)
        ≤ account.balance
      ⊎ (to_expire account now db ≡ 0)
unfolding to_expire excess minus
to_expire_within account now db =
    ground (arith, get_protected_positive_sum-positive account.id now db)

unfoldable pub lowered : CreditAccount → ℕ → CreditAccount
lowered account n = record account { balance = account.balance - n }

pub find-expired :
    (account : CreditAccount) (n : ℕ) (db : CreditDb)
    → find account_key account.id db.accounts ≡ some account
    → n ≤ account.balance
    → find account_key account.id (expired account.id n db).accounts ≡ some (lowered account n)
unfolding add_transaction try_decrement_balance lowered
find-expired account n db h fits =
    find-update_where account_key (decrement_guard account.id n) (decrement_assign n) (λ a. refl)
      account.id db.accounts account h
    ∙ ground arith

abbrev amount_of : ℕ → ℤ → ℤ → ℕ → ℕ → ℕ
amount_of balance protected grants spent gone =
    min (above_zero (excess balance protected)) (above_zero (less (less grants spent) gone))

amount_of-after :
    (balance q : ℕ) (protected grants : ℤ) (spent gone : ℕ)
    → protected ≡ pos q
    → let n = amount_of balance protected grants spent gone in
      amount_of (balance - n) protected grants spent (n + gone) ≡ 0
unfolding excess less minus
amount_of-after balance q protected grants spent gone e = ground (arith, e)

-- What is left to expire after an expiry.
to_expire-expired :
    (account : CreditAccount) (now : ℕ) (db : CreditDb)
    → All IsSigned db.transactions
    → to_expire
        (lowered account (to_expire account now db))
        now
        (expired account.id (to_expire account now db) db)
      ≡ 0
unfolding lowered to_expire pending_expire
to_expire-expired account now db h =
    let protected = get_protected_positive_sum account.id now db in
    let grants = get_expired_grants_sum account.id now db in
    let spent = get_spent_sum account.id db in
    let gone = get_already_expired_sum account.id db in
    let n = amount_of account.balance protected grants spent gone in
    rw
      (
        get_protected_positive_sum-expired account.id n db now,
        get_expired_grants_sum-expired account.id n db now,
        get_spent_sum-expired account.id n db,
        get_already_expired_sum-expired account.id n db h,
      )
      (amount_of-after account.balance (abs protected) protected grants spent gone
        (get_protected_positive_sum-positive account.id now db))

pub within_balance :
    (account : CreditAccount) (now : ℕ) (db : CreditDb) → to_expire account now db ≤ account.balance
within_balance account now db = ground (arith, to_expire_within account now db)

-- The three outcomes of an expiry.
abbrev pub OutcomeOf : CreditAccount → ℕ → CreditDb → Bool × CreditDb → Type 0
OutcomeOf account now db out =
    (out ≡ (false, db))
    ⊎ ((ltb 0 (to_expire account now db) ≡ true)
        × (out ≡ (true, expired account.id (to_expire account now db) db)))

pub expire_locked-OutcomeOf :
    (account : CreditAccount) (now : ℕ) (db : CreditDb)
    → OutcomeOf account now db (expire_locked account now db)
expire_locked-OutcomeOf account now db =
    elim (Bool-cases (is_positive (pending_expire account.id now db))) [
      | inr e ↦ rw e (inl refl)
      | inl e ↦ elim (Bool-cases (ltb 0 (to_expire account now db))) [
        | inl f ↦ rw (e, f) (inr (refl, refl))
        | inr f ↦ rw (e, f) (inl refl)
      ]
    ]

expire_locked-settled :
    (account : CreditAccount) (now : ℕ) (db : CreditDb)
    → to_expire account now db ≡ 0
    → expire_locked account now db ≡ (false, db)
expire_locked-settled account now db h =
    elim (Bool-cases (is_positive (pending_expire account.id now db))) [
      | inr e ↦ rw e refl
      | inl e ↦ rw (e, h) refl
    ]

expire_locked_again :
    (account : CreditAccount) (now : ℕ) (db : CreditDb)
    → find account_key account.id db.accounts ≡ some account
    → All IsSigned db.transactions
    → let after = (expire_locked account now db).1 in
      expire_found (find account_key account.id after.accounts) now after ≡ (false, after)
expire_locked_again account now db found h = elim (expire_locked-OutcomeOf account now db) [
  | inl same ↦
      subst
        (λ (out : Bool × CreditDb).
          expire_found (find account_key account.id out.1.accounts) now out.1 ≡ (false, out.1))
        (sym same) (rw found same)
  | inr (some_left, taken) ↦
      let n = to_expire account now db in
      subst
        (λ (out : Bool × CreditDb).
          expire_found (find account_key account.id out.1.accounts) now out.1 ≡ (false, out.1))
        (sym taken)
        (rw (find-expired account n db found (within_balance account now db)) (
          expire_locked-settled (lowered account n) now (expired account.id n db)
            (to_expire-expired account now db h)))
]

-- An expiry settles the account: repeated at the same time it reports False and changes nothing, if
-- the `expire` transactions take credits away.
pub expire_credits_for_account_again :
    (account_id now : ℕ) (db : CreditDb)
    → All IsSigned db.transactions
    → let after = (expire_credits_for_account account_id now db).1 in
      expire_credits_for_account account_id now after ≡ (false, after)
unfolding expire_credits_for_account get_account_by_id_with_lock
expire_credits_for_account_again account_id now db h =
    elim (Option-cases (find account_key account_id db.accounts)) [
      | inl missing ↦ rw (missing, missing) refl
      | inr (account, found) ↦
          let named = find-key account_key account_id db.accounts account found in
          let found' : find account_key account.id db.accounts ≡ some account =
            subst (λ k. find account_key k db.accounts ≡ some account) (sym named) found in
          rw (found, sym named) (expire_locked_again account now db found' h)
    ]
