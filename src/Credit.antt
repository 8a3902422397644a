-- ===== src/Credit.antt =====
-- Credits: the accounts and transactions of backend/models/orm/credits.py, and the expiry of granted
-- credits and the spending for a call by `CreditService` (backend/services/credit_service.py).
pub mod Ledger
pub mod Expiry
pub mod Settled
pub mod Spend
pub mod Spent
pub mod Books
mod Tests
