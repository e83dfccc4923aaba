-- ===== src/Muncher.antt =====
-- src/transaction_muncher.cpp and transaction_muncher.h: the parts of a transaction that the filters
-- ask for, each retrieved from Traffic Server once.
pub mod Parts
pub mod Request
pub mod Reply
pub mod Header
unfoldable pub use Parts.*
unfoldable pub use Request.*
unfoldable pub use Reply.*
