-- ===== src/Types.antt =====
-- The core types of cala-ledger-core-types/src: identifiers, enums, entries and balances.
pub mod Decimal
pub mod Primitives
pub mod Json
pub mod Entry
pub mod Balance
pub mod Transaction
pub use Decimal.*
pub use Primitives.*
pub use Entry.*
pub use Transaction.*
unfoldable pub use Balance.*
