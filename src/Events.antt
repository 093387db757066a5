-- ===== src/Events.antt =====
-- gravity_utils/src/types/ethereum_events.rs: the five events of the Gravity contract.
mod Fields
mod ValsetUpdated
mod BatchExecuted
mod SendToCosmos
mod Erc20Deployed
mod LogicCallExecuted
pub mod Filter
mod Tests
pub mod Nonces
pub mod DeployRoundTrip
pub mod ValsetRoundTrip
unfoldable pub use Fields.*
unfoldable pub use ValsetUpdated.*
unfoldable pub use BatchExecuted.*
unfoldable pub use SendToCosmos.*
unfoldable pub use Erc20Deployed.*
unfoldable pub use LogicCallExecuted.*
