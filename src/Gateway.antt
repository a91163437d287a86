-- ===== src/Gateway.antt =====
-- go/internal/gateway: the payment gateways and the router that chooses one.
pub mod Dto
pub mod Providers
pub mod Router
pub mod Routing
pub mod Frame
pub mod Amounts
pub mod Refunding
