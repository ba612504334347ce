-- ===== src/Gateway.antt =====
-- apps/gateway/src: what a request passes on its way to the payment service.
pub mod SortedSets
pub mod RateLimit
pub mod Auth
pub mod Interceptor
pub mod Payments
pub mod Replies
pub mod Refusals
pub mod Tests
