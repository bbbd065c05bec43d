-- ===== src/Router.antt =====
-- chitu/dp_request_router.py: the request router in front of the schedulers.
pub mod Balancer
pub mod Eligible
pub mod Choice
pub mod Turns
pub mod Requests
pub mod Order
