-- ===== src/Router.antt =====
-- routemq/router.py. A topic is a list of code points.
pub mod Pattern
pub mod Dispatch
