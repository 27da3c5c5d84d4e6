-- ===== src/Notifications.antt =====
-- src/notifications: the delivery of notifications, its retries and its dead letters.
pub mod Delivery
pub mod Dispatcher
pub mod Attempts
pub mod Processing
pub mod Templates
pub mod Creation
pub mod Tests
