-- ===== src/Notifications.antt =====
-- api/notifications/: webhooks, their delivery queue, the retry schedule and the worker.
pub mod Backoff
pub mod Model
pub mod Deliveries
pub mod Keys
pub mod Stamped
pub mod Due
pub mod Claims
pub mod Dispatcher
pub mod Worker
pub mod Requeue
pub mod Pages
pub mod Schemas
pub mod Webhooks
pub mod Events
mod Tests
