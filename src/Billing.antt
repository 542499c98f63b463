-- ===== src/Billing.antt =====
-- Subscriptions: src/modules/billing.
pub mod Model
pub mod PlanAccess
pub mod Seen
pub mod Sync
pub mod Webhook
pub mod Checkout
