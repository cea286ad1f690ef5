-- ===== src/Billing.antt =====
-- Billing: the plan catalogue, the usage counters, the entitlements, the invoices, the checkout and
-- the payment provider (apps/api/src/modules/billing).
pub mod Rows
pub mod Catalog
pub mod Provider
pub mod Payments
pub mod Requests
pub mod Signature
pub mod Proration
pub mod Prorating
pub mod Webhook
pub mod Checkout
pub mod Usage
pub mod Contact
pub mod Entitlements
pub mod Customer
pub mod CustomerEdits
pub mod Invoices
pub mod Frame
pub mod Amounts
