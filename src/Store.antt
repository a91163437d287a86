-- ===== src/Store.antt =====
-- go/internal/payment/store.go: the interface of the stores, and the PostgreSQL store.
pub mod Rows
pub mod Scans
pub mod Numeric
pub mod Postgres
pub mod Specs
pub mod Backend
pub mod RoundTrips
pub mod Transactions
use shopping_cart_payment.Prelude.{Bool, Option, List}
use shopping_cart_payment.Text.{Text}
use shopping_cart_payment.Model.{Payment, Refund, Transaction, Uuid}
use shopping_cart_payment.World.{Action}

-- The interface `paymentStore`. A method that changes the entity behind its pointer returns it.
pub record PaymentStore : Type 0 where
  pub create_payment : Payment → Action Payment
  pub update_payment : Payment → Action Payment
  pub get_payment : Uuid → Action Payment
  pub get_payment_for_update : Uuid → Action Payment
  pub get_payment_by_order_id : Text → Action Payment
  pub get_payment_by_idempotency_key : Text → Action Payment
  pub get_payments_by_customer : Text → Action (List Payment)
  pub create_refund : Refund → Action Refund
  pub update_refund : Refund → Action Refund
  pub get_refund : Uuid → Action Refund
  pub get_refund_by_correlation_id : Text → Action Refund
  pub get_refunds_by_payment : Uuid → Action (List Refund)
  pub create_transaction : Transaction → Action Transaction

-- `Store`: whether it has a pool, and whether its `db` is a transaction begun by `RunInTx`.
pub record Store : Type 0 where
  pub pool : Bool
  pub in_tx : Bool
