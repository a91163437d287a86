-- ===== src/Schema.antt =====
-- src/main/resources/db/migration: the tables that the program writes, with their constraints.
-- The texts of numeric casts, the precision of a timestamp and the texts of PostgreSQL's errors are
-- in no file of the repository: they come from a `Dialect`.
pub mod Statements
pub mod Laws
use shopping_cart_payment.Prelude.{
  ℕ, Bool, true, false, Option, none, some, List, [], ◌∷◌, ◌++◌, ◌&&◌, ◌||◌, leb, ◌==◌,
  if◌then◌else◌,
}
use shopping_cart_payment.Text.{Text, bytes, text_eq, char_count}
use shopping_cart_payment.Errors.{GoError, pg, Result, ok, err}
use shopping_cart_payment.Model.{Uuid, Time}

-- What a column makes of its argument, and the text of an error with a given SQLSTATE.
pub record Dialect : Type 0 where
  -- ($n::numeric stored in a NUMERIC(19, 4))::text; none if it does not parse or is too large
  pub numeric : Text → Option Text
  -- a TIMESTAMP column read back
  pub timestamp : Time → Time
  pub pg_text : (code : Text) → Text

-- Table payments.
pub record PaymentRow : Type 0 where
  pub id : Uuid
  pub order_id : Text
  pub customer_id : Text
  pub amount : Text
  pub currency : Text
  pub status : Text
  pub gateway : Text
  pub gateway_transaction_id : Option Text
  pub gateway_payment_intent_id : Option Text
  pub payment_method_id : Option Uuid
  pub card_last4 : Option Text
  pub card_brand : Option Text
  pub metadata : Option Text
  pub failure_reason : Option Text
  pub failure_code : Option Text
  pub created_at : Time
  pub processed_at : Option Time
  pub completed_at : Option Time
  pub updated_at : Option Time
  pub correlation_id : Option Text
  pub idempotency_key : Option Text

-- Table refunds.
pub record RefundRow : Type 0 where
  pub id : Uuid
  pub payment_id : Uuid
  pub amount : Text
  pub currency : Text
  pub status : Text
  pub reason : Option Text
  pub gateway_refund_id : Option Text
  pub failure_reason : Option Text
  pub failure_code : Option Text
  pub created_at : Time
  pub processed_at : Option Time
  pub completed_at : Option Time
  pub correlation_id : Option Text
  pub initiated_by : Option Text

-- Table transactions.
pub record TransactionRow : Type 0 where
  pub id : Uuid
  pub payment_id : Uuid
  pub refund_id : Option Uuid
  pub type : Text
  pub amount : Text
  pub currency : Text
  pub success : Bool
  pub gateway_transaction_id : Option Text
  pub gateway_response : Option Text
  pub gateway_error_code : Option Text
  pub gateway_error_message : Option Text
  pub created_at : Time
  pub correlation_id : Option Text
  pub ip_address : Option Text
  pub user_agent : Option Text

pub record Tables : Type 0 where
  pub payments : List PaymentRow
  pub refunds : List RefundRow
  pub transactions : List TransactionRow

-- VARCHAR(n) counts characters.
abbrev pub fits : ℕ → Text → Bool
fits n t = leb (char_count t) n

abbrev pub fits? : ℕ → Option Text → Bool
fits? n none = true
fits? n (some t) = fits n t

unfoldable pub payment_widths : PaymentRow → Bool
payment_widths r =
    fits 255 r.order_id
    && fits 255 r.customer_id
    && fits 3 r.currency
    && fits 20 r.status
    && fits 20 r.gateway
    && fits? 255 r.gateway_transaction_id
    && fits? 255 r.gateway_payment_intent_id
    && fits? 4 r.card_last4
    && fits? 20 r.card_brand
    && fits? 500 r.failure_reason
    && fits? 50 r.failure_code
    && fits? 100 r.correlation_id
    && fits? 50 r.idempotency_key

unfoldable pub refund_widths : RefundRow → Bool
refund_widths r =
    fits 3 r.currency
    && fits 20 r.status
    && fits? 500 r.reason
    && fits? 255 r.gateway_refund_id
    && fits? 500 r.failure_reason
    && fits? 50 r.failure_code
    && fits? 100 r.initiated_by
    && fits? 100 r.correlation_id

unfoldable pub transaction_widths : TransactionRow → Bool
transaction_widths r =
    fits 20 r.type
    && fits 3 r.currency
    && fits? 255 r.gateway_transaction_id
    && fits? 50 r.gateway_error_code
    && fits? 500 r.gateway_error_message
    && fits? 100 r.correlation_id
    && fits? 50 r.ip_address
    && fits? 500 r.user_agent

unfoldable pub any_row {ℓ} : {A : Type ℓ} → (A → Bool) → List A → Bool
any_row p [] = false
any_row p (r ∷ rs) = p r || any_row p rs

abbrev pub same_key : Option Text → Option Text → Bool
same_key none _ = false
same_key (some k) none = false
same_key (some k) (some l) = text_eq k l

abbrev pub violation : {A : Type 0} → Dialect → Text → Result A
violation d code = err (pg code (d.pg_text code))
