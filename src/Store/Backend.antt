-- ===== src/Store/Backend.antt =====
-- The value in a service's field `store`: service.go and refund.go ask whether it is a
-- `paymentTransactionRunner`, as `Store` is and a plain store is not.
use shopping_cart_payment.World.{Env, Action}
use shopping_cart_payment.Store.{PaymentStore, Store}
use shopping_cart_payment.Store.Postgres.{postgres, run_in_tx}

pub data Backend : Type 0 where
  runner : Store → Backend
  plain : PaymentStore → Backend

module _ (env : Env) where
  abbrev pub methods : Backend → PaymentStore
  methods (runner st) = postgres env st
  methods (plain store) = store

  -- `if runner, ok := s.store.(paymentTransactionRunner); ok { … } else { … }`
  unfoldable pub with_tx : {A : Type 0} → Backend → (PaymentStore → Action A) → Action A
  with_tx (runner st) fn = run_in_tx env st fn
  with_tx (plain store) fn = fn store
