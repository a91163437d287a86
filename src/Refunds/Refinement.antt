-- ===== src/Refunds/Refinement.antt =====
-- The closure that `ProcessRefund` runs in its transaction refines the abstract step of a refund.
use shopping_cart_payment.Prelude.{
  ◌≡◌, refl, ◌∙◌, ap, Bool, true, false, some, map, arith, Bool-cases, inl, inr,
}
use shopping_cart_payment.Decimal.{Decimal, FitsScale, units}
use shopping_cart_payment.Model.{Uuid, Payment, Refund, Time}
use shopping_cart_payment.Model.Status.{RefundStatus, refund_status_of, is_refunded}
use shopping_cart_payment.Text.{Text}
use shopping_cart_payment.Gateway.Dto.{RefundRequest, RefundResult}
use shopping_cart_payment.Gateway.Providers.{PaymentGateway}
use shopping_cart_payment.Schema.{Tables}
use shopping_cart_payment.World.{Env, World, ◌>>=◌, ◌>>◌}
use shopping_cart_payment.World.Hoare.{Ends, Ends-bind, Ends-pure, Ends-weaken, Ends-if}
use shopping_cart_payment.Gateway.Providers.{process_refund}
use shopping_cart_payment.Gateway.Frame.{Framed, Never, process_refund-Framed}
use shopping_cart_payment.Store.{Store}
use shopping_cart_payment.Store.Numeric.{AmountLaws}
use shopping_cart_payment.Store.Postgres.{postgres}
use shopping_cart_payment.Store.Specs.{
  Anything, Untouched, now-Untouched, new_uuid-Untouched, create_refund_lem,
  update_payment_store_lem, update_refund_store_lem, create_transaction_lem, transaction_alone,
  RefundCreated,
}
use shopping_cart_payment.Refunds.{
  RefundOrder, new_refund, send_refund, completion_time, settle_refund, settled_status,
  refund_locked, persist_refund,
}
use shopping_cart_payment.Refunds.Ledger.{HasAmount, IsSound, taken_by}
use shopping_cart_payment.Refunds.Locking.{IsChecked, lock_and_check_lem}
use shopping_cart_payment.Refunds.Pending.{
  Pending, IsOf, Refunded, create-Pending, update_payment-Pending, update_refund-Pending,
  same_tables-Pending, Pending-Refunded,
}

module _ (env : Env) where
  pub send_refund-Untouched :
      (g : PaymentGateway) (request : RefundRequest) (w : World)
      → Ends (Untouched w.tables) Anything (send_refund env g request) w
  unfolding send_refund
  send_refund-Untouched g request w =
      Ends-bind (Framed w) _ _ w (framed_call (process_refund-Framed env g request w))
        λ result v f. record { post = f.tables }
    where
      framed_call :
          Ends (Framed w) Never (process_refund env g request) w
          → Ends (Framed w) Anything (process_refund env g request) w
      framed_call h = Ends-weaken _ w h (λ _ _ f. f) (λ _ _ _. tt)

  completion_time-Untouched :
      (result : RefundResult) (time : Time) (w : World)
      → Ends (Untouched w.tables) Anything (completion_time env result time) w
  unfolding completion_time
  completion_time-Untouched result time w =
      Ends-if result.success _ _ w (λ _. now-Untouched env w) (λ _. Ends-pure time w refl)

settle_refund-id :
    (result : RefundResult) (time : Time) (r : Refund) → (settle_refund result time r).id ≡ r.id
unfolding settle_refund
settle_refund-id result time r = ground arith

module _ (env : Env) (laws : AmountLaws env) (order : RefundOrder) (fits : FitsScale order.amount)
    (start : Tables) where
  settle_refund-IsOf :
      (result : RefundResult) (time : Time) (r : Refund)
      → IsOf env laws order fits start r
      → IsOf env laws order fits start (settle_refund result time r)
  unfolding settle_refund refund_status_of
  settle_refund-IsOf result time r o = elim (Bool-cases result.success) [
    | inl good ↦
        rw (settle_refund, good)
          (record { to_payment = o.to_payment; of_amount = o.of_amount; constant = refl })
    | inr bad ↦
        rw (settle_refund, bad)
          (record { to_payment = o.to_payment; of_amount = o.of_amount; constant = refl })
  ]

  created-IsOf :
      {refund created : Refund} {t : Tables}
      → RefundCreated env refund created start t
      → IsOf env laws order fits start refund
      → IsOf env laws order fits start created
  created-IsOf c o = record {
    to_payment = ap Refund.payment_id c.same ∙ o.to_payment;
    of_amount = ap Refund.amount c.same ∙ o.of_amount;
    constant = rw (ap Refund.status c.same) o.constant;
  }

  processing-IsOf :
      (r : Refund) (time : Time)
      → IsOf env laws order fits start r
      → IsOf env laws order fits start
          (record r { status = RefundStatus.processing; processed_at = some time })
  unfolding refund_status_of
  processing-IsOf r time o = record {
    to_payment = o.to_payment;
    of_amount = o.of_amount;
    constant = refl;
  }

  module _ (st : Store) (tx : st.in_tx ≡ true) (g : PaymentGateway) (currency : Text)
      (sound : IsSound env start) where
    Ongoing : Uuid → Bool → Tables → Type 0
    Ongoing = Pending env laws order fits start

    -- From the row of the audit log on.
    settle_lem :
        (waiting : Payment) (processing : Refund) (remaining : Decimal) (result : RefundResult)
        (time : Time) (w : World)
        → IsOf env laws order fits start processing
        → FitsScale waiting.amount
        → HasAmount waiting.id (units waiting.amount) (map (taken_by env) start.payments)
        → Pending env laws order fits start processing.id false w.tables
        → Ends
            (λ r v. Refunded env laws order fits start r v.tables)
            Anything
            (do
              completed_at ← completion_time env result time
              (postgres env st).update_payment (record waiting {
                status = settled_status env.decimals result order.amount remaining;
              })
              (postgres env st).update_refund (settle_refund result completed_at processing))
            w
    settle_lem waiting processing remaining result time w of fine has pending =
        Ends-bind (Untouched w.tables) _ _ w (completion_time-Untouched env result time w) λ at v e.
          Ends-bind _ _ _ v (update_payment_store_lem env st tx _ v) λ paid x s.
            let updated =
              update_payment-Pending env laws order fits start _ paid processing.id false v.tables
                x.tables fine has s (rw e pending) in
            Ends-weaken _ x (update_refund_store_lem env st tx _ x)
              (λ r y (same, stored). rw same (
                Pending-Refunded env laws order fits start _ y.tables sound (
                  update_refund-Pending env laws order fits start _ false x.tables y.tables
                    (settle_refund-IsOf result at processing of) stored
                    (rw settle_refund-id updated))))
              (λ _ _ _. tt)

    refund_locked_lem :
        (refund : Refund) (locked : Payment) (remaining : Decimal) (w : World)
        → w.tables ≡ start
        → IsOf env laws order fits start refund
        → is_refunded refund.status ≡ false
        → FitsScale locked.amount
        → HasAmount locked.id (units locked.amount) (map (taken_by env) start.payments)
        → Ends
            (λ r v. Refunded env laws order fits start r v.tables)
            Anything
            (refund_locked env (postgres env st) g order currency refund locked remaining)
            w
    unfolding refund_locked
    refund_locked_lem refund locked remaining w begin of waiting fine has =
        Ends-bind _ _ _ w (create_refund_lem env st tx refund w) λ created v c.
          let created_now : RefundCreated env refund created start v.tables = rw begin at c in
          let of_created = created-IsOf created_now of in
          let p0 =
            create-Pending env laws order fits start refund created v.tables sound of_created
              created_now in
          Ends-bind _ _ _ v (update_payment_store_lem env st tx _ v) λ paid v1 s1.
            let p1 =
              update_payment-Pending env laws order fits start _ paid created.id _ v.tables
                v1.tables fine has s1 p0 in
            Ends-bind (Untouched v1.tables) _ _ v1 (now-Untouched env v1) λ started v2 e2.
              Ends-bind _ _ _ v2 (update_refund_store_lem env st tx _ v2)
                λ processing v3 (same, stored).
                  let p3 =
                    update_refund-Pending env laws order fits start _ (is_refunded created.status)
                      v2.tables v3.tables (processing-IsOf created started of_created) stored
                      (rw e2 p1) in
                  Ends-bind (Untouched v3.tables) _ _ v3 (send_refund-Untouched env g _ v3)
                    λ result v4 e4.
                      Ends-bind (Untouched v3.tables) _ _ v4 (rw (← e4) (new_uuid-Untouched env v4))
                        λ id v5 e5.
                          Ends-bind (Untouched v3.tables) _ _ v5 (rw (← e5) (now-Untouched env v5))
                            λ time v6 e6.
                              Ends-bind _ _ _ v6 (create_transaction_lem env st tx _ v6)
                                λ row v7 audited.
                                  let (same_payments, same_refunds) =
                                    transaction_alone env audited in
                                  settle_lem paid processing remaining result time v7
                                    (rw same (processing-IsOf created started of_created))
                                    (rw (ap Payment.amount s1.same) fine)
                                    (rw (ap Payment.id s1.same, ap Payment.amount s1.same) has)
                                    (same_tables-Pending env laws order fits start v6.tables
                                      v7.tables same_payments same_refunds
                                      (rw (e6, ap Refund.id same) p3))

-- The closure `persist`: when it succeeds, the amount was covered and the view has at most one entry
-- more.
module _ (env : Env) (laws : AmountLaws env) (order : RefundOrder) (fits : FitsScale order.amount)
    (st : Store) (tx : st.in_tx ≡ true) where
  pub record Persisted (t : Tables) (r : Refund) (t' : Tables) : Type 0 where
    pub locked : Payment
    pub checked : IsChecked env laws order fits st tx t locked
    pub refunded : Refunded env laws order fits t r t'

  pub persist_refund_lem :
      (g : PaymentGateway) (currency : Text) (id : Uuid) (time : Time) (w : World)
      → IsSound env w.tables
      → Ends
          (λ r v. Persisted w.tables r v.tables)
          Anything
          (persist_refund env
            (postgres env st)
            g
            order
            currency
            (new_refund order currency id time))
          w
  unfolding persist_refund new_refund refund_status_of
  persist_refund_lem g currency id time w sound =
      Ends-bind _ _ _ w (lock_and_check_lem env laws order fits st tx w sound)
        λ (locked, remaining) v (checked, same).
          Ends-weaken _ v
            (refund_locked_lem env laws order fits w.tables st tx g currency sound _ locked
              remaining v same (record { to_payment = refl; of_amount = refl; constant = refl })
              refl checked.is_locked.fits checked.is_locked.has)
            (λ r x done. record { locked = locked; checked = checked; refunded = done })
            (λ _ _ _. tt)
