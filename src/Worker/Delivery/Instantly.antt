-- ===== src/Worker/Delivery/Instantly.antt =====
-- A request to deliver at once (apps/gameplay-service/src/dev/deliver-instantly), which the instances
-- of the scheduler look for every second.
use cifarm_server_alternativ.Prelude.{◌≡◌, Bool, true, false, ℤ, arith}
use cifarm_server_alternativ.Result.{ok}
use cifarm_server_alternativ.Worker.Delivery.{
  DeliveryStore, DeliveryStoreLaws, trigger_delivery_products, handle_delivery_products,
  deliver_instantly,
}

-- Where the flag can be read back, the first instance outside production that looks for a request
-- takes it off: the leader hands the deliveries out, any other does nothing, and the next instance
-- to look, the leader or not, finds nothing to do.
pub instantly_lost :
    (store : DeliveryStore)
    → DeliveryStoreLaws store
    → (is_leader : Bool) (now later : ℤ) (s : store.State)
    → (trigger_delivery_products store false true now (deliver_instantly store s)
        ≡ handle_delivery_products store true now
            (store.set_delivers_instantly false (deliver_instantly store s)))
      × (trigger_delivery_products store false false now (deliver_instantly store s)
          ≡ (ok tt, store.set_delivers_instantly false (deliver_instantly store s)))
      × (trigger_delivery_products store false is_leader later
            (store.set_delivers_instantly false (deliver_instantly store s))
          ≡ (ok tt, store.set_delivers_instantly false (deliver_instantly store s)))
unfolding trigger_delivery_products deliver_instantly handle_delivery_products
instantly_lost store laws is_leader now later s =
    let on = laws.set_get true s in
    let off = laws.set_get false (store.set_delivers_instantly true s) in
    (ground (arith, on), ground (arith, on), ground (arith, off))
