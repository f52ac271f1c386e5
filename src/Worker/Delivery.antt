-- ===== src/Worker/Delivery.antt =====
-- The worker of deliveries (apps/cron-worker/src/delivery), its scheduler
-- (apps/cron-scheduler/src/delivery) and the request to deliver at once
-- (apps/gameplay-service/src/dev/deliver-instantly). The lists that the transaction of the worker
-- waits for are filled by callbacks that nothing waits for, so they are empty when it commits: the
-- two statements for a user run after it, each on its own. An exception of a callback is one that
-- nothing handles: it ends the process, and here no user is paid by the job then.
pub mod Paid
pub mod Instantly
use cifarm_server_alternativ.Prelude.{
  ℕ, ◌≡◌, ◌≢◌, ◌==◌, Bool, true, false, not, Option, none, some, List, [], ◌∷◌, ◌++◌, length, map,
  take, drop, ℤ, pos, ◌+ℤ◌, ◌*ℤ◌, if◌then◌else◌,
}
use cifarm_server_alternativ.Result.{Result, ok, err, ◌>>=◌, deref}
use cifarm_server_alternativ.Entities.{UserEntity, UserChanges, patch, DeliveringProductEntity}
use cifarm_server_alternativ.Gameplay.Wallet
use cifarm_server_alternativ.Worker.Schedule.{Batch, delivery_batches}

pub record ProductEntity : Type 0 where
  pub is_premium : Bool
  pub gold_amount : ℤ
  pub token_amount : ℤ

-- A delivering product with the relation `product`, which is null when the product was removed.
pub record Delivery : Type 0 where
  pub row : DeliveringProductEntity
  pub product : Option ProductEntity

-- `DeliveryJobData`
pub record DeliveryJob : Type 0 where
  pub batch : Batch
  pub utc_time : ℤ

-- The rows, the cache and the queue that the three use.
pub record DeliveryStore : Type 1 where
  pub State : Type 0
  -- the users with deliveries, each once, in ascending order
  pub user_ids : State → List ℕ
  pub find_deliveries : ℕ → State → List Delivery
  pub find_user : ℕ → State → Option UserEntity
  pub update_user : ℕ → UserChanges → State → Result State
  pub delete_deliveries : ℕ → State → Result State
  -- `CacheKey.DeliverInstantly`
  pub delivers_instantly : State → Bool
  pub set_delivers_instantly : Bool → State → State
  pub add_bulk : List DeliveryJob → State → Result State

-- What is relied on of the rows and the cache: what a statement writes, and that it leaves the rest.
pub record DeliveryStoreLaws (store : DeliveryStore) : Type 0 where
  pub updated :
      (user_id : ℕ) (changes : UserChanges) (user : UserEntity) (s s' : store.State)
      → store.update_user user_id changes s ≡ ok s'
      → store.find_user user_id s ≡ some user
      → store.find_user user_id s' ≡ some (patch changes user)
  pub updated_other :
      (user_id : ℕ) (changes : UserChanges) (s s' : store.State) (other : ℕ)
      → store.update_user user_id changes s ≡ ok s'
      → other ≢ user_id
      → store.find_user other s' ≡ store.find_user other s
  pub updated_deliveries :
      (user_id : ℕ) (changes : UserChanges) (s s' : store.State) (other : ℕ)
      → store.update_user user_id changes s ≡ ok s'
      → store.find_deliveries other s' ≡ store.find_deliveries other s
  pub deleted :
      (user_id : ℕ) (s s' : store.State)
      → store.delete_deliveries user_id s ≡ ok s'
      → store.find_deliveries user_id s' ≡ []
  pub deleted_other :
      (user_id : ℕ) (s s' : store.State) (other : ℕ)
      → store.delete_deliveries user_id s ≡ ok s'
      → other ≢ user_id
      → store.find_deliveries other s' ≡ store.find_deliveries other s
  pub deleted_users :
      (user_id : ℕ) (s s' : store.State) (other : ℕ)
      → store.delete_deliveries user_id s ≡ ok s'
      → store.find_user other s' ≡ store.find_user other s
  pub set_get :
      (value : Bool) (s : store.State)
      → store.delivers_instantly (store.set_delivers_instantly value s) ≡ value

-- The callback of `reduce`, over the rows.
unfoldable pub add_amounts : ℤ → List Delivery → Result ℤ
add_amounts sum [] = ok sum
add_amounts sum (delivery ∷ rest) = deref delivery.product >>= λ product.
    add_amounts (sum +ℤ (product.token_amount *ℤ delivery.row.quantity)) rest

-- What a user is paid: `add` of the `TokenBalanceService`.
unfoldable pub payout : UserEntity → List Delivery → Result UserChanges
unfolding add_amounts
payout user deliveries = do
  total_token_amount ← add_amounts (pos 0) deliveries
  Wallet.add_tokens user total_token_amount

-- What a user is paid, by the id of the user.
pub record Payment : Type 0 where
  pub user_id : ℕ
  pub changes : UserChanges

module _ (store : DeliveryStore) where
  -- A callback of `forEach`, up to its statements: a user without deliveries or without a row is
  -- passed over.
  unfoldable pub payment : ℕ → store.State → Result (List Payment)
  unfolding payout
  payment user_id s = elim (store.find_deliveries user_id s) [
    | [] ↦ ok []
    | first ∷ rest ↦ elim (store.find_user user_id s) [
      | none ↦ ok []
      | some user ↦ do
        changes ← payout user (first ∷ rest)
        ok (record { user_id = user_id; changes = changes } ∷ [])
    ]
  ]

  -- The callbacks of `forEach`. They read the same rows: each waits for its queries, which are all
  -- sent before the first statement. What one of them throws, nothing catches.
  unfoldable pub payments : List ℕ → store.State → Result (List Payment)
  unfolding payment
  payments [] s = ok []
  payments (user_id ∷ rest) s = do
    first ← payment user_id s
    others ← payments rest s
    ok (first ++ others)

  -- A statement that fails leaves the rows.
  abbrev pub tried : Result store.State → store.State → store.State
  tried (err e) s = s
  tried (ok s') s = s'

  -- The update and the deletion of a user, each on its own.
  unfoldable pub pay : List Payment → store.State → store.State
  pay [] s = s
  pay (payment ∷ rest) s =
      let updated = tried (store.update_user payment.user_id payment.changes s) s in
      pay rest (tried (store.delete_deliveries payment.user_id updated) updated)

  -- `forEach`. An exception of a callback is an unhandled rejection, which ends the process of the
  -- worker, taken before any statement was sent.
  unfoldable pub deliver_users : List ℕ → store.State → Result (Unit {0}) × store.State
  unfolding payments pay
  deliver_users user_ids s = elim (payments user_ids s) [
    | err e ↦ (err e, s)
    | ok due ↦ (ok tt, pay due s)
  ]

  -- `DeliveryWorker.process`
  unfoldable pub process : Batch → store.State → Result (Unit {0}) × store.State
  unfolding deliver_users
  process batch s = deliver_users (take batch.take (drop batch.skip (store.user_ids s))) s

  abbrev pub delivery_jobs : ℤ → ℕ → List DeliveryJob
  delivery_jobs utc_now count =
      map (λ batch. record { batch = batch; utc_time = utc_now }) (delivery_batches count)

  -- `DeliveryService.handleDeliveryProducts`
  unfoldable pub handle_delivery_products : Bool → ℤ → store.State → Result (Unit {0}) × store.State
  handle_delivery_products is_leader utc_now s =
      let count = length (store.user_ids s) in
      let added = store.add_bulk (delivery_jobs utc_now count) s in
      if not is_leader
      then (ok tt, s)
      else if count == 0
      then (ok tt, s)
      else elim added [ err e ↦ (err e, s) | ok s' ↦ (ok tt, s') ]

  -- `DeliveryService.triggerDeliveryProducts`
  unfoldable pub trigger_delivery_products :
      (is_production is_leader : Bool) → ℤ → store.State → Result (Unit {0}) × store.State
  unfolding handle_delivery_products
  trigger_delivery_products is_production is_leader utc_now s =
      if is_production
      then (ok tt, s)
      else if store.delivers_instantly s
      then handle_delivery_products is_leader utc_now (store.set_delivers_instantly false s)
      else (ok tt, s)

  -- `DeliverInstantlyService.deliverInstantly`
  unfoldable pub deliver_instantly : store.State → store.State
  deliver_instantly s = store.set_delivers_instantly true s
