-- ===== src/Service.antt =====
-- The form that every handler of gameplay-service has. It reads through queries and may throw; then
-- one transaction runs its statements, inside `try`/`catch` with a rollback; then it sends messages
-- to the broker and returns. A handler of the model is the reading part: it ends in a `Plan`.
pub mod Atomic
use cifarm_server_alternativ.Prelude.{ℕ, Option, List, ◌++◌}
use cifarm_server_alternativ.Result.{Result, ok, err, ◌>>=◌, transaction_failed}
use cifarm_server_alternativ.Database.{Database, Statement}

-- The payload of `KafkaPattern.PlacedItems`, by its keys.
pub record PlacedItemsMessage : Type 0 where
  pub user_id : Option ℕ
  pub neighbor_user_id : Option ℕ

-- `statements` fails where the code inside the `try` throws before the commit.
pub record Plan (A : Type 0) : Type 0 where
  pub statements : Result (List Statement)
  pub messages : List PlacedItemsMessage
  pub response : A

pub record World (db : Database) : Type 0 where
  pub state : db.State
  pub sent : List PlacedItemsMessage

abbrev pub Handler : Database → Type 0 → Type 0
Handler db A = db.State → Result (Plan A)

module _ (db : Database) where
  -- From `startTransaction` on, at a state which may be a later one than that of the queries. That a
  -- rollback undoes the statements, and a failed commit too, is the database's: the state is then the
  -- one before. Which handlers have statements outside a transaction shows in their definitions.
  unfoldable pub finish : {A : Type 0} → Plan A → World db → Result A × World db
  finish plan w = elim (plan.statements >>= λ statements. db.commit statements w.state) [
    | err e ↦ (err (transaction_failed e), w)
    | ok s ↦ (ok plan.response, record { state = s; sent = w.sent ++ plan.messages })
  ]

  unfoldable pub perform : {A : Type 0} → Handler db A → World db → Result A × World db
  unfolding finish
  perform handler w = elim (handler w.state) [ err e ↦ (err e, w) | ok plan ↦ finish plan w ]

  -- A transaction that is started and neither committed nor rolled back: whether its statements run
  -- is read off `commit`. The state is what other connections see as long as nothing commits on this
  -- one, which goes back to the pool with the transaction open; that a later commit on it takes the
  -- statements along is not modelled.
  unfoldable pub left_open : {A : Type 0} → Plan A → World db → Result A × World db
  left_open plan w = elim (plan.statements >>= λ statements. db.commit statements w.state) [
    | err e ↦ (err (transaction_failed e), w)
    | ok s ↦ (ok plan.response, w)
  ]
