-- ===== src/Service/Atomic.antt =====
-- How a call that returns has succeeded: through one commit of the statements that it has planned.
use cifarm_server_alternativ.Prelude.{◌≡◌, List, ◌++◌, inl, inr, arith}
use cifarm_server_alternativ.Result.{ok, Result-cases}
use cifarm_server_alternativ.Database.{Database, Statement}
use cifarm_server_alternativ.Service.{Plan, World, Handler, finish, perform}

module _ (db : Database) {A : Type 0} where
  -- How a handler has succeeded.
  pub record Succeeds (handler : Handler db A) (w w' : World db) (a : A) : Type 0 where
    pub plan : Plan A
    pub statements : List Statement
    pub planned : handler w.state ≡ ok plan
    pub no_throw : plan.statements ≡ ok statements
    pub committed : db.commit statements w.state ≡ ok w'.state
    pub messages : w'.sent ≡ w.sent ++ plan.messages
    pub returned : plan.response ≡ a

  pub finish-Succeeds :
      (handler : Handler db A) (w w' : World db) (a : A) (plan : Plan A)
      → handler w.state ≡ ok plan
      → finish db plan w ≡ (ok a, w')
      → Succeeds handler w w' a
  unfolding finish
  finish-Succeeds handler w w' a plan planned h = elim (Result-cases plan.statements) [
    | inl (e, threw) ↦ absurd (ground arith)
    | inr (ss, ran) ↦ elim (Result-cases (db.commit ss w.state)) [
      | inl (e, refused) ↦ absurd (ground arith)
      | inr (s, done) ↦ record {
        plan = plan;
        statements = ss;
        planned = planned;
        no_throw = ran;
        committed = ground arith;
        messages = ground arith;
        returned = ground arith;
      }
    ]
  ]

  pub perform-Succeeds :
      (handler : Handler db A) (w w' : World db) (a : A)
      → perform db handler w ≡ (ok a, w')
      → Succeeds handler w w' a
  unfolding perform
  perform-Succeeds handler w w' a h = elim (Result-cases (handler w.state)) [
    | inl (e, threw) ↦ absurd (ground arith)
    | inr (plan, planned) ↦ finish-Succeeds handler w w' a plan planned (ground arith)
  ]
