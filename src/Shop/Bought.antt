-- ===== src/Shop/Bought.antt =====
-- A purchase: the buyer's row before and after. The services differ in what they check and in the
-- statements behind the payment.
use cifarm_server_alternativ.Prelude.{ℕ, ◌≡◌, ap, ◌∙◌, some, List, ◌∷◌, ℤ, ==_refl}
use cifarm_server_alternativ.Result.{ok}
use cifarm_server_alternativ.Entities.{UserEntity, UserChanges, patch}
use cifarm_server_alternativ.Database.{Database, DatabaseLaws, Statement, update_user, user_after}
use cifarm_server_alternativ.Service.{World, Handler}
use cifarm_server_alternativ.Service.Atomic.{Succeeds}
use cifarm_server_alternativ.Gameplay.Wallet.{check_sufficient_golds, subtract_golds}
use cifarm_server_alternativ.Gameplay.Wallet.Paid.{IsGoldPaid, subtract_golds-IsGoldPaid}

-- The user has paid `cost` golds between the states `s` and `s'`.
pub record IsPurchase (db : Database) (user_id : ℕ) (cost : ℤ) (s s' : db.State) : Type 0 where
  pub user : UserEntity
  pub user' : UserEntity
  pub user_before : db.find_user user_id s ≡ some user
  pub user_after : db.find_user user_id s' ≡ some user'
  pub paid : IsGoldPaid cost user user'

-- What a service has found out and written when it goes through.
pub record Bought (db : Database) (user_id : ℕ) (cost : ℤ) (s : db.State)
    (statements : List Statement) : Type 0 where
  pub user : UserEntity
  pub changes : UserChanges
  pub rest : List Statement
  pub user_found : db.find_user user_id s ≡ some user
  pub enough : check_sufficient_golds user.golds cost ≡ ok tt
  pub payable : subtract_golds user cost ≡ ok changes
  pub written : statements ≡ update_user user.id changes ∷ rest
  -- the other statements leave users alone
  pub no_users : (i : ℕ) (u : UserEntity) → user_after i rest u ≡ u

user_after-update_user :
    (u : UserEntity) (c : UserChanges) (rest : List Statement)
    → user_after u.id (update_user u.id c ∷ rest) u ≡ user_after u.id rest (patch c u)
unfolding user_after
user_after-update_user u c rest = rw (==_refl u.id)

pub Bought-IsPurchase :
    (db : Database) (laws : DatabaseLaws db) (user_id : ℕ) (cost : ℤ) (s s' : db.State)
    (statements : List Statement)
    → Bought db user_id cost s statements
    → db.commit statements s ≡ ok s'
    → IsPurchase db user_id cost s s'
Bought-IsPurchase db laws user_id cost s s' statements b committed =
    let uid = laws.found_user user_id s b.user b.user_found in
    let after : user_after user_id statements b.user ≡ patch b.changes b.user =
      rw (b.written, ← uid)
        (user_after-update_user b.user b.changes b.rest
          ∙ b.no_users b.user.id (patch b.changes b.user)) in
    record {
      user = b.user;
      user' = patch b.changes b.user;
      user_before = b.user_found;
      user_after =
          laws.commit_user user_id statements s s' b.user committed b.user_found ∙ ap some after;
      paid = subtract_golds-IsGoldPaid b.user cost b.enough b.payable;
    }

-- A handler that has gone through with such statements has made a purchase.
pub Succeeds-IsPurchase :
    (db : Database) (laws : DatabaseLaws db) {A : Type 0} (handler : Handler db A) (w w' : World db)
    (a : A) (user_id : ℕ) (cost : ℤ) (r : Succeeds db handler w w' a)
    → Bought db user_id cost w.state r.statements
    → IsPurchase db user_id cost w.state w'.state
Succeeds-IsPurchase db laws handler w w' a user_id cost r b =
    Bought-IsPurchase db laws user_id cost w.state w'.state r.statements b r.committed
