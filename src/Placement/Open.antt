-- ===== src/Placement/Open.antt =====
-- The transactions of `move` and `unfollow`, which nothing commits.
use cifarm_server_alternativ.Prelude.{
  ℕ, ◌≡◌, ==_refl, List, [], ◌∷◌, some, none, Bool, arith, inl, inr, false, Option-cases,
}
use cifarm_server_alternativ.Result.{ok, Result-cases}
use cifarm_server_alternativ.Entities.{PlacedItemEntity, UserEntity, Position}
use cifarm_server_alternativ.Database.{
  Database, Statement, no_relations, update_placed_item, insert_following,
}
use cifarm_server_alternativ.Service.{World, left_open}
use cifarm_server_alternativ.Placement.{move, move_plan}
use cifarm_server_alternativ.Community.Follow.{follow, unfollow}

module _ (db : Database) (placed_item_id user_id : ℕ) (position : Position) where
  -- Where the placed item is found and belongs to the user, and the database accepts every
  -- statement, `move` returns and leaves the database as it was.
  pub move_without_effect :
      (w : World db) (item : PlacedItemEntity) (user : UserEntity)
      → db.find_user user_id w.state ≡ some user
      → db.find_placed_item
          (record { id = placed_item_id; user_id = none; type = none })
          no_relations
          w.state
        ≡ some item
      → item.user_id ≡ user.id
      → ((statements : List Statement) → (s' : db.State) × (db.commit statements w.state ≡ ok s'))
      → move db placed_item_id user_id position w ≡ (ok tt, w)
  unfolding move move_plan left_open
  move_without_effect w item user user_found found owned accepts =
      let (s', done) = accepts (update_placed_item placed_item_id position.x position.y ∷ []) in
      ground (arith, user_found, found, owned, done, ==_refl user.id)

-- A call of `follow` that returns has found another user and committed the new following; an
-- `unfollow` of the same users, whose transaction is left open, does not take it back.
pub follow_stays :
    (db : Database) (same : ℕ → ℕ → Bool) (user_id followed_user_id : ℕ) (w w' : World db)
    → follow db same user_id followed_user_id w ≡ (ok tt, w')
    → (same user_id followed_user_id ≡ false)
      × ((user : UserEntity) × (db.find_user followed_user_id w.state ≡ some user))
      × (db.commit (insert_following user_id followed_user_id ∷ []) w.state ≡ ok w'.state)
      × (w'.sent ≡ w.sent)
      × ((unfollow db same user_id followed_user_id w').1 ≡ w')
unfolding follow unfollow left_open
follow_stays db same user_id followed_user_id w w' h =
    elim (Option-cases (db.find_user followed_user_id w.state)) [
      | inl missing ↦ absurd (ground arith)
      | inr (user, found) ↦
          elim (Result-cases (db.commit (insert_following user_id followed_user_id ∷ []) w.state)) [
            | inl (e, threw) ↦ absurd (ground arith)
            | inr (s', saved) ↦
                (ground arith, (user, found), ground arith, ground arith, ground arith)
          ]
    ]
