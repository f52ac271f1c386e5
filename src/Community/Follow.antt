-- ===== src/Community/Follow.antt =====
-- `FollowService` and `UnfollowService` (apps/gameplay-service/src/community/follow and unfollow).
-- Whether two ids are the same but for case is `String.localeCompare`, a parameter.
use cifarm_server_alternativ.Prelude.{ℕ, Bool, [], ◌∷◌, if◌then◌else◌}
use cifarm_server_alternativ.Result.{
  Result, ok, err, is_some, grpc_not_found, grpc_failed_precondition,
}
use cifarm_server_alternativ.Database.{Database, insert_following, delete_following}
use cifarm_server_alternativ.Service.{World, left_open}

module _ (db : Database) (same_but_for_case : ℕ → ℕ → Bool) where
  -- The `save` runs on its own, outside any `try`.
  unfoldable pub follow : (user_id followed_user_id : ℕ) → World db → Result (Unit {0}) × World db
  follow user_id followed_user_id w =
      let saved = db.commit (insert_following user_id followed_user_id ∷ []) w.state in
      if same_but_for_case user_id followed_user_id
      then (err (grpc_failed_precondition "Cannot follow self"), w)
      else if is_some (db.find_user followed_user_id w.state)
      then elim saved [ err e ↦ (err e, w) | ok s ↦ (ok tt, record w { state = s }) ]
      else (err (grpc_not_found "User not found"), w)

  unfoldable pub unfollow :
      (user_id unfollowed_user_id : ℕ) → World db → Result (Unit {0}) × World db
  unfolding left_open
  unfollow user_id unfollowed_user_id w =
      left_open db
        (record {
          statements = ok (delete_following user_id unfollowed_user_id ∷ []);
          messages = [];
          response = tt;
        })
        w
