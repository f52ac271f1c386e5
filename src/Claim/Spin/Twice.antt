-- ===== src/Claim/Spin/Twice.antt =====
-- One turn a day.
use cifarm_server_alternativ.Prelude.{ℕ, ◌≡◌, true, ℤ, ◌-ℤ◌, ◌<ℤ◌, ltb_ℤ, arith}
use cifarm_server_alternativ.Result.{ok, err, grpc_permission_denied}
use cifarm_server_alternativ.Database.{Database, DatabaseLaws}
use cifarm_server_alternativ.Service.{World, perform}
use cifarm_server_alternativ.Claim.Spin.{spin, day}
use cifarm_server_alternativ.Claim.Spin.Turn.{spin-IsSpun}

module _ (db : Database) (denominator random second denominator' random' second' user_id : ℕ) where
  -- On a database that meets the laws, after a spin that returns, every spin of the same user in
  -- the next 24 hours is refused, whatever the random numbers, and changes nothing.
  pub spin_twice_refused :
      (now later : ℤ) (slot_id : ℕ) (w w' : World db)
      → DatabaseLaws db
      → perform db (spin db now denominator random second user_id) w ≡ (ok slot_id, w')
      → later -ℤ now <ℤ day
      → perform db (spin db later denominator' random' second' user_id) w'
        ≡ (err (grpc_permission_denied "Spin is blocked for 24 hours"), w')
  unfolding perform spin
  spin_twice_refused now later slot_id w w' laws h soon =
      let (user, user', slot, info, found, after, rested, eight, info_found, named, chance, spun) =
        spin-IsSpun db now denominator random second user_id laws w w' slot_id h in
      let last = spun.last in
      let within : ltb_ℤ (later -ℤ now) day ≡ true = ground arith in ground arith
