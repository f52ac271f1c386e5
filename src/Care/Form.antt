-- ===== src/Care/Form.antt =====
-- The form of the six handlers, for their proofs: each of them is `heal` at its own arguments.
use cifarm_server_alternativ.Prelude.{
  ℕ, ◌≡◌, ◌≢◌, pos, ◌≤ℤ◌, ◌<ℤ◌, true, Option, some, List, [], ◌∷◌, ◌++◌, sym, ap, ◌∙◌, not, arith,
  Option-cases, inl, inr, ==_refl,
}
use cifarm_server_alternativ.Result.{
  Exception, ok, err, ◌>>=◌, ◌>>◌, throw_if, or_throw, deref, Result-cases,
}
use cifarm_server_alternativ.Entities.{
  CropCurrentState, crop_state_eq, SeedGrowthInfoEntity, no_crop_changes, PlacedItemType,
  PlacedItemEntity, UserEntity, UserChanges, Activities, ActivityInfo, patch_crop, patch,
}
use cifarm_server_alternativ.Database.{
  Database, DatabaseLaws, with_crop, Statement, update_user, update_seed_growth_info, user_after,
  crop_after,
}
use cifarm_server_alternativ.Service.{Plan, Handler, World, perform, PlacedItemsMessage}
use cifarm_server_alternativ.Service.Atomic.{perform-Succeeds}
use cifarm_server_alternativ.Gameplay.Activity.{activity_changes}
use cifarm_server_alternativ.Gameplay.Activity.Paid.{
  activity_changes-IsPaid, activity_changes_total,
}
use cifarm_server_alternativ.Care.{Heals}

-- What differs between the handlers.
pub record HealArguments : Type 0 where
  pub user_id : ℕ
  pub farm_id : ℕ
  pub tile_id : ℕ
  pub type : Option PlacedItemType
  pub wanted : CropCurrentState
  pub activity : Activities → ActivityInfo
  pub missing : Exception
  pub unplanted : Exception
  pub unneeded : Exception
  pub messages : List PlacedItemsMessage

pub crop_state_eq→eq : (a b : CropCurrentState) → crop_state_eq a b ≡ true → a ≡ b
crop_state_eq→eq a b h = ground arith

pub crop_state_eq_refl : (a : CropCurrentState) → crop_state_eq a a ≡ true
crop_state_eq_refl a = ground arith

abbrev pub healed : ℕ → UserChanges → ℕ → List Statement
healed user_id changes crop_id =
    update_user user_id changes
    ∷ update_seed_growth_info crop_id
        (record no_crop_changes { current_state = some CropCurrentState.normal })
    ∷ []

user_after-healed :
    (u : UserEntity) (c : UserChanges) (i : ℕ) → user_after u.id (healed u.id c i) u ≡ patch c u
unfolding user_after
user_after-healed u c i = rw (==_refl u.id)

crop_after-healed :
    (i : ℕ) (c : UserChanges) (g : SeedGrowthInfoEntity)
    → crop_after g.id (healed i c g.id) (some g)
      ≡ some (record g { current_state = CropCurrentState.normal })
unfolding crop_after patch_crop
crop_after-healed i c g = rw (==_refl g.id)

module _ (db : Database) (args : HealArguments) where
  abbrev pub heal_where : (s : db.State) → Option PlacedItemEntity
  heal_where s =
      db.find_placed_item
        (record { id = args.tile_id; user_id = some args.farm_id; type = args.type }) with_crop s

  abbrev pub heal : Handler db (Unit {0})
  heal s = do
    placed_item_tile ←
        or_throw
          (db.find_placed_item
            (record { id = args.tile_id; user_id = some args.farm_id; type = args.type }) with_crop
            s)
          args.missing
    seed_growth_info ← or_throw placed_item_tile.seed_growth_info args.unplanted
    throw_if (not (crop_state_eq seed_growth_info.current_state args.wanted)) args.unneeded
    value ← deref (db.find_activities s)
    user ← deref (db.find_user args.user_id s)
    changes ← activity_changes user (args.activity value)
    ok (record {
      statements = ok (healed user.id changes seed_growth_info.id);
      messages = args.messages;
      response = tt;
    })

  -- What a plan has found.
  record Found (s : db.State) (plan : Plan (Unit {0})) : Type 0 where
    tile : PlacedItemEntity
    crop : SeedGrowthInfoEntity
    value : Activities
    user : UserEntity
    changes : UserChanges
    tile_found :
        db.find_placed_item
          (record { id = args.tile_id; user_id = some args.farm_id; type = args.type })
          with_crop
          s
        ≡ some tile
    planted : tile.seed_growth_info ≡ some crop
    needed : crop.current_state ≡ args.wanted
    priced : db.find_activities s ≡ some value
    user_found : db.find_user args.user_id s ≡ some user
    payable : activity_changes user (args.activity value) ≡ ok changes
    statements : plan.statements ≡ ok (healed user.id changes crop.id)
    messages : plan.messages ≡ args.messages

  heal-Found : (s : db.State) (plan : Plan (Unit {0})) → heal s ≡ ok plan → Found s plan
  heal-Found s plan h = elim (Option-cases (heal_where s)) [
    | inl missing ↦ absurd (ground arith)
    | inr (tile, tile_found) ↦ elim (Option-cases tile.seed_growth_info) [
      | inl unplanted ↦ absurd (ground arith)
      | inr (crop, planted) ↦ elim (Option-cases (db.find_activities s)) [
        | inl no_price ↦ absurd (ground arith)
        | inr (value, priced) ↦ elim (Option-cases (db.find_user args.user_id s)) [
          | inl no_user ↦ absurd (ground arith)
          | inr (user, user_found) ↦
              elim (Result-cases (activity_changes user (args.activity value))) [
                | inl (e, threw) ↦ absurd (ground arith)
                | inr (changes, payable) ↦ record {
                  tile = tile;
                  crop = crop;
                  value = value;
                  user = user;
                  changes = changes;
                  tile_found = tile_found;
                  planted = planted;
                  needed = crop_state_eq→eq crop.current_state args.wanted (ground arith);
                  priced = priced;
                  user_found = user_found;
                  payable = payable;
                  statements = ground arith;
                  messages = ground arith;
                }
              ]
        ]
      ]
    ]
  ]

  module _ (laws : DatabaseLaws db) (s s' : db.State) (plan : Plan (Unit {0}))
      (f : Found s plan) where
    Found-Heals :
        db.commit (healed f.user.id f.changes f.crop.id) s ≡ ok s'
        → Heals db args.wanted args.activity args.user_id args.farm_id args.tile_id s s'
    Found-Heals committed =
        let statements = healed f.user.id f.changes f.crop.id in
        let uid = laws.found_user args.user_id s f.user f.user_found in
        let found = laws.found_placed_item _ with_crop s f.tile f.tile_found in
        let before = laws.crop_loaded _ with_crop s f.tile f.crop f.tile_found f.planted in
        record {
          tile = f.tile;
          crop = f.crop;
          value = f.value;
          user = f.user;
          user' = patch f.changes f.user;
          tile_named = found.0;
          tile_owned = found.1;
          planted = f.planted;
          crop_before = before;
          state_before = f.needed;
          crop_after =
              laws.commit_crop f.crop.id statements s s' f.crop committed before
              ∙ crop_after-healed f.user.id f.changes f.crop;
          priced = f.priced;
          user_before = f.user_found;
          user_after =
              laws.commit_user args.user_id statements s s' f.user committed f.user_found
              ∙ rw (← uid) (ap some (user_after-healed f.user f.changes f.crop.id));
          paid = activity_changes-IsPaid f.user (args.activity f.value) f.payable;
        }

  -- A handler of this form that has returned has healed the crop, and has sent its messages.
  pub heal-Heals :
      DatabaseLaws db
      → (w w' : World db) → perform db heal w ≡ (ok tt, w')
      → Heals db args.wanted args.activity args.user_id args.farm_id args.tile_id w.state w'.state
        × (w'.sent ≡ w.sent ++ args.messages)
  heal-Heals laws w w' h =
      let r = perform-Succeeds db heal w w' tt h in
      let f = heal-Found w.state r.plan r.planned in
      let same : ok (healed f.user.id f.changes f.crop.id) ≡ ok r.statements =
        sym f.statements ∙ r.no_throw in
      let run : r.statements ≡ healed f.user.id f.changes f.crop.id = cc in
      let committed : db.commit (healed f.user.id f.changes f.crop.id) w.state ≡ ok w'.state =
        rw (← run) r.committed in
      (Found-Heals laws w.state w'.state r.plan f committed, rw (← f.messages) r.messages)

  -- What lets a handler of this form go through.
  pub record Ready (s : db.State) : Type 0 where
    pub tile : PlacedItemEntity
    pub crop : SeedGrowthInfoEntity
    pub value : Activities
    pub user : UserEntity
    pub tile_found : heal_where s ≡ some tile
    pub planted : tile.seed_growth_info ≡ some crop
    pub needed : crop.current_state ≡ args.wanted
    pub priced : db.find_activities s ≡ some value
    pub user_found : db.find_user args.user_id s ≡ some user
    pub enough : (args.activity value).energy_consume ≤ℤ user.energy
    pub gains : pos 0 <ℤ (args.activity value).experiences_gain

  -- It returns, if the database accepts its transaction.
  pub heal_returns :
      (w : World db)
      → Ready w.state
      → ((statements : List Statement) → (s' : db.State) × (db.commit statements w.state ≡ ok s'))
      → (perform db heal w).0 ≡ ok tt
  unfolding perform
  heal_returns w r accepts =
      let (changes, payable) =
        activity_changes_total r.user (args.activity r.value) r.enough r.gains in
      let (s', committed) = accepts (healed r.user.id changes r.crop.id) in
      ground (
        arith,
        r.tile_found,
        r.planted,
        r.needed,
        crop_state_eq_refl args.wanted,
        r.priced,
        r.user_found,
        payable,
        committed,
      )

  -- On a crop in any other state it throws, and changes nothing.
  pub heal_refuses :
      (w : World db) (tile : PlacedItemEntity) (crop : SeedGrowthInfoEntity)
      → heal_where w.state ≡ some tile
      → tile.seed_growth_info ≡ some crop
      → crop.current_state ≢ args.wanted
      → perform db heal w ≡ (err args.unneeded, w)
  unfolding perform
  heal_refuses w tile crop found planted other =
      ground (arith, crop_state_eq→eq crop.current_state args.wanted)
