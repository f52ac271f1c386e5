-- ===== src/Shop/Tiles/Order.antt =====
-- Which kind of tile is bought, and what it costs.
use cifarm_server_alternativ.Prelude.{
  ℕ, ◌+◌, ◌≡◌, refl, ap, none, some, List, [], ◌∷◌, ◌++◌, ℤ, pos, ◌<ℤ◌, ◌≤ℤ◌, arith, inl, inr,
  Option-cases, ltb_ℤ, Bool-cases, true, All,
}
use cifarm_server_alternativ.Result.{ok, Result-cases}
use cifarm_server_alternativ.Entities.{TileEntity, PlacedItemType}
use cifarm_server_alternativ.Database.{
  Database, DatabaseLaws, Statement, user_after, insert_placed_item,
}
use cifarm_server_alternativ.Service.{Plan, World, perform}
use cifarm_server_alternativ.Service.Atomic.{perform-Succeeds}
use cifarm_server_alternativ.Gameplay.Wallet
use cifarm_server_alternativ.Shop.Bought.{IsPurchase, Bought, Succeeds-IsPurchase}
use cifarm_server_alternativ.Shop.Tiles.{determine_current_tile_id, buy_tile}

module _ (db : Database) (user_id : ℕ) (s : db.State) where
  -- How many tiles of a kind the user has, on the farm and in the inventory.
  abbrev pub owned : ℕ → ℤ
  owned tile_id =
      pos (db.count_placed_tiles user_id tile_id s + db.count_inventory_tiles user_id tile_id s)

  -- The user has as many tiles of the kind as are allowed.
  pub record IsFull (tile_id : ℕ) : Type 0 where
    pub tile : TileEntity
    pub found : db.find_tile tile_id s ≡ some tile
    pub full : tile.max_ownership ≤ℤ owned tile_id

  -- The kind is in the order, it has room, and all kinds before it are full.
  pub record IsNext (order : List ℕ) (tile_id : ℕ) : Type 0 where
    pub before : List ℕ
    pub after : List ℕ
    pub split : order ≡ before ++ tile_id ∷ after
    pub all_full : All IsFull before
    pub tile : TileEntity
    pub found : db.find_tile tile_id s ≡ some tile
    pub room : owned tile_id <ℤ tile.max_ownership

  pub determine_current_tile_id-IsNext :
      (order : List ℕ) {tile_id : ℕ}
      → determine_current_tile_id db user_id order s ≡ ok tile_id
      → IsNext order tile_id
  unfolding determine_current_tile_id
  determine_current_tile_id-IsNext [] h = absurd (ground arith)
  determine_current_tile_id-IsNext (first ∷ rest) {tile_id} h =
      elim (Option-cases (db.find_tile first s)) [
        | inl missing ↦ absurd (ground arith)
        | inr (tile, found) ↦ elim (Bool-cases (ltb_ℤ (owned first) tile.max_ownership)) [
          | inl room ↦ record {
            before = [];
            after = rest;
            split = ground arith;
            all_full = tt;
            tile = tile;
            found = ground arith;
            room = ground arith;
          }
          | inr full ↦
              let n = determine_current_tile_id-IsNext rest {tile_id = tile_id} (ground arith) in
              record {
                before = first ∷ n.before;
                after = n.after;
                split = ap (λ l. first ∷ l) n.split;
                all_full = (record { tile = tile; found = found; full = ground arith }, n.all_full);
                tile = n.tile;
                found = n.found;
                room = n.room;
              }
        ]
      ]

module _ (db : Database) (laws : DatabaseLaws db) (order : List ℕ) (user_id : ℕ) (x y : ℤ) where
  buy_tile-Bought :
      (s : db.State) (plan : Plan (Unit {0})) (statements : List Statement)
      → buy_tile db order user_id x y s ≡ ok plan
      → plan.statements ≡ ok statements
      → (tile_id : ℕ) × (tile : TileEntity) × IsNext db user_id s order tile_id
        × (db.find_tile tile_id s ≡ some tile)
        × (tile.available_in_shop ≡ true)
        × Bought db user_id (tile.price) s statements
  unfolding buy_tile user_after
  buy_tile-Bought s plan statements h ran =
      elim (Result-cases (determine_current_tile_id db user_id order s)) [
        | inl missing ↦ absurd (ground arith)
        | inr (tile_id, next) ↦ elim (Option-cases (db.find_tile tile_id s)) [
          | inl missing ↦ absurd (ground arith)
          | inr (tile, tile_found) ↦ elim (Option-cases (db.find_user user_id s)) [
            | inl missing ↦ absurd (ground arith)
            | inr (user, user_found) ↦
                elim (Option-cases (db.find_placed_item_type PlacedItemType.tile tile_id s)) [
                  | inl missing ↦ absurd (ground arith)
                  | inr (type_id, type_found) ↦
                      elim (Result-cases (Wallet.subtract_golds user tile.price)) [
                        | inl missing ↦ absurd (ground arith)
                        | inr (changes, payable) ↦ (
                          tile_id,
                          tile,
                          determine_current_tile_id-IsNext db user_id s order next,
                          tile_found,
                          ground arith,
                          record {
                            user = user;
                            changes = changes;
                            rest =
                                insert_placed_item (record {
                                  user_id = user_id;
                                  x = x;
                                  y = y;
                                  placed_item_type_id = type_id;
                                  parent_id = none;
                                  animal_id = none;
                                  building_info = none;
                                })
                                ∷ [];
                            user_found = user_found;
                            enough = ground arith;
                            payable = payable;
                            written = ground arith;
                            no_users = λ i u. refl;
                          },
                        )
                      ]
                ]
          ]
        ]
      ]

  -- On a database that meets the laws, a call of `buy_tile` that returns has taken the price of a
  -- tile off the golds of the user, which stay at 0 or more, and no energy, experiences, level or
  -- tokens. The kind of the tile is in the order, the user has fewer of it than the maximum and as
  -- many as the maximum, or more, of every kind before it, and it is available in the shop.
  pub buy_tile-IsPurchase :
      (w w' : World db)
      → perform db (buy_tile db order user_id x y) w ≡ (ok tt, w')
      → (tile_id : ℕ) × (tile : TileEntity) × IsNext db user_id w.state order tile_id
        × (db.find_tile tile_id w.state ≡ some tile)
        × (tile.available_in_shop ≡ true)
        × IsPurchase db user_id (tile.price) w.state w'.state
  buy_tile-IsPurchase w w' h =
      let r = perform-Succeeds db (buy_tile db order user_id x y) w w' tt h in
      let f = buy_tile-Bought w.state r.plan r.statements r.planned r.no_throw in
      (
        f.0,
        f.1,
        f.2,
        f.3,
        f.4,
        Succeeds-IsPurchase db laws (buy_tile db order user_id x y) w w' tt user_id (f.1.price) r
            f.5,
      )
