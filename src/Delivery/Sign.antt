-- ===== src/Delivery/Sign.antt =====
-- What a delivery does to the quantities of the user.
use cifarm_server_alternativ.Prelude.{
  ℕ, ◌≡◌, refl, true, some, none, List, [], ◌∷◌, ℤ, pos, ◌+ℤ◌, ◌-ℤ◌, ◌<ℤ◌, ◌≤ℤ◌, arith, -ℤ_parts,
}
use cifarm_server_alternativ.Result.{ok}
use cifarm_server_alternativ.Entities.{
  InventoryEntity, InventoryTypeEntity, DeliveringProductEntity,
}
use cifarm_server_alternativ.Database.{
  Database, Statement, any_inventory, save_inventories, insert_delivering_product,
}
use cifarm_server_alternativ.Service.{Plan}
use cifarm_server_alternativ.Delivery.{delivered_from, deliver_product}

-- What is left in the inventory after a statement that removes or saves it.
abbrev pub left_over : Statement → ℤ
left_over (save_inventories (inventory ∷ [])) = inventory.quantity
left_over _ = pos 0

module _ (db : Database) (user_id inventory_id : ℕ) (quantity index : ℤ) where
  -- What is written when a delivery goes through.
  pub record IsDelivered (s : db.State) (statements : List Statement) : Type 0 where
    pub inventory : InventoryEntity
    pub type : InventoryTypeEntity
    pub product : DeliveringProductEntity
    pub inventory_found :
        db.find_inventory
          (record any_inventory { id = some inventory_id; user_id = some user_id })
          s
        ≡ some inventory
    pub type_found : inventory.inventory_type ≡ some type
    pub deliverable : type.deliverable ≡ true
    pub enough : quantity ≤ℤ inventory.quantity
    pub kept : Statement
    pub written : statements ≡ kept ∷ insert_delivering_product product ∷ []
    -- what leaves the inventory is what is sent, with the same owner and quality
    pub conserved : left_over kept +ℤ product.quantity ≡ inventory.quantity
    pub not_negative : pos 0 ≤ℤ left_over kept
    pub sent : product.quantity ≡ quantity
    pub same_owner : product.user_id ≡ user_id
    pub same_premium : product.premium ≡ inventory.premium
    pub same_product : product.product_id ≡ type.product_id

  left_over-delivered_from : (i : InventoryEntity) → left_over (delivered_from i) ≡ i.quantity
  unfolding delivered_from
  left_over-delivered_from i = ground arith

  -- With a quantity below 0, an inventory that is found, is not negative and has a deliverable
  -- type, `deliver_product` plans to write more into the inventory than was there.
  pub negative_delivery :
      (s : db.State) (inventory : InventoryEntity) (type : InventoryTypeEntity)
      → db.find_inventory
          (record any_inventory { id = some inventory_id; user_id = some user_id })
          s
        ≡ some inventory
      → inventory.inventory_type ≡ some type
      → type.deliverable ≡ true
      → pos 0 ≤ℤ inventory.quantity
      → quantity <ℤ pos 0
      → (plan : Plan (Unit {0})) × (kept : Statement) × (rest : List Statement) × (deliver_product
            db user_id inventory_id quantity index s
          ≡ ok plan)
        × (plan.statements ≡ ok (kept ∷ rest))
        × (inventory.quantity <ℤ left_over kept)
  unfolding deliver_product
  negative_delivery s inventory type found type_found deliverable held negative =
      let after = record inventory { quantity = inventory.quantity -ℤ quantity } in
      let product : DeliveringProductEntity = record {
        id = none;
        user_id = user_id;
        quantity = quantity;
        premium = inventory.premium;
        index = index;
        product_id = type.product_id;
      } in
      let left = left_over-delivered_from after in
      (
        record {
          statements = ok (delivered_from after ∷ insert_delivering_product product ∷ []);
          messages = [];
          response = tt;
        },
        delivered_from after,
        insert_delivering_product product ∷ [],
        ground arith,
        refl,
        rw left (let parts = -ℤ_parts inventory.quantity quantity in ground arith),
      )
