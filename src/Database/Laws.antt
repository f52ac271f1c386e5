-- ===== src/Database/Laws.antt =====
-- What the theorems rely on of the database: a query returns rows that meet its criteria and loads
-- the relations that it names and no other, and a commit applies its statements to the rows.
use cifarm_server_alternativ.Prelude.{ℕ, ◌≡◌, none, some, List, false}
use cifarm_server_alternativ.Result.{ok}
use cifarm_server_alternativ.Entities.{
  UserEntity, PlacedItemEntity, SeedGrowthInfoEntity, AnimalInfoEntity,
}
use cifarm_server_alternativ.Database.Query.{PlacedItemWhere, Relations, Meets}
use cifarm_server_alternativ.Database.Statements.{Statement, user_after, crop_after, animal_after}
use cifarm_server_alternativ.Database.Interface.{Database}

pub record DatabaseLaws (db : Database) : Type 0 where
  pub found_placed_item :
      (w : PlacedItemWhere) (r : Relations) (s : db.State) (p : PlacedItemEntity)
      → db.find_placed_item w r s ≡ some p
      → (p.id ≡ w.id) × Meets w.user_id p.user_id × Meets w.type p.type
  pub crop_not_loaded :
      (w : PlacedItemWhere) (r : Relations) (s : db.State) (p : PlacedItemEntity)
      → db.find_placed_item w r s ≡ some p
      → r.seed_growth_info ≡ false
      → p.seed_growth_info ≡ none
  pub crop_loaded :
      (w : PlacedItemWhere) (r : Relations) (s : db.State) (p : PlacedItemEntity)
      (g : SeedGrowthInfoEntity)
      → db.find_placed_item w r s ≡ some p
      → p.seed_growth_info ≡ some g
      → db.crop_row g.id s ≡ some g
  pub animal_loaded :
      (w : PlacedItemWhere) (r : Relations) (s : db.State) (p : PlacedItemEntity)
      (a : AnimalInfoEntity)
      → db.find_placed_item w r s ≡ some p
      → p.animal_info ≡ some a
      → db.animal_row a.id s ≡ some a
  pub found_user : (i : ℕ) (s : db.State) (u : UserEntity) → db.find_user i s ≡ some u → u.id ≡ i
  pub commit_user :
      (i : ℕ) (statements : List Statement) (s s' : db.State) (u : UserEntity)
      → db.commit statements s ≡ ok s'
      → db.find_user i s ≡ some u
      → db.find_user i s' ≡ some (user_after i statements u)
  pub commit_crop :
      (i : ℕ) (statements : List Statement) (s s' : db.State) (g : SeedGrowthInfoEntity)
      → db.commit statements s ≡ ok s'
      → db.crop_row i s ≡ some g
      → db.crop_row i s' ≡ crop_after i statements (some g)
  pub commit_animal :
      (i : ℕ) (statements : List Statement) (s s' : db.State) (a : AnimalInfoEntity)
      → db.commit statements s ≡ ok s'
      → db.animal_row i s ≡ some a
      → db.animal_row i s' ≡ some (animal_after i statements a)
