-- ===== src/Tests/Memory/Run.antt =====
-- What statements do to the rows that are found.
use cifarm_server_alternativ.Prelude.{ℕ, ◌≡◌, refl, ap, sym, ◌∙◌, Option, none, some, List, [], ◌∷◌}
use cifarm_server_alternativ.Entities.{
  UserEntity, patch, SeedGrowthInfoEntity, patch_crop, AnimalInfoEntity, patch_animal,
}
use cifarm_server_alternativ.Database.{
  Statement, user_after, crop_after, animal_after, update_user, update_seed_growth_info,
  remove_seed_growth_info, update_animal_info, insert_seed_growth_info, update_inventory,
  save_inventories, remove_inventory, insert_placed_item, save_building_info,
  insert_delivering_product, remove_delivering_product, update_placed_item, delete_placed_item,
  insert_following, delete_following,
}
use cifarm_server_alternativ.Tests.Memory.{Tables, run, run_all, user_row, crop_row, animal_row}
use cifarm_server_alternativ.Tests.Memory.Rows.{first-updated, none-updated, first-every}

run_user :
    (k : ℕ) (statement : Statement) (t : Tables) (r : UserEntity)
    → user_row k t ≡ some r
    → user_row k (run statement t) ≡ some (user_after k (statement ∷ []) r)
unfolding run user_after patch
run_user k (update_user i c) t r h =
    first-updated (λ (u : UserEntity). u.id) k i (patch c) (λ u. refl) t.users h
run_user k (update_seed_growth_info i c) t r h = h
run_user k (insert_seed_growth_info n) t r h = h
run_user k (remove_seed_growth_info i) t r h = h
run_user k (update_animal_info i c) t r h = h
run_user k (update_inventory i q) t r h = h
run_user k (save_inventories l) t r h = h
run_user k (remove_inventory v) t r h = h
run_user k (insert_placed_item n) t r h = h
run_user k (save_building_info v) t r h = h
run_user k (insert_delivering_product v) t r h = h
run_user k (remove_delivering_product v) t r h = h
run_user k (update_placed_item i x y) t r h = h
run_user k (delete_placed_item i v) t r h = h
run_user k (insert_following v w) t r h = h
run_user k (delete_following v w) t r h = h

run_crop :
    (k : ℕ) (statement : Statement) (t : Tables) (r : Option SeedGrowthInfoEntity)
    → crop_row k t ≡ r
    → crop_row k (run statement t) ≡ crop_after k (statement ∷ []) r
unfolding run crop_after patch_crop
run_crop k (update_user i c) t r h = h
run_crop k (update_seed_growth_info i c) t none h =
    none-updated (λ (g : SeedGrowthInfoEntity). g.id) k i (patch_crop c) (λ g. refl) t.crops h
run_crop k (update_seed_growth_info i c) t (some r) h =
    first-updated (λ (g : SeedGrowthInfoEntity). g.id) k i (patch_crop c) (λ g. refl) t.crops h
run_crop k (insert_seed_growth_info n) t r h = h
run_crop k (remove_seed_growth_info i) t r h =
    first-every (λ (g : SeedGrowthInfoEntity). g.id) k i t.crops h
run_crop k (update_animal_info i c) t r h = h
run_crop k (update_inventory i q) t r h = h
run_crop k (save_inventories l) t r h = h
run_crop k (remove_inventory v) t r h = h
run_crop k (insert_placed_item n) t r h = h
run_crop k (save_building_info v) t r h = h
run_crop k (insert_delivering_product v) t r h = h
run_crop k (remove_delivering_product v) t r h = h
run_crop k (update_placed_item i x y) t r h = h
run_crop k (delete_placed_item i v) t r h = h
run_crop k (insert_following v w) t r h = h
run_crop k (delete_following v w) t r h = h

run_animal :
    (k : ℕ) (statement : Statement) (t : Tables) (r : AnimalInfoEntity)
    → animal_row k t ≡ some r
    → animal_row k (run statement t) ≡ some (animal_after k (statement ∷ []) r)
unfolding run animal_after patch_animal
run_animal k (update_user i c) t r h = h
run_animal k (update_seed_growth_info i c) t r h = h
run_animal k (insert_seed_growth_info n) t r h = h
run_animal k (remove_seed_growth_info i) t r h = h
run_animal k (update_animal_info i c) t r h =
    first-updated (λ (a : AnimalInfoEntity). a.id) k i (patch_animal c) (λ a. refl) t.animals h
run_animal k (update_inventory i q) t r h = h
run_animal k (save_inventories l) t r h = h
run_animal k (remove_inventory v) t r h = h
run_animal k (insert_placed_item n) t r h = h
run_animal k (save_building_info v) t r h = h
run_animal k (insert_delivering_product v) t r h = h
run_animal k (remove_delivering_product v) t r h = h
run_animal k (update_placed_item i x y) t r h = h
run_animal k (delete_placed_item i v) t r h = h
run_animal k (insert_following v w) t r h = h
run_animal k (delete_following v w) t r h = h

user_after-cons :
    (k : ℕ) (statement : Statement) (rest : List Statement) (r : UserEntity)
    → user_after k (statement ∷ rest) r ≡ user_after k rest (user_after k (statement ∷ []) r)
unfolding user_after
user_after-cons k (update_user i c) rest r = refl
user_after-cons k (update_seed_growth_info i c) rest r = refl
user_after-cons k (insert_seed_growth_info n) rest r = refl
user_after-cons k (remove_seed_growth_info i) rest r = refl
user_after-cons k (update_animal_info i c) rest r = refl
user_after-cons k (update_inventory i q) rest r = refl
user_after-cons k (save_inventories l) rest r = refl
user_after-cons k (remove_inventory v) rest r = refl
user_after-cons k (insert_placed_item n) rest r = refl
user_after-cons k (save_building_info v) rest r = refl
user_after-cons k (insert_delivering_product v) rest r = refl
user_after-cons k (remove_delivering_product v) rest r = refl
user_after-cons k (update_placed_item i x y) rest r = refl
user_after-cons k (delete_placed_item i v) rest r = refl
user_after-cons k (insert_following v w) rest r = refl
user_after-cons k (delete_following v w) rest r = refl

pub run_all_user :
    (k : ℕ) (statements : List Statement) (t : Tables) (r : UserEntity)
    → user_row k t ≡ some r
    → user_row k (run_all statements t) ≡ some (user_after k statements r)
unfolding run_all user_after
run_all_user k [] t r h = h
run_all_user k (statement ∷ rest) t r h =
    run_all_user k rest (run statement t) (user_after k (statement ∷ []) r)
      (run_user k statement t r h)
    ∙ ap some (sym (user_after-cons k statement rest r))

crop_after-cons :
    (k : ℕ) (statement : Statement) (rest : List Statement) (r : Option SeedGrowthInfoEntity)
    → crop_after k (statement ∷ rest) r ≡ crop_after k rest (crop_after k (statement ∷ []) r)
unfolding crop_after
crop_after-cons k (update_user i c) rest r = refl
crop_after-cons k (update_seed_growth_info i c) rest none = refl
crop_after-cons k (update_seed_growth_info i c) rest (some r) = refl
crop_after-cons k (insert_seed_growth_info n) rest r = refl
crop_after-cons k (remove_seed_growth_info i) rest r = refl
crop_after-cons k (update_animal_info i c) rest r = refl
crop_after-cons k (update_inventory i q) rest r = refl
crop_after-cons k (save_inventories l) rest r = refl
crop_after-cons k (remove_inventory v) rest r = refl
crop_after-cons k (insert_placed_item n) rest r = refl
crop_after-cons k (save_building_info v) rest r = refl
crop_after-cons k (insert_delivering_product v) rest r = refl
crop_after-cons k (remove_delivering_product v) rest r = refl
crop_after-cons k (update_placed_item i x y) rest r = refl
crop_after-cons k (delete_placed_item i v) rest r = refl
crop_after-cons k (insert_following v w) rest r = refl
crop_after-cons k (delete_following v w) rest r = refl

pub run_all_crop :
    (k : ℕ) (statements : List Statement) (t : Tables) (r : Option SeedGrowthInfoEntity)
    → crop_row k t ≡ r
    → crop_row k (run_all statements t) ≡ crop_after k statements r
unfolding run_all crop_after
run_all_crop k [] t r h = h
run_all_crop k (statement ∷ rest) t r h =
    run_all_crop k rest (run statement t) (crop_after k (statement ∷ []) r)
      (run_crop k statement t r h)
    ∙ (sym (crop_after-cons k statement rest r))

animal_after-cons :
    (k : ℕ) (statement : Statement) (rest : List Statement) (r : AnimalInfoEntity)
    → animal_after k (statement ∷ rest) r ≡ animal_after k rest (animal_after k (statement ∷ []) r)
unfolding animal_after
animal_after-cons k (update_user i c) rest r = refl
animal_after-cons k (update_seed_growth_info i c) rest r = refl
animal_after-cons k (insert_seed_growth_info n) rest r = refl
animal_after-cons k (remove_seed_growth_info i) rest r = refl
animal_after-cons k (update_animal_info i c) rest r = refl
animal_after-cons k (update_inventory i q) rest r = refl
animal_after-cons k (save_inventories l) rest r = refl
animal_after-cons k (remove_inventory v) rest r = refl
animal_after-cons k (insert_placed_item n) rest r = refl
animal_after-cons k (save_building_info v) rest r = refl
animal_after-cons k (insert_delivering_product v) rest r = refl
animal_after-cons k (remove_delivering_product v) rest r = refl
animal_after-cons k (update_placed_item i x y) rest r = refl
animal_after-cons k (delete_placed_item i v) rest r = refl
animal_after-cons k (insert_following v w) rest r = refl
animal_after-cons k (delete_following v w) rest r = refl

pub run_all_animal :
    (k : ℕ) (statements : List Statement) (t : Tables) (r : AnimalInfoEntity)
    → animal_row k t ≡ some r
    → animal_row k (run_all statements t) ≡ some (animal_after k statements r)
unfolding run_all animal_after
run_all_animal k [] t r h = h
run_all_animal k (statement ∷ rest) t r h =
    run_all_animal k rest (run statement t) (animal_after k (statement ∷ []) r)
      (run_animal k statement t r h)
    ∙ ap some (sym (animal_after-cons k statement rest r))
