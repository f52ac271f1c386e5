-- ===== src/Tests/Stores/Parcels.antt =====
-- The rows of the worker of deliveries, as functions of the key of the user, and those of the other
-- workers.
use cifarm_server_alternativ.Prelude.{
  ℕ, zero, suc, get_elem?, ◌||◌, ◌≡◌, ◌≢◌, refl, sym, ap, ◌∙◌, Bool, true, false, Option, none,
  some, List, [], ◌∷◌, ◌++◌, ◌==◌, ==_refl, ==→eq, Bool-cases, inl, inr, arith, if◌then◌else◌,
}
use cifarm_server_alternativ.Result.{Result, ok, err, database_error, Exception}
use cifarm_server_alternativ.Entities.{
  UserEntity, UserChanges, patch, SeedGrowthInfoEntity, CropRandomness,
}
use cifarm_server_alternativ.Worker.Crop.{Grown}
use cifarm_server_alternativ.Worker.Delivery.{
  Delivery, DeliveryJob, DeliveryStore, DeliveryStoreLaws,
}
use cifarm_server_alternativ.Worker.Process.{WorkerStore, Created}
use cifarm_server_alternativ.Worker.Process.Stuck.{HasHalf}

pub record Parcels : Type 0 where
  pub user_ids : List ℕ
  pub users : ℕ → Option UserEntity
  pub deliveries : ℕ → List Delivery
  pub instantly : Bool
  pub queue : List DeliveryJob

abbrev patched : UserChanges → Option UserEntity → Option UserEntity
patched changes none = none
patched changes (some user) = some (patch changes user)

abbrev pub parcels : DeliveryStore
parcels = record {
  State = Parcels;
  user_ids = λ s. s.user_ids;
  find_deliveries = λ user_id s. s.deliveries user_id;
  find_user = λ user_id s. s.users user_id;
  update_user = λ user_id changes s. ok (record s {
    users = λ other. if other == user_id then patched changes (s.users other) else s.users other;
  });
  delete_deliveries = λ user_id s.
      ok (record s { deliveries = λ other. if other == user_id then [] else s.deliveries other });
  delivers_instantly = λ s. s.instantly;
  set_delivers_instantly = λ value s. record s { instantly = value };
  add_bulk = λ more s. ok (record s { queue = s.queue ++ more });
}

apart : (a b : ℕ) → a ≢ b → (a == b) ≡ false
apart a b differ = elim (Bool-cases (a == b)) [
  | inl same ↦ absurd (differ (==→eq a b same))
  | inr other ↦ other
]

abbrev content : Parcels → Result Parcels → Parcels
content s (err e) = s
content s (ok s') = s'

pub parcels_laws : DeliveryStoreLaws parcels
parcels_laws = record {
  updated = λ user_id changes user s s' done found.
      ap (λ t. (content s t).users user_id) (sym done) ∙ ground (arith, found, ==_refl user_id);
  updated_other = λ user_id changes s s' other done differ.
      ap (λ t. (content s t).users other) (sym done) ∙ ground (arith, apart other user_id differ);
  updated_deliveries =
      λ user_id changes s s' other done. ap (λ t. (content s t).deliveries other) (sym done);
  deleted = λ user_id s s' done.
      ap (λ t. (content s t).deliveries user_id) (sym done) ∙ ground (arith, ==_refl user_id);
  deleted_other = λ user_id s s' other done differ.
      ap (λ t. (content s t).deliveries other) (sym done)
      ∙ ground (arith, apart other user_id differ);
  deleted_users = λ user_id s s' other done. ap (λ t. (content s t).users other) (sym done);
  set_get = λ value s. refl;
}

pub record Fields : Type 0 where
  pub crops : List (Created SeedGrowthInfoEntity)
  pub chances : Option CropRandomness
  pub saved : List Grown

abbrev pub any_half : List Grown → Bool
any_half [] = false
any_half (row ∷ rest) = row.fraction || any_half rest

-- What a column of whole numbers does with a half.
abbrev pub whole_numbers : List Grown → Fields → Result Fields
whole_numbers rows s = if any_half rows then err database_error else ok (record s { saved = rows })

abbrev pub fields : WorkerStore
fields = record {
  State = Fields;
  crops = λ s. s.crops;
  animals = λ s. [];
  users = λ s. [];
  find_crop_randomness = λ s. s.chances;
  find_animal_randomness = λ s. none;
  find_energy_regen = λ s. none;
  save_crops = λ rows s. whole_numbers rows s;
  save_animals = λ rows s. ok s;
  save_users = λ rows s. ok s;
}

found_half :
    (rows : List Grown) (i : ℕ) (row : Grown)
    → get_elem? rows i ≡ some row
    → row.fraction ≡ true
    → any_half rows ≡ true
found_half [] i row there half = absurd (ground arith)
found_half (x ∷ xs) zero row there half = ground arith
found_half (x ∷ xs) (suc i) row there half = ground (arith, found_half xs i row there half)

pub halves_refused :
    (rows : List Grown) (s : Fields)
    → HasHalf rows
    → (e : Exception) × (fields.save_crops rows s ≡ err e)
halves_refused rows s (i, row, there, half) =
    (database_error, ground (arith, found_half rows i row there half))
