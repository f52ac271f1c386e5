-- ===== src/Tests/Memory/Laws.antt =====
-- The database in memory meets the laws.
use cifarm_server_alternativ.Prelude.{
  ℕ, ◌≡◌, refl, ap, sym, ◌∙◌, Bool, true, false, Option, none, some, ◌==◌, arith, ==→eq,
  Option-cases, inl, inr,
}
use mathlib.Core.Path.{subst}
use cifarm_server_alternativ.Result.{ok}
use cifarm_server_alternativ.Entities.{
  UserEntity, PlacedItemEntity, SeedGrowthInfoEntity, AnimalInfoEntity,
}
use cifarm_server_alternativ.Database.{
  DatabaseLaws, PlacedItemWhere, Relations, Meets, user_after, crop_after, animal_after,
}
use cifarm_server_alternativ.Tests.Memory.{
  PlacedRow, Tables, first, load, placed_entity, is_wanted, loaded, memory, user_row, crop_row,
  animal_row,
}
use cifarm_server_alternativ.Tests.Memory.Rows.{first_meets, is_wanted→, load_named}
use cifarm_server_alternativ.Tests.Memory.Run.{run_all_user, run_all_crop, run_all_animal}

found_row :
    (w : PlacedItemWhere) (r : Relations) (t : Tables) {p : PlacedItemEntity}
    → loaded r t (first (is_wanted w) t.placed) ≡ some p
    → (row : PlacedRow) × (is_wanted w row ≡ true) × (placed_entity r t row ≡ p)
found_row w r t {p} h = elim (Option-cases (first (is_wanted w) t.placed)) [
  | inl missing ↦ absurd (ground arith)
  | inr (row, found) ↦ (row, first_meets (is_wanted w) t.placed {a = row} found, ground arith)
]

ok_eq : {t u : Tables} → ok t ≡ ok u → t ≡ u
ok_eq h = cc

not_loaded :
    (t : Tables) (wanted : Bool) (i : Option ℕ)
    → wanted ≡ false
    → load (λ k. crop_row k t) wanted i ≡ none
not_loaded t false i off = refl
not_loaded t true i off = absurd (ground arith)

pub memory_laws : DatabaseLaws memory
memory_laws = record {
  found_placed_item = λ w r t p h.
      let (row, wanted, same) = found_row w r t {p = p} h in
      let met = is_wanted→ w row wanted in
      subst
        (λ (p : PlacedItemEntity). (p.id ≡ w.id) × Meets w.user_id p.user_id × Meets w.type p.type)
        same met;
  crop_not_loaded = λ w r t p h off.
      let (row, wanted, same) = found_row w r t {p = p} h in
      ap (λ (p : PlacedItemEntity). p.seed_growth_info) (sym same)
      ∙ not_loaded t r.seed_growth_info row.crop off;
  crop_loaded = λ w r t p g h planted.
      let (row, wanted, same) = found_row w r t {p = p} h in
      load_named (λ (g : SeedGrowthInfoEntity). g.id) t.crops r.seed_growth_info row.crop {a = g}
        (ap (λ (p : PlacedItemEntity). p.seed_growth_info) same ∙ planted);
  animal_loaded = λ w r t p a h housed.
      let (row, wanted, same) = found_row w r t {p = p} h in
      load_named (λ (a : AnimalInfoEntity). a.id) t.animals r.animal_info row.animal {a = a}
        (ap (λ (p : PlacedItemEntity). p.animal_info) same ∙ housed);
  found_user =
      λ i t u h. ==→eq u.id i (first_meets (λ (u : UserEntity). u.id == i) t.users {a = u} h);
  commit_user = λ i statements t t' u done found.
      subst (λ x. user_row i x ≡ some (user_after i statements u)) (ok_eq done)
        (run_all_user i statements t u found);
  commit_crop = λ i statements t t' g done found.
      subst (λ x. crop_row i x ≡ crop_after i statements (some g)) (ok_eq done)
        (run_all_crop i statements t (some g) found);
  commit_animal = λ i statements t t' a done found.
      subst (λ x. animal_row i x ≡ some (animal_after i statements a)) (ok_eq done)
        (run_all_animal i statements t a found);
}
