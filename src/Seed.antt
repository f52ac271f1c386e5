-- ===== src/Seed.antt =====
-- What the seeders of apps/cli/src/database/seed/seeders/gameplay write. The text keys are numbers, in
-- the order of the enumerations of src/databases/postgresql/gameplay/enums/ids.enum.ts; chances are
-- hundredths, and the smallest amount of tokens is a hundredth.
pub mod System
pub mod Crops
pub mod Farm
pub mod Prizes
pub mod Wheel
pub mod Sound
