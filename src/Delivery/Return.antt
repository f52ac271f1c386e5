-- ===== src/Delivery/Return.antt =====
-- A delivery that is taken back.
use cifarm_server_alternativ.Database.{Database}
