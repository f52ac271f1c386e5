-- ===== src/Lib.antt =====
-- The game server of CiFarm: a farming game whose players plant crops, keep animals, help and rob
-- their neighbors, and trade in a shop. What is modelled is the core of its rules.
--
-- Parts, and the files that model them (paths are from the root of the repository):
--   Entities        the rows of the database, src/databases/postgresql/gameplay: one record for each
--                   entity, with the columns that the modelled services read or write
--   Gameplay        the services of src/gameplay: Energy, Level, Wallet (gold and tokens), Inventory
--                   and Thief; Gameplay.Activity is the sequence of calls by which every service
--                   charges a user for an activity
--   Result          the exceptions, and the sequencing of code that may throw
--   Database        the queries and the statements of the services, as an interface
--   Service         the form of every handler of apps/gameplay-service: it reads and may throw, then
--                   runs its statements in one transaction, then sends messages and returns
--   Care            what it is to take care of a crop, which six services do in one form, and of an
--                   animal, which three do
--   Farming         apps/gameplay-service/src/farming: Crops (water, pesticide, herbicide), Seeds
--                   (planting, fertilizer, harvest) and Animals (feeding, curing, collecting)
--   Community       apps/gameplay-service/src/community: Help (four services), Thief (two) and
--                   Follow (two)
--   Shop            apps/gameplay-service/src/shop: Stock (seeds, supplies), Farm (animals,
--                   buildings) and Tiles
--   Upgrade         apps/gameplay-service/src/upgrade
--   Delivery        apps/gameplay-service/src/delivery; Return is on a product that comes back
--   Claim           apps/gameplay-service/src/claim: the daily reward and, in Spin, the wheel of fortune
--   Placement       apps/gameplay-service/src/placement: moving, placing and taking back
--   Player          theorems on what the services of one kind have in common, whichever is called
--   Worker          apps/cron-worker: Crop, Animal and Energy on one row, Process on the rows of a job,
--                   and Delivery; and the batches of apps/cron-scheduler (Schedule)
--   Scheduler       apps/cron-scheduler: the ticks of crops, animals and energy, the date of the last
--                   schedule and the speed-ups, and apps/gameplay-service/src/dev/speed-up
--   Leader          src/kubernetes/leader-election, which says which scheduler acts: every method and
--                   callback as a step of a state machine, and the flags of the schedulers
--   Auth            apps/gameplay-service/src/auth: login by signature, refresh, and the signatures of
--                   made-up accounts (Signature)
--   Sockets         apps/io-gameplay: the sockets, which farm each observes, and what is sent to it
--   Seed            apps/cli/src/database/seed/seeders/gameplay: the rows of the catalogue, the values
--                   of the `system` table, and the wheel of fortune
--   Gateway         apps/rest-api-gateway/src/v1/gameplay: the guarded routes, which hand a request to
--                   the gRPC client in the name of the user of its token, and those of a login (Session)
--   Tests           a database in memory, which meets the laws, and concrete inputs for the theorems
--
-- A handler keeps the name of the method of its service in snake_case; its arguments are the fields
-- of the request, and `user_id` is the user that the request names. It is a function from a state of
-- the database to a `Plan`, the statements, messages and response, or an exception; `perform` runs
-- it. A value that is read although it may be missing goes through `deref`, a `TypeError` there.
--
-- The database (TypeORM over PostgreSQL) and the broker are not part of the repository. `Database` is
-- a record of the queries that the services make and of the commit; `DatabaseLaws` is what the
-- theorems rely on: a query returns rows that meet its criteria and loads the relations it names, and
-- a commit applies its statements to the rows of users, crops and animals. In the same way `LeaseApi`
-- is the lease API of Kubernetes, `JobStore` the rows of the schedulers with the queues of BullMQ,
-- `AuthStore` the rows and the cache of a login, `DeliveryStore` those of the deliveries, each with a
-- record of laws, and `WorkerStore` the rows of the workers. The checks of signatures
-- and of tokens, which libraries do, are functions that are passed in.
--
-- The leader and the schedulers: a scheduler keeps a flag that follows the events of the election
-- (Leader.Announced); on a leader, a tick puts jobs into the queue, one for each batch of rows, with
-- the time that has passed (Scheduler), and the workers move every row of a batch on by that time
-- (Worker; Scheduler.Growth and Scheduler.Reached put the two together).
--
-- Numbers: prices, quantities, times and levels are whole numbers that may be negative (ℤ), as the
-- columns are; the tokens, a float column, are multiples of a smallest amount. Where a worker divides
-- a harvest by two the half that may be left over is kept apart. Random numbers and chances are
-- arguments, as numerators over one denominator. Nothing wraps around: sums of int columns are taken
-- to stay within PostgreSQL's range.
--
-- Fuel: the `while` loop of the inventory takes the number of pieces as its fuel, which is enough for
-- stacks of at least 1 piece; that of the crop worker takes one round for each stage that is left,
-- after which its own test stops it.
--
-- Not modelled: what gRPC makes of a request between the gateway and gameplay-service, where the
-- messages of proto/gameplay_service lack some fields of the requests; what becomes of the
-- transactions of `move` and `unfollow`, which are left open; the subgraph and the bot, which pass
-- rows and messages on; the commands of the command line, which run Docker and the seeders; the
-- tutorial, which writes two numbers; how the statements of different users overlap in the delivery
-- worker; caches, health checks and the configuration; reads of NFTs from the chains, which sit in
-- libraries; the restart of a watch; and handlers that run between each other's queries and
-- commits.
pub mod Prelude
pub mod Result
pub mod Entities
pub mod Gameplay
pub mod Database
pub mod Service
pub mod Care
pub mod Farming
pub mod Community
pub mod Shop
pub mod Upgrade
pub mod Delivery
pub mod Claim
pub mod Placement
pub mod Player
pub mod Worker
pub mod Scheduler
pub mod Leader
pub mod Auth
pub mod Gateway
pub mod Sockets
pub mod Seed
pub mod Tests
