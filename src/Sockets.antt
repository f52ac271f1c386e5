-- ===== src/Sockets.antt =====
-- The sockets of apps/io-gameplay: `MainGateway` (main/main.gateway.ts), `PlacedItemsGateway` and its
-- controller (placed-items), and `SocketCoreService` (src/io/socket-core.service.ts). The rooms of a
-- socket are those that the code names, by users; a room that nothing has joined is empty. The verdict
-- on a token is a parameter, as are the placed items of a user.
pub mod Heard
use cifarm_server_alternativ.Prelude.{
  ℕ, ◌==◌, Bool, true, false, ◌||◌, Option, none, some, List, [], ◌∷◌, if◌then◌else◌,
}
use cifarm_server_alternativ.Result.{Result, ok, err, ◌>>=◌, type_error, Exception, deref}

pub record Socket : Type 0 where
  pub id : ℕ
  pub connected : Bool
  pub user : Option ℕ
  pub observing : Option ℕ
  pub rooms : List ℕ

-- A `PlacedItemsSyncedMessage` to a socket.
pub record Synced (Item : Type 0) : Type 0 where
  pub socket_id : ℕ
  pub placed_items : List Item

abbrev pub is_in : ℕ → List ℕ → Bool
is_in room [] = false
is_in room (first ∷ rest) = (first == room) || is_in room rest

abbrev pub leave : ℕ → List ℕ → List ℕ
leave room [] = []
leave room (first ∷ rest) =
    let others = leave room rest in if first == room then others else first ∷ others

abbrev pub join : ℕ → List ℕ → List ℕ
join room rooms = if is_in room rooms then rooms else room ∷ rooms

-- `authenticate`: the user, and the socket, which is disconnected without one.
unfoldable pub authenticate : (ℕ → Option ℕ) → Option ℕ → Socket → Option ℕ × Socket
authenticate verify_token none socket = (none, record socket { connected = false })
authenticate verify_token (some token) socket = elim (verify_token token) [
  | none ↦ (none, record socket { connected = false })
  | some user ↦ (some user, record socket { user = some user })
]

-- `handleConnection`
unfoldable pub handle_connection : (ℕ → Option ℕ) → Option ℕ → Socket → Socket
unfolding authenticate
handle_connection verify_token token socket =
    let (user, socket') = authenticate verify_token token socket in
    elim user [ none ↦ socket' | some user_id ↦ record socket' { observing = some user_id } ]

-- `handleVisit`; `socket.data.observing` may be missing.
unfoldable pub handle_visit : ℕ → Socket → Result Socket
handle_visit user_id socket = deref socket.observing >>= λ observed.
    ok (record socket {
      rooms = join user_id (leave observed socket.rooms);
      observing = some user_id;
    })

module _ {Item : Type 0} (get_placed_items : ℕ → List Item) where
  -- `processSyncPlacedItemsEverySecond`
  unfoldable pub process_sync_placed_items_every_second : List Socket → List (Synced Item)
  process_sync_placed_items_every_second [] = []
  process_sync_placed_items_every_second (socket ∷ rest) =
      let others = process_sync_placed_items_every_second rest in
      elim socket.observing [
        | none ↦ others
        | some user_id ↦
            record { socket_id = socket.id; placed_items = get_placed_items user_id } ∷ others
      ]

  -- `syncPlacedItems`
  unfoldable pub sync_placed_items : ℕ → List Socket → List (Synced Item)
  sync_placed_items user_id [] = []
  sync_placed_items user_id (socket ∷ rest) =
      let others = sync_placed_items user_id rest in
      if is_in user_id socket.rooms
      then record { socket_id = socket.id; placed_items = get_placed_items user_id } ∷ others
      else others

  -- `handleSyncPlacedItems`, the data of the response
  unfoldable pub handle_sync_placed_items : Exception → Socket → Result (List Item)
  handle_sync_placed_items not_observing socket = elim socket.observing [
    | none ↦ err not_observing
    | some user_id ↦ ok (get_placed_items user_id)
  ]

  -- `handleVisitedEmitter2`
  unfoldable pub handle_visited : ℕ → ℕ → Synced Item
  handle_visited user_id socket_id = record {
    socket_id = socket_id;
    placed_items = get_placed_items user_id;
  }
