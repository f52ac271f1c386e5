-- ===== src/Sockets/Heard.antt =====
-- Which changes of a farm a socket hears of.
use cifarm_server_alternativ.Prelude.{
  ℕ, ◌≡◌, refl, ap, ◌∙◌, ◌==◌, ==_refl, Bool, ◌||◌, true, false, Option, some, List, [], ◌∷◌,
  if◌then◌else◌, arith,
}
use cifarm_server_alternativ.Result.{Result, ok, ◌>>=◌}
use cifarm_server_alternativ.Sockets.{
  Socket, leave, is_in, handle_connection, handle_visit, sync_placed_items,
  process_sync_placed_items_every_second,
}

-- Visits, one after the other, and the user of the last one.
abbrev pub visit_all : List ℕ → Socket → Result Socket
visit_all [] socket = ok socket
visit_all (user_id ∷ rest) socket = handle_visit user_id socket >>= visit_all rest

abbrev pub last_visited : ℕ → List ℕ → ℕ
last_visited user_id [] = user_id
last_visited user_id (next ∷ rest) = last_visited next rest

-- A socket that observes a user and is in the room of that user, and no other.
pub record IsVisiting (user_id : ℕ) (socket : Socket) : Type 0 where
  pub observing : socket.observing ≡ some user_id
  pub rooms : socket.rooms ≡ user_id ∷ []

visits_follow :
    (user_id : ℕ) (visits : List ℕ) (socket : Socket)
    → IsVisiting user_id socket
    → (after : Socket) × (visit_all visits socket ≡ ok after)
      × (after.id ≡ socket.id)
      × IsVisiting (last_visited user_id visits) after
unfolding handle_visit
visits_follow user_id [] socket visiting = (socket, refl, refl, visiting)
visits_follow user_id (next ∷ rest) socket visiting =
    let moved = record socket { rooms = next ∷ []; observing = some next } in
    let left : leave user_id socket.rooms ≡ [] =
      ap (leave user_id) visiting.rooms ∙ ground (arith, ==_refl user_id) in
    let step : handle_visit next socket ≡ ok moved = ground (arith, visiting.observing, left) in
    let (after, ran, same, at) =
      visits_follow next rest moved (record { observing = refl; rooms = refl }) in
    (after, ap (λ (r : Result Socket). r >>= visit_all rest) step ∙ ran, same, at)

if_true_else : (b : Bool) → (b || false) ≡ b
if_true_else true = refl
if_true_else false = refl

-- A socket in no room, whose token is good, hears of no change of any farm after it has connected.
-- After any number of visits, at least one, it hears of the changes of the farm that it visited
-- last and of no other, and the synchronisation of every second sends it the items of that farm.
pub visits_heard :
    {Item : Type 0} (get_placed_items : ℕ → List Item) (verify_token : ℕ → Option ℕ)
    (token user_id : ℕ) (socket : Socket) (farm first : ℕ) (rest : List ℕ)
    → socket.rooms ≡ []
    → verify_token token ≡ some user_id
    → let connected = handle_connection verify_token (some token) socket in
      (sync_placed_items get_placed_items farm (connected ∷ []) ≡ [])
      × ((after : Socket) × (visit_all (first ∷ rest) connected ≡ ok after)
          × (sync_placed_items get_placed_items farm (after ∷ []) ≡ (
              if last_visited first rest == farm
              then record { socket_id = socket.id; placed_items = get_placed_items farm } ∷ []
              else []))
          × (process_sync_placed_items_every_second get_placed_items (after ∷ [])
              ≡ record {
                socket_id = socket.id;
                placed_items = get_placed_items (last_visited first rest);
              }
                ∷ []))
unfolding handle_connection handle_visit sync_placed_items process_sync_placed_items_every_second
visits_heard get_placed_items verify_token token user_id socket farm first rest alone good =
    let visiting = record socket {
      user = some user_id;
      rooms = first ∷ [];
      observing = some first;
    } in
    let (after, ran, same, at) =
      visits_follow first rest visiting (record { observing = refl; rooms = refl }) in
    let observing = at.observing in
    let rooms = at.rooms in
    let visited : handle_visit first (handle_connection verify_token (some token) socket)
        ≡ ok visiting =
      ground (arith, good, alone) in
    let only = if_true_else (last_visited first rest == farm) in
    let in_room =
      ap
        (λ rs.
          if is_in farm rs
          then record { socket_id = after.id; placed_items = get_placed_items farm } ∷ []
          else [])
        rooms
      ∙ ap
          (λ b.
            if b
            then record { socket_id = after.id; placed_items = get_placed_items farm } ∷ []
            else [])
          only in
    (
      ground (arith, good, alone),
      (
        after,
        ap (λ (r : Result Socket). r >>= visit_all rest) visited ∙ ran,
        in_room
            ∙ ap
                (λ i.
                  if last_visited first rest == farm
                  then record { socket_id = i; placed_items = get_placed_items farm } ∷ []
                  else [])
                same,
        ground (arith, observing, same),
      ),
    )
