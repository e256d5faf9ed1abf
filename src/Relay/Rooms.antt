-- ===== src/Relay/Rooms.antt =====
-- The class `GameRelay` of src/realtime/game-relay.ts. A socket is told from others by its
-- reference (`===`), and the players of a room stand under their socket's id. What an operation
-- sends and closes is the list of its effects, in order. The texts of a close are left out.
pub mod Invariant
pub mod Delivery
use flyer_g_be.Base.{
  ℕ, ◌+◌, ◌==◌, leb, not, Bool, true, false, ◌&&◌, if◌then◌else◌, Option, none, some, is_some, List,
  [], ◌∷◌, ◌++◌, map, filter, length, Map, get, put, delete, get_or,
}

pub record Socket : Type 0 where
  pub ref : ℕ
  pub id : ℕ

-- `RELAY_LIMITS.maxPlayersPerRoom`, `RELAY_CLOSE.replaced`
abbrev pub max_players_per_room : ℕ
max_players_per_room = 30

abbrev pub replaced : ℕ
replaced = 4010

-- `ControlFrame`, `HostFrame` and `PlayerFrame`, over the data that clients send
pub data ControlFrame : Type 0 where
  program_changed reload : ControlFrame

pub data Frame (A : Type 0) : Type 0 where
  ready : Frame A
  join : (from : ℕ) → Frame A
  message_from : (from : ℕ) → A → Frame A
  left : (from : ℕ) → Frame A
  control : ControlFrame → Frame A
  host : (online : Bool) → Frame A
  message : A → Frame A

pub data Effect (A : Type 0) : Type 0 where
  send : Socket → Frame A → Effect A
  close : Socket → (code : ℕ) → Effect A

pub record Room : Type 0 where
  pub host : Option Socket
  pub players : Map Socket

abbrev pub Rooms : Type 0
Rooms = Map Room

abbrev pub empty_room : Room
empty_room = record { host = none; players = [] }

-- `===` of two sockets, and of a field that may be null with a socket
abbrev pub same : Socket → Socket → Bool
same a b = a.ref == b.ref

abbrev pub is : Option Socket → Socket → Bool
is none socket = false
is (some a) socket = same a socket

-- `room`: the room, made if it is not there
abbrev pub room_of : ℕ → Rooms → Room
room_of room_id rooms = get_or (get room_id rooms) empty_room

-- `!room.host && room.players.size === 0`
abbrev pub is_empty : Room → Bool
is_empty room = not (is_some room.host) && length room.players == 0

-- `dropIfEmpty`
unfoldable pub drop_if_empty : ℕ → Rooms → Rooms
drop_if_empty room_id rooms = elim (get room_id rooms) [
  | none ↦ rooms
  | some room ↦ if is_empty room then delete room_id rooms else rooms
]

module _ {A : Type 0} where
  -- `toHostOf`, `toPlayers`
  abbrev pub to_host_of : Room → Frame A → List (Effect A)
  to_host_of room frame = elim room.host [ none ↦ [] | some socket ↦ send socket frame ∷ [] ]

  abbrev pub to_players : Room → Frame A → List (Effect A)
  to_players room frame = map (λ player. send player.1 frame) room.players

  abbrev close_replaced : Option Socket → Socket → List (Effect A)
  close_replaced none socket = []
  close_replaced (some previous) socket =
      if same previous socket then [] else close previous replaced ∷ []

  -- `addHost`
  unfoldable pub add_host : ℕ → Socket → Rooms → Rooms × List (Effect A)
  add_host room_id socket rooms =
      let room = room_of room_id rooms in
      let room' = record room { host = some socket } in
      (
        put room_id room' rooms,
        close_replaced room.host socket ++ send socket ready ∷ to_players room' (host true),
      )

  -- `addPlayer`, with whether there was a place
  unfoldable pub add_player : ℕ → Socket → Rooms → Rooms × List (Effect A) × Bool
  unfolding drop_if_empty
  add_player room_id socket rooms =
      let room = room_of room_id rooms in
      let made = put room_id room rooms in
      let room' = record room { players = put socket.id socket room.players } in
      if leb max_players_per_room (length room.players)
      then (drop_if_empty room_id made, [], false)
      else (
        put room_id room' made,
        to_host_of room' (join socket.id) ++ send socket (host (is_some room'.host)) ∷ [],
        true,
      )

  -- The branches of `remove`
  unfoldable pub remove_from : ℕ → Room → Socket → Rooms → Rooms × List (Effect A)
  unfolding drop_if_empty
  remove_from room_id room socket rooms =
      let without_host = record room { host = none } in
      let without_player = record room { players = delete socket.id room.players } in
      if is room.host socket
      then (
        drop_if_empty room_id (put room_id without_host rooms),
        to_players without_host (host false),
      )
      else if is (get socket.id room.players) socket
      then (
        drop_if_empty room_id (put room_id without_player rooms),
        to_host_of without_player (left socket.id),
      )
      else (drop_if_empty room_id rooms, [])

  -- `remove`
  unfoldable pub remove : ℕ → Socket → Rooms → Rooms × List (Effect A)
  unfolding remove_from
  remove room_id socket rooms = elim (get room_id rooms) [
    | none ↦ (rooms, [])
    | some room ↦ remove_from room_id room socket rooms
  ]

  -- `fromHost`
  unfoldable pub from_host : ℕ → Socket → A → Rooms → List (Effect A)
  from_host room_id socket content rooms = elim (get room_id rooms) [
    | none ↦ []
    | some room ↦ if is room.host socket then to_players room (message content) else []
  ]

  -- `fromPlayer`
  unfoldable pub from_player : ℕ → Socket → A → Rooms → List (Effect A)
  from_player room_id socket content rooms = elim (get room_id rooms) [
    | none ↦ []
    | some room ↦
        if is_some room.host && is (get socket.id room.players) socket
        then to_host_of room (message_from socket.id content)
        else []
  ]

  -- `toHost`, with whether a display is connected
  unfoldable pub to_host : ℕ → ControlFrame → Rooms → List (Effect A) × Bool
  to_host room_id frame rooms = elim (get room_id rooms) [
    | none ↦ ([], false)
    | some room ↦ (to_host_of room (control frame), is_some room.host)
  ]

  -- `closeHost`
  unfoldable pub close_host : ℕ → (code : ℕ) → Rooms → List (Effect A)
  close_host room_id code rooms = elim (get room_id rooms) [
    | none ↦ []
    | some room ↦ elim room.host [ none ↦ [] | some socket ↦ close socket code ∷ [] ]
  ]

-- `hostIds`, `hasHost`
unfoldable pub host_ids : Rooms → List ℕ
host_ids rooms = map (λ entry. entry.0) (filter (λ entry. is_some entry.1.host) rooms)

unfoldable pub has_host : ℕ → Rooms → Bool
has_host room_id rooms = elim (get room_id rooms) [ none ↦ false | some room ↦ is_some room.host ]

-- `stats`
abbrev connections_of : Room → ℕ
connections_of room = length room.players + (if is_some room.host then 1 else 0)

unfoldable pub connections : Rooms → ℕ
connections [] = 0
connections (entry ∷ rooms) = connections_of entry.1 + connections rooms
