-- ===== src/Relay/Rooms/Delivery.antt =====
-- Who receives what in src/realtime/game-relay.ts, and what another room sees of it.
use flyer_g_be.Base.{
  ℕ, ◌≡◌, ◌≢◌, refl, true, Bool-cases, some, Option-cases, inl, inr, [], ◌∷◌, length, leb, ◌∙◌, ◌↔◌,
  get, put, delete, get-put, get-delete, arith,
}
use flyer_g_be.Relay.Rooms.{
  Socket, Room, Rooms, message_from, send, close, is, drop_if_empty, room_of, add_host, add_player,
  remove, remove_from, from_host, from_player, has_host, to_players, replaced, ready, host,
  max_players_per_room,
}
use flyer_g_be.Relay.Rooms.Invariant.{Change, host_came, player_came, left, apply}

drop_elsewhere :
    (room_id j : ℕ) (rooms : Rooms)
    → room_id ≢ j
    → get j (drop_if_empty room_id rooms) ≡ get j rooms
unfolding drop_if_empty
drop_elsewhere room_id j rooms n = ground (arith, get-delete room_id j rooms)

put_elsewhere :
    (room_id j : ℕ) (room : Room) (rooms : Rooms)
    → room_id ≢ j
    → get j (put room_id room rooms) ≡ get j rooms
put_elsewhere room_id j room rooms n = ground (arith, get-put room_id j room rooms)

module _ (A : Type 0) (room_id j : ℕ) (socket : Socket) (rooms : Rooms) (n : room_id ≢ j) where
  add_host_elsewhere : get j (add_host {A = A} room_id socket rooms).0 ≡ get j rooms
  unfolding add_host
  add_host_elsewhere = put_elsewhere room_id j _ rooms n

  add_player_elsewhere : get j (add_player {A = A} room_id socket rooms).0 ≡ get j rooms
  unfolding add_player
  add_player_elsewhere =
      let room = room_of room_id rooms in
      let made = put room_id room rooms in
      let kept = put_elsewhere room_id j room rooms n in
      elim (Bool-cases (leb max_players_per_room (length room.players))) [
        | inl full ↦ rw full (drop_elsewhere room_id j made n ∙ kept)
        | inr place ↦ rw place (put_elsewhere room_id j _ made n ∙ kept)
      ]

  remove_from_elsewhere :
      (room : Room) → get j (remove_from {A = A} room_id room socket rooms).0 ≡ get j rooms
  unfolding remove_from
  remove_from_elsewhere room = elim (Bool-cases (is room.host socket)) [
    | inl hosting ↦ rw hosting (drop_elsewhere room_id j _ n ∙ put_elsewhere room_id j _ rooms n)
    | inr other ↦ elim (Bool-cases (is (get socket.id room.players) socket)) [
      | inl playing ↦
          rw (other, playing) (drop_elsewhere room_id j _ n ∙ put_elsewhere room_id j _ rooms n)
      | inr stranger ↦ rw (other, stranger) (drop_elsewhere room_id j rooms n)
    ]
  ]

  remove_elsewhere : get j (remove {A = A} room_id socket rooms).0 ≡ get j rooms
  unfolding remove
  remove_elsewhere = elim (Option-cases (get room_id rooms)) [
    | inl e ↦ rw (e, remove)
    | inr (room, e) ↦ rw (e, remove) (remove_from_elsewhere room)
  ]

abbrev pub room_of_change : Change → ℕ
room_of_change (host_came room_id socket) = room_id
room_of_change (player_came room_id socket) = room_id
room_of_change (left room_id socket) = room_id

-- A host or a player that comes or goes in one room leaves every other room as it was.
apply_elsewhere :
    (A : Type 0) (c : Change) (j : ℕ) (rooms : Rooms)
    → room_of_change c ≢ j
    → get j (apply A c rooms) ≡ get j rooms
unfolding apply
apply_elsewhere A (host_came room_id socket) j rooms n =
    add_host_elsewhere A room_id j socket rooms n
apply_elsewhere A (player_came room_id socket) j rooms n =
    add_player_elsewhere A room_id j socket rooms n
apply_elsewhere A (left room_id socket) j rooms n = remove_elsewhere A room_id j socket rooms n

-- In a room that is there, a message of a player goes to a connection, and to nobody else, exactly
-- if that connection is the host of the room and the sender is the connection that the room knows
-- under the id of the sender.
from_player_iff :
    {A : Type 0} (room_id : ℕ) (socket h : Socket) (content : A) (rooms : Rooms) (room : Room)
    → get room_id rooms ≡ some room
    → (from_player room_id socket content rooms ≡ send h (message_from socket.id content) ∷ [])
      ↔ ((room.host ≡ some h) × (is (get socket.id room.players) socket ≡ true))
unfolding from_player
from_player_iff room_id socket h content rooms room e = (λ p. ground arith, λ p. ground arith)

-- A room with a host is kept.
hosted_kept :
    (room_id : ℕ) (room : Room) (rooms : Rooms) (h : Socket)
    → get room_id rooms ≡ some room
    → room.host ≡ some h
    → drop_if_empty room_id rooms ≡ rooms
unfolding drop_if_empty
hosted_kept room_id room rooms h e k = ground arith

remove_from-host :
    (A : Type 0) (room_id : ℕ) (old new : Socket) (rooms : Rooms) (room : Room)
    → get room_id rooms ≡ some room
    → room.host ≡ some new
    → old.ref ≢ new.ref
    → has_host room_id (remove_from {A = A} room_id room old rooms).0 ≡ true
unfolding remove_from has_host
remove_from-host A room_id old new rooms room e h n =
    let fewer = record room { players = delete old.id room.players } in
    let here = get-put room_id room_id fewer rooms in
    ground (
      arith,
      here,
      hosted_kept room_id room rooms new e h,
      hosted_kept room_id fewer (put room_id fewer rooms) new (ground (arith, here)) h,
    )

remove-host :
    (A : Type 0) (room_id : ℕ) (old new : Socket) (rooms : Rooms) (room : Room)
    → get room_id rooms ≡ some room
    → room.host ≡ some new
    → old.ref ≢ new.ref
    → has_host room_id (remove {A = A} room_id old rooms).0 ≡ true
unfolding remove
remove-host A room_id old new rooms room e h n =
    rw (e, remove) (remove_from-host A room_id old new rooms room e h n)

-- A display that connects while another one is the host takes the room over: the old connection is
-- closed with code 4010, the players are told, what the old connection still says is dropped, and
-- its disconnect leaves the room with a host.
pub takeover :
    {A : Type 0} (room_id : ℕ) (old new : Socket) (content : A) (rooms : Rooms) (room : Room)
    → get room_id rooms ≡ some room
    → room.host ≡ some old
    → old.ref ≢ new.ref
    → let (rooms', effects) = add_host {A = A} room_id new rooms in
      (effects ≡ close old replaced ∷ send new ready ∷ to_players room (host true))
      × (from_host room_id old content rooms' ≡ [])
      × (has_host room_id (remove {A = A} room_id old rooms').0 ≡ true)
unfolding add_host from_host
takeover {A} room_id old new content rooms room e h n =
    let room' = record room { host = some new } in
    let here = get-put room_id room_id room' rooms in
    let there : get room_id (put room_id room' rooms) ≡ some room' = ground (arith, here) in
    (
      ground arith,
      ground (arith, there),
      remove-host A room_id old new _ (record (room_of room_id rooms) { host = some new })
          (ground (
            arith,
            get-put room_id room_id (record (room_of room_id rooms) { host = some new }) rooms,
          ))
          refl n,
    )
