-- ===== src/Relay/Rooms/Invariant.antt =====
-- What holds of the rooms of src/realtime/game-relay.ts between two calls.
use flyer_g_be.Base.{
  ℕ, ◌≤◌, ◌≡◌, refl, inl, inr, false, Bool-cases, none, some, Option-cases, List, [], ◌∷◌, length,
  get, put, delete, Values, Values-get, Values-put, Values-delete, length-put-le, length-delete-le,
  put-put, leb, get-put, delete-put, length-put-pos, arith, subst, sym,
}
use flyer_g_be.Relay.Rooms.{
  Socket, Room, Rooms, max_players_per_room, is_empty, room_of, drop_if_empty, add_host, add_player,
  remove_from, remove, is,
}

-- A room has at most 30 players, and one that is kept has a host or a player.
pub record IsSound (room : Room) : Type 0 where
  pub within : length room.players ≤ max_players_per_room
  pub used : is_empty room ≡ false

abbrev pub AreSound : Rooms → Type 0
AreSound rooms = Values IsSound rooms

room_of_within :
    (room_id : ℕ) (rooms : Rooms)
    → AreSound rooms
    → length (room_of room_id rooms).players ≤ max_players_per_room
room_of_within room_id rooms h = elim (Option-cases (get room_id rooms)) [
  | inl e ↦ rw e (omega arith)
  | inr (room, e) ↦ rw e ((Values-get IsSound room_id rooms room h e).within)
]

drop-put-AreSound :
    (room_id : ℕ) (room : Room) (rooms : Rooms)
    → length room.players ≤ max_players_per_room
    → AreSound rooms
    → AreSound (drop_if_empty room_id (put room_id room rooms))
unfolding drop_if_empty
drop-put-AreSound room_id room rooms w h = elim (Bool-cases (is_empty room)) [
  | inl empty ↦
      let dropped : drop_if_empty room_id (put room_id room rooms) ≡ delete room_id rooms =
        ground (arith, get-put room_id room_id room rooms, delete-put room_id room rooms) in
      subst AreSound (sym dropped) (Values-delete IsSound room_id rooms h)
  | inr used ↦
      let kept : drop_if_empty room_id (put room_id room rooms) ≡ put room_id room rooms =
        ground (arith, get-put room_id room_id room rooms) in
      subst AreSound (sym kept)
        (Values-put IsSound room_id room rooms (record { within = w; used = used }) h)
]

-- On a room that is sound the room is kept.
drop_of_sound :
    (room_id : ℕ) (rooms : Rooms) (room : Room)
    → get room_id rooms ≡ some room
    → IsSound room
    → drop_if_empty room_id rooms ≡ rooms
unfolding drop_if_empty
drop_of_sound room_id rooms room e s = ground arith

not_empty_with_player :
    (room : Room) (id : ℕ) (socket : Socket)
    → is_empty (record room { players = put id socket room.players }) ≡ false
not_empty_with_player room id socket = ground (arith, length-put-pos id socket room.players)

module _ (A : Type 0) (room_id : ℕ) (socket : Socket) (rooms : Rooms) (h : AreSound rooms) where
  add_host-AreSound : AreSound (add_host {A = A} room_id socket rooms).0
  unfolding add_host
  add_host-AreSound =
      Values-put IsSound room_id _ rooms
        (record { within = room_of_within room_id rooms h; used = refl }) h

  add_player-AreSound : AreSound (add_player {A = A} room_id socket rooms).0
  unfolding add_player
  add_player-AreSound =
      let room = room_of room_id rooms in
      let within = room_of_within room_id rooms h in
      elim (Bool-cases (leb max_players_per_room (length room.players))) [
        | inl full ↦ rw full (drop-put-AreSound room_id room rooms within h)
        | inr place ↦
            let room' = record room { players = put socket.id socket room.players } in
            let fits = length-put-le socket.id socket room.players in
            rw (place, put-put)
              (Values-put IsSound room_id room' rooms
                (record {
                  within = ground arith;
                  used = not_empty_with_player room socket.id socket;
                })
                h)
      ]

  remove_from-AreSound :
      (room : Room)
      → get room_id rooms ≡ some room
      → AreSound (remove_from {A = A} room_id room socket rooms).0
  unfolding remove_from
  remove_from-AreSound room e =
      let sound = Values-get IsSound room_id rooms room h e in
      let gone = record room { host = none } in
      let fewer = record room { players = delete socket.id room.players } in
      let less = length-delete-le socket.id room.players in
      elim (Bool-cases (is room.host socket)) [
        | inl hosting ↦ rw hosting (drop-put-AreSound room_id gone rooms sound.within h)
        | inr other ↦ elim (Bool-cases (is (get socket.id room.players) socket)) [
          | inl playing ↦
              rw (other, playing)
                (drop-put-AreSound room_id fewer rooms (omega (arith, sound.within)) h)
          | inr stranger ↦ rw (other, stranger) (rw (drop_of_sound room_id rooms room e sound) h)
        ]
      ]

  remove-AreSound : AreSound (remove {A = A} room_id socket rooms).0
  unfolding remove
  remove-AreSound = elim (Option-cases (get room_id rooms)) [
    | inl e ↦ rw (e, remove) h
    | inr (room, e) ↦ rw (e, remove) (remove_from-AreSound room e)
  ]

-- The calls of a relay that change its rooms.
pub data Change : Type 0 where
  host_came player_came left : (room_id : ℕ) → Socket → Change

module _ (A : Type 0) where
  unfoldable pub apply : Change → Rooms → Rooms
  apply (host_came room_id socket) rooms = (add_host {A = A} room_id socket rooms).0
  apply (player_came room_id socket) rooms = (add_player {A = A} room_id socket rooms).0
  apply (left room_id socket) rooms = (remove {A = A} room_id socket rooms).0

  -- From the newest change to the oldest; a relay starts with no room.
  pub after_changes : List Change → Rooms
  unfolding apply
  after_changes [] = []
  after_changes (c ∷ cs) = apply c (after_changes cs)

  -- In whatever order hosts and players come and go, no room of the relay has more than 30
  -- players, and none is kept that has neither a host nor a player.
  pub after_changes-AreSound : (cs : List Change) → AreSound (after_changes cs)
  unfolding after_changes
  after_changes-AreSound [] = tt
  after_changes-AreSound (host_came room_id socket ∷ cs) =
      add_host-AreSound A room_id socket (after_changes cs) (after_changes-AreSound cs)
  after_changes-AreSound (player_came room_id socket ∷ cs) =
      add_player-AreSound A room_id socket (after_changes cs) (after_changes-AreSound cs)
  after_changes-AreSound (left room_id socket ∷ cs) =
      remove-AreSound A room_id socket (after_changes cs) (after_changes-AreSound cs)
