-- ===== src/Relay/Examples.antt =====
-- The relay of src/realtime/game-relay.ts on a room with a display and a player.
use flyer_g_be.Base.{
  ℕ, ◌+◌, ◌*◌, ◌-◌, ◌≤◌, ◌<◌, ◌≡◌, refl, true, some, List, [], ◌∷◌, Map, get, put, arith,
}
use flyer_g_be.Relay.Rooms.{
  Socket, Room, Rooms, ready, host, send, close, replaced, to_players, add_host, remove, from_host,
  has_host,
}
use flyer_g_be.Relay.Rooms.Invariant.{
  Change, host_came, player_came, after_changes, AreSound, after_changes-AreSound,
}
use flyer_g_be.Relay.Rooms.Delivery.{takeover}
use flyer_g_be.Relay.Budget.{new_budget, passed, passed-le, messages_per_second}
use flyer_g_be.Relay.Counter.{
  add, admit, admitted, Counts, using, max_connections, max_connections_per_ip, admit-Counts,
}

abbrev tv : Socket
tv = record { ref = 1; id = 100 }

abbrev new_tv : Socket
new_tv = record { ref = 2; id = 101 }

abbrev phone : Socket
phone = record { ref = 3; id = 102 }

abbrev room : Room
room = record { host = some tv; players = (102, phone) ∷ [] }

abbrev rooms : Rooms
rooms = (7, room) ∷ []

abbrev changes : List Change
changes = player_came 7 phone ∷ host_came 7 tv ∷ []

after_changes-AreSound_example : AreSound (after_changes ℕ changes)
after_changes-AreSound_example = after_changes-AreSound ℕ changes

got : get 7 rooms ≡ some room
unfolding get
got = refl

takeover_example :
    let (rooms', effects) = add_host {A = ℕ} 7 new_tv rooms in
    (effects ≡ close tv replaced ∷ send new_tv ready ∷ to_players room (host true))
    × (from_host {A = ℕ} 7 tv 5 rooms' ≡ [])
    × (has_host 7 (remove {A = ℕ} 7 tv rooms').0 ≡ true)
takeover_example = takeover 7 tv new_tv 5 rooms room got refl (omega arith)

passed-le_example :
    1000 * passed (new_budget 0) (3 ∷ 5 ∷ []) ≤ 20000 + messages_per_second * (1000 - 0)
passed-le_example = passed-le 0 (3 ∷ 5 ∷ []) 1000 (omega arith, (omega arith, omega arith))

abbrev counted : Map ℕ
counted = (10, 1) ∷ (20, 1) ∷ []

let_in : admit 0 10 (some 20) [] ≡ admitted counted
unfolding admit add get put
let_in = refl

none_standing : Counts [] []
unfolding get
none_standing key = refl

admit-Counts_example :
    Counts counted ((10, some 20) ∷ [])
    × (0 < max_connections)
    × (using 10 [] < max_connections_per_ip)
admit-Counts_example = admit-Counts 0 10 (some 20) [] counted [] none_standing let_in

one_standing : Counts counted ((10, some 20) ∷ [])
unfolding get
one_standing key = ground arith
