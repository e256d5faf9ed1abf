-- ===== src/Relay.antt =====
-- src/realtime/game-relay.ts: the rooms of the game relay, the message budget of a connection and
-- the count of the connections of an address. `Rooms` is the class `GameRelay`.
pub mod Rooms
pub mod Budget
pub mod Counter
mod Examples
