-- ===== src/Relay/Counter.antt =====
-- The class `ConnectionCounter` of src/realtime/game-relay.ts, and the admission of a connection by
-- it in `handleUpgrade` of src/realtime/realtime-socket.service.ts. A key is only compared, and
-- stands as a number.
use flyer_g_be.Base.{
  ℕ, ◌+◌, ◌-◌, ◌<◌, ◌==◌, ◌≡◌, leb, if◌then◌else◌, ◌||◌, Option, none, some, List, [], ◌∷◌, Map,
  get, put, delete, get-put, get-delete, get_or, arith,
}

-- `get`
abbrev pub count_of : ℕ → Map ℕ → ℕ
count_of key counts = get_or (get key counts) 0

-- `add`
unfoldable pub add : ℕ → Map ℕ → Map ℕ
add key counts = put key (count_of key counts + 1) counts

-- `remove`: `next <= 0` deletes the entry
unfoldable pub remove : ℕ → Map ℕ → Map ℕ
remove key counts =
    if leb (count_of key counts) 1
    then delete key counts
    else put key (count_of key counts - 1) counts

count_of-add :
    (k j : ℕ) (m : Map ℕ)
    → count_of j (add k m) ≡ (if k == j then count_of j m + 1 else count_of j m)
unfolding add
count_of-add k j m = ground (arith, get-put k j (count_of k m + 1) m)

count_of-remove :
    (k j : ℕ) (m : Map ℕ)
    → count_of j (remove k m) ≡ (if k == j then count_of j m - 1 else count_of j m)
unfolding remove
count_of-remove k j m = ground (arith, get-put k j (count_of k m - 1) m, get-delete k j m)

-- `RELAY_LIMITS`
abbrev pub max_connections : ℕ
max_connections = 500

abbrev pub max_connections_per_ip : ℕ
max_connections_per_ip = 50

abbrev pub max_connections_per_ip_per_room : ℕ
max_connections_per_ip_per_room = 12

-- The answer to an upgrade request: refused with a status, or let in, with the keys counted.
pub data Admission : Type 0 where
  refused : (status : ℕ) → Admission
  admitted : Map ℕ → Admission

-- `handleUpgrade` from the number of clients on. `room_key` is `${ip}|${roomId}`, for a request
-- that names a room.
unfoldable pub admit : (clients ip : ℕ) → (room_key : Option ℕ) → Map ℕ → Admission
admit clients ip none counts =
    if leb max_connections clients
    then refused 503
    else if leb max_connections_per_ip (count_of ip counts)
    then refused 429
    else admitted (add ip counts)
admit clients ip (some room_key) counts =
    if leb max_connections clients
    then refused 503
    else if leb max_connections_per_ip (count_of ip counts)
        || leb max_connections_per_ip_per_room (count_of room_key counts)
    then refused 429
    else admitted (add room_key (add ip counts))

-- `release`
unfoldable pub release : (ip : ℕ) → (room_key : Option ℕ) → Map ℕ → Map ℕ
release ip none counts = remove ip counts
release ip (some room_key) counts = remove room_key (remove ip counts)

-- The connections that stand, as `(ip, room_key)`, and how many of them count under a key.
abbrev pub Connections : Type 0
Connections = List (ℕ × Option ℕ)

abbrev named : ℕ → Option ℕ → ℕ
named key none = 0
named key (some room_key) = if room_key == key then 1 else 0

abbrev pub using : ℕ → Connections → ℕ
using key [] = 0
using key ((ip, room_key) ∷ rest) =
    (if ip == key then 1 else 0) + named key room_key + using key rest

-- The counter counts exactly the connections that stand.
abbrev pub Counts : Map ℕ → Connections → Type 0
Counts counts standing = (key : ℕ) → count_of key counts ≡ using key standing

-- If the counter counts exactly the connections that stand, then after a connection is let in it
-- counts that one too, under its address and under its room, and there were fewer than 500 clients
-- and fewer than 50 connections under the address.
pub admit-Counts :
    (clients ip : ℕ) (room_key : Option ℕ) (counts after : Map ℕ) (standing : Connections)
    → Counts counts standing
    → admit clients ip room_key counts ≡ admitted after
    → Counts after ((ip, room_key) ∷ standing)
      × (clients < max_connections)
      × (using ip standing < max_connections_per_ip)
unfolding admit
admit-Counts clients ip none counts after standing h e =
    (λ key. ground (arith, h key, count_of-add ip key counts), ground arith, ground (arith, h ip))
admit-Counts clients ip (some room_key) counts after standing h e = (
  λ key.
      ground (arith, h key, count_of-add ip key counts, count_of-add room_key key (add ip counts)),
  ground arith,
  ground (arith, h ip),
)

-- If the counter counts exactly the connections that stand, then after one of them is released it
-- counts exactly the others.
release-Counts :
    (ip : ℕ) (room_key : Option ℕ) (counts : Map ℕ) (standing : Connections)
    → Counts counts ((ip, room_key) ∷ standing)
    → Counts (release ip room_key counts) standing
unfolding release
release-Counts ip none counts standing h key = ground (arith, h key, count_of-remove ip key counts)
release-Counts ip (some room_key) counts standing h key =
    ground
      (arith, h key, count_of-remove ip key counts, count_of-remove room_key key (remove ip counts))
