-- ===== src/Connector.antt =====
-- connector/runtime/worker.go, `Run` and `Close` of connection.go and extractUserIDFromTestPath of white_list.go:
-- the connections of clients, their users, and the routes that other services look up.
-- A connection is known by its identifier, which is new for each; the buckets, chosen by a hash of the
-- identifier, are one map. The routes in Redis are saved and deleted by goroutines, so as tasks that wait.
pub mod Counts
pub mod Reconnect
use go_mahjong.Common.{
  ℕ, zero, suc, ◌+◌, ◌-◌, Bool, true, false, not, ◌&&◌, ◌||◌, List, [], ◌∷◌, ◌++◌, Option, none,
  some, ltb, leb, ◌==◌, if◌then◌else◌, length,
}
use go_mahjong.Common.Maps.{String, Map, same, is_some, among, get, put, remove, keys}

-- `go func() { SaveConnectorRouter }` and `go func() { DeleteConnectorRouter }` of a user.
pub data Task : Type 0 where
  save_router delete_router : String → Task

-- `clients` gives the user of each connection, `conn_map` the connection of each user.
pub record Worker : Type 0 where
  pub node_id : String
  pub clients : Map String
  pub conn_map : Map String
  pub conn_semaphore : ℕ
  pub current_connections : ℕ
  pub closed : List String
  pub tasks : List Task
  pub routers : Map String

abbrev pub max_connection_count : ℕ
max_connection_count = 100000

-- `Close` of a connection, once.
unfoldable pub close_connection : String → Worker → Worker
close_connection conn w = if among conn w.closed then w else record w { closed = conn ∷ w.closed }

unfoldable pub bind_user : String → String → Worker → Worker
bind_user user conn w =
    let existing : Worker = elim (get user w.conn_map) [
      | none ↦ w
      | some old ↦ if same old conn then w else close_connection old w
    ] in
    let bound = record existing {
      conn_map = put user conn existing.conn_map;
      tasks = existing.tasks ++ save_router user ∷ [];
    } in
    if same user "" then w else bound

unfoldable pub unbind_user : String → String → Worker → Worker
unbind_user user conn w =
    let stored : Worker = elim (get user w.conn_map) [
      | none ↦ w
      | some c ↦ if same c conn then record w { conn_map = remove user w.conn_map } else w
    ] in
    let unbound = record stored { tasks = stored.tasks ++ delete_router user ∷ [] } in
    if same user "" then w else unbound

unfoldable pub add_client : String → String → Worker → Worker
add_client user conn w =
    if ltb w.conn_semaphore max_connection_count
    then record w {
      clients = put conn user w.clients;
      conn_semaphore = w.conn_semaphore + 1;
      current_connections = w.current_connections + 1;
    }
    else close_connection conn w

-- `removeClient`, before the pool of connections takes the connection back and forgets its session.
unfoldable pub remove_client : String → Worker → Worker
remove_client conn w = elim (get conn w.clients) [
  | none ↦ w
  | some user ↦
      let rest = unbind_user user conn (record w { clients = remove conn w.clients }) in
      record (close_connection conn rest) {
        conn_semaphore = rest.conn_semaphore - 1;
        current_connections = rest.current_connections - 1;
      }
]

-- `upgradeFunc` once the user is known, the rate allows it, and the upgrade succeeded; false is a
-- refusal because the server is full.
unfoldable pub upgrade : String → String → Worker → Worker × Bool
upgrade user conn w =
    if leb max_connection_count w.current_connections
    then (w, false)
    else (add_client user conn (bind_user user conn w), true)

unfoldable pub run_one : String → Task → Map String → Map String
run_one node (save_router user) routers = put user node routers
run_one node (delete_router user) routers = remove user routers

-- The tasks that wait are carried out, one after the other.
unfoldable pub run_tasks : String → List Task → Map String → Map String
run_tasks node [] routers = routers
run_tasks node (t ∷ ts) routers = run_tasks node ts (run_one node t routers)

unfoldable pub settle : Worker → Worker
settle w = record w { tasks = []; routers = run_tasks w.node_id w.tasks w.routers }

-- `handleProtocolEvent` finds the connection, and a handler for the type of the packet.
pub data EventResult : Type 0 where
  no_client no_handler handled : EventResult

unfoldable pub handle_protocol_event : (ℕ → Bool) → ℕ → String → Worker → EventResult
handle_protocol_event has_handler t conn w = elim (get conn w.clients) [
  | none ↦ no_client
  | some user ↦ if has_handler t then handled else no_handler
]

-- The users whom `Push` reaches, of those that a message names.
unfoldable pub push_targets : List String → Worker → List String
push_targets [] w = []
push_targets (user ∷ users) w =
    let rest = push_targets users w in
    if same user ""
    then rest
    else elim (get user w.conn_map) [ none ↦ rest | some conn ↦ conn ∷ rest ]

-- `extractUserIDFromTestPath`, of the segments of the path that begin with "test=", without that prefix.
unfoldable pub test_user : List String → Option String
test_user [] = none
test_user (user ∷ segments) = if same user "" then test_user segments else some user

unfoldable pub extract_user_id : Bool → List String → Option String
extract_user_id allow_test_path segments = if allow_test_path then none else test_user segments

-- `identifyUser`, of the segments, the token of the request, and what parses a token with the secret.
unfoldable pub identify_user :
    Bool → List String → String → String → (String → String → Option String) → Option String
identify_user allow_test_path segments token secret parse_token =
    elim (extract_user_id allow_test_path segments) [
      | some user ↦ some user
      | none ↦ if same token "" || same secret "" then none else elim (parse_token token secret) [
        | none ↦ none
        | some user ↦ if same user "" then none else some user
      ]
    ]
