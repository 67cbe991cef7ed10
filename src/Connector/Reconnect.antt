-- ===== src/Connector/Reconnect.antt =====
-- A user of connector/runtime/worker.go who connects again.
use go_mahjong.Common.{
  ◌+◌, ◌≡◌, ◌<◌, refl, ap, ◌∙◌, true, false, List, [], ◌∷◌, ◌++◌, none, some, ltb, leb, arith,
}
use go_mahjong.Common.Maps.{
  String, Map, same, same_iff, same_refl, get, put, remove, get-put, get-remove,
}
use go_mahjong.Connector.{
  Worker, Task, delete_router, max_connection_count, bind_user, unbind_user, add_client,
  remove_client, upgrade, run_one, run_tasks, settle,
}
use go_mahjong.Connector.Counts.{
  close_connection-Keeps, bind_user-Keeps, unbind_user-Keeps, IsCounted, upgrade-IsCounted,
  remove_client-IsCounted,
}

run_tasks-append :
    (node : String) (ts us : List Task) (m : Map String)
    → run_tasks node (ts ++ us) m ≡ run_tasks node us (run_tasks node ts m)
unfolding run_tasks
run_tasks-append node [] us m = refl
run_tasks-append node (t ∷ ts) us m = run_tasks-append node ts us (run_one node t m)

-- Clients that connect, each with a new identifier, and connections that end.
pub data Visits : Worker → Worker → Type 0 where
  done : {w : Worker} → Visits w w
  enter :
      {w w' : Worker} (user conn : String)
      → get conn w.clients ≡ none
      → Visits (upgrade user conn w).0 w'
      → Visits w w'
  depart : {w w' : Worker} (conn : String) → Visits (remove_client conn w) w' → Visits w w'
  carry_out : {w w' : Worker} → Visits (settle w) w' → Visits w w'

-- Whatever clients connect, each under a new identifier, and whatever connections end, each
-- connection stands once among the clients, and the counter of connections and the taken places
-- of the semaphore are both the number of clients, at most 100000.
pub Visits-IsCounted : {w w' : Worker} → Visits w w' → IsCounted w → IsCounted w'
unfolding settle
Visits-IsCounted done c = c
Visits-IsCounted {w} (enter user conn new rest) c =
    Visits-IsCounted rest (upgrade-IsCounted user conn w new c)
Visits-IsCounted {w} (depart conn rest) c = Visits-IsCounted rest (remove_client-IsCounted conn w c)
Visits-IsCounted {w} (carry_out rest) c = Visits-IsCounted rest (record {
  distinct = c.distinct;
  semaphore = c.semaphore;
  connections = c.connections;
  room = c.room;
})

last_deletes :
    (user node : String) (m : Map String)
    → get user (run_tasks node (delete_router user ∷ []) m) ≡ none
unfolding run_tasks run_one
last_deletes user node m = ground (arith, get-remove user user m, same_refl user)

-- A connection that is no longer that of its user is removed.
remove_other :
    (user old c : String) (w : Worker)
    → same user "" ≡ false
    → get old w.clients ≡ some user
    → get user w.conn_map ≡ some c
    → same c old ≡ false
    → let w' = remove_client old w in
      (w'.clients ≡ remove old w.clients)
      × (w'.conn_map ≡ w.conn_map)
      × (w'.tasks ≡ w.tasks ++ delete_router user ∷ [])
      × (w'.node_id ≡ w.node_id)
unfolding remove_client
remove_other user old c w name held e other =
    let removed : Worker = record w { clients = remove old w.clients } in
    let rest = unbind_user user old removed in
    let k = unbind_user-Keeps user old c removed name e other in
    let k' = close_connection-Keeps old rest in
    rw (held, remove_client)
      (k'.clients ∙ k.clients, k'.map ∙ k.map, k'.tasks ∙ k.tasks, k'.node_id ∙ k.node_id)

module _ (user old new : String) (w : Worker) (name : same user "" ≡ false)
    (apart : same old new ≡ false) (held : get old w.clients ≡ some user)
    (room : w.current_connections < max_connection_count)
    (free : w.conn_semaphore < max_connection_count) where
  bound : Worker
  bound = bind_user user new w

  entered : Worker
  entered = record bound {
    clients = put new user bound.clients;
    conn_semaphore = bound.conn_semaphore + 1;
    current_connections = bound.current_connections + 1;
  }

  upgraded : upgrade user new w ≡ (entered, true)
  unfolding upgrade add_client entered bound
  upgraded =
      let k = bind_user-Keeps user new w name in
      let below : leb max_connection_count w.current_connections ≡ false = ground arith in
      let space : ltb (bind_user user new w).conn_semaphore max_connection_count ≡ true =
        ground (arith, k.conn_semaphore) in
      rw (below, space) refl

  upgraded_clients : entered.clients ≡ put new user w.clients
  unfolding entered bound
  upgraded_clients = ap (put new user) (bind_user-Keeps user new w name).clients

  still_held : get old entered.clients ≡ some user
  still_held =
      ap (get old) upgraded_clients
      ∙ ground
          (arith, get-put new old user w.clients, held, apart, same_iff new old, same_iff old new)

  bound_to_new : get user entered.conn_map ≡ some new
  unfolding entered bound
  bound_to_new =
      ap (get user) (bind_user-Keeps user new w name).map
      ∙ ground (arith, get-put user user new w.conn_map, same_refl user)

  -- If a user with a name, whose old connection stands, connects again while there is room, and
  -- the old connection is then removed, the user is bound to the new connection, which stands,
  -- but once the goroutines have run in their order the route that other services look up is
  -- gone.
  pub settle-remove_client :
      let w' = settle (remove_client old (upgrade user new w).0) in
      (get user w'.conn_map ≡ some new)
      × (get new w'.clients ≡ some user)
      × (get user w'.routers ≡ none)
  unfolding settle
  settle-remove_client =
      let x = remove_client old entered in
      let (clients, conns, last, nodes) =
        remove_other user old new entered name still_held bound_to_new
          (ground (arith, apart, same_iff new old, same_iff old new)) in
      rw upgraded (
        ap (get user) conns ∙ bound_to_new,
        ap (get new) (clients ∙ ap (remove old) upgraded_clients)
            ∙ ground (
              arith,
              get-remove old new (put new user w.clients),
              apart,
              get-put new new user w.clients,
              same_refl new,
            ),
        ap (λ (ts : List Task). get user (run_tasks x.node_id ts x.routers)) last
            ∙ ap (get user)
                (run_tasks-append x.node_id entered.tasks (delete_router user ∷ []) x.routers)
            ∙ last_deletes user x.node_id (run_tasks x.node_id entered.tasks x.routers),
      )
