-- ===== src/Connector/Counts.antt =====
-- What the operations of connector/runtime/worker.go change, and that its counters count the connections.
use go_mahjong.Common.{
  ◌≡◌, ◌≤◌, refl, sym, ap, subst, ◌∙◌, false, List, [], ◌∷◌, ◌++◌, none, some, ltb, leb, length,
  arith, Bool-cases, Option-cases, inl, inr,
}
use go_mahjong.Common.Maps.{
  String, Map, same, among, get, put, remove, IsDistinct, remove_missing, length-remove,
  IsDistinct-remove,
}
use go_mahjong.Connector.{
  Worker, Task, save_router, delete_router, max_connection_count, close_connection, bind_user,
  unbind_user, add_client, remove_client, upgrade,
}

-- Only what is closed may differ, and what is given.
pub record Keeps (w w' : Worker) (conns : Map String) (waiting : List Task) : Type 0 where
  pub node_id : w'.node_id ≡ w.node_id
  pub clients : w'.clients ≡ w.clients
  pub map : w'.conn_map ≡ conns
  pub conn_semaphore : w'.conn_semaphore ≡ w.conn_semaphore
  pub current_connections : w'.current_connections ≡ w.current_connections
  pub tasks : w'.tasks ≡ waiting
  pub routers : w'.routers ≡ w.routers

itself : (w : Worker) → Keeps w w w.conn_map w.tasks
itself w = record {
  node_id = refl;
  clients = refl;
  map = refl;
  conn_semaphore = refl;
  current_connections = refl;
  tasks = refl;
  routers = refl;
}

pub close_connection-Keeps :
    (conn : String) (w : Worker) → Keeps w (close_connection conn w) w.conn_map w.tasks
unfolding close_connection
close_connection-Keeps conn w = elim (Bool-cases (among conn w.closed)) [
  | inl e ↦ rw e (itself w)
  | inr e ↦ rw e (record {
    node_id = refl;
    clients = refl;
    map = refl;
    conn_semaphore = refl;
    current_connections = refl;
    tasks = refl;
    routers = refl;
  })
]

bound_from :
    (user conn : String) (w w' : Worker)
    → Keeps w w' w.conn_map w.tasks
    → Keeps w
        (record w' {
          conn_map = put user conn w'.conn_map;
          tasks = w'.tasks ++ save_router user ∷ [];
        })
        (put user conn w.conn_map)
        (w.tasks ++ save_router user ∷ [])
bound_from user conn w w' k = record {
  node_id = k.node_id;
  clients = k.clients;
  map = ap (put user conn) k.map;
  conn_semaphore = k.conn_semaphore;
  current_connections = k.current_connections;
  tasks = ap (λ (ts : List Task). ts ++ save_router user ∷ []) k.tasks;
  routers = k.routers;
}

pub bind_user-Keeps :
    (user conn : String) (w : Worker)
    → same user "" ≡ false
    → Keeps w (bind_user user conn w) (put user conn w.conn_map) (w.tasks ++ save_router user ∷ [])
unfolding bind_user
bind_user-Keeps user conn w name = elim (Option-cases (get user w.conn_map)) [
  | inl e ↦ rw (name, e, bind_user) (bound_from user conn w w (itself w))
  | inr (old, e) ↦ elim (Bool-cases (same old conn)) [
    | inl mine ↦ rw (name, e, mine, bind_user) (bound_from user conn w w (itself w))
    | inr other ↦
        rw (name, e, other, bind_user)
          (bound_from user conn w (close_connection old w) (close_connection-Keeps old w))
  ]
]

-- Of another connection, only the route is deleted.
pub unbind_user-Keeps :
    (user conn c : String) (w : Worker)
    → same user "" ≡ false
    → get user w.conn_map ≡ some c
    → same c conn ≡ false
    → Keeps w (unbind_user user conn w) w.conn_map (w.tasks ++ delete_router user ∷ [])
unfolding unbind_user
unbind_user-Keeps user conn c w name e other =
    rw (name, e, other, unbind_user)
      (record {
        node_id = refl;
        clients = refl;
        map = refl;
        conn_semaphore = refl;
        current_connections = refl;
        tasks = refl;
        routers = refl;
      })

-- The counters count the connections, each of which stands once, and there is room for them.
pub record IsCounted (w : Worker) : Type 0 where
  pub distinct : IsDistinct w.clients
  pub semaphore : w.conn_semaphore ≡ length w.clients
  pub connections : w.current_connections ≡ length w.clients
  pub room : length w.clients ≤ max_connection_count

Keeps-IsCounted :
    (w w' : Worker) (conns : Map String) (waiting : List Task)
    → Keeps w w' conns waiting
    → IsCounted w
    → IsCounted w'
Keeps-IsCounted w w' conns waiting k c =
    let size = ap (λ (m : Map String). length m) k.clients in
    record {
      distinct = subst IsDistinct (sym k.clients) c.distinct;
      semaphore = omega (arith, size, k.conn_semaphore, c.semaphore);
      connections = omega (arith, size, k.current_connections, c.connections);
      room = omega (arith, size, c.room);
    }

bound_clients :
    (user conn : String) (w : Worker)
    → get conn (bind_user user conn w).clients ≡ get conn w.clients
bound_clients user conn w = elim (Bool-cases (same user "")) [
  | inl e ↦ unfold bind_user in rw e refl
  | inr e ↦ ap (get conn) (bind_user-Keeps user conn w e).clients
]

-- Whatever the user, `BindUser` and `UnbindUser` leave the connections.
bind_user-IsCounted :
    (user conn : String) (w : Worker) → IsCounted w → IsCounted (bind_user user conn w)
bind_user-IsCounted user conn w c = elim (Bool-cases (same user "")) [
  | inl e ↦ unfold bind_user in rw e c
  | inr e ↦ Keeps-IsCounted w _ _ _ (bind_user-Keeps user conn w e) c
]

unbind_user-clients :
    (user conn : String) (w : Worker)
    → ((unbind_user user conn w).clients ≡ w.clients)
      × ((unbind_user user conn w).conn_semaphore ≡ w.conn_semaphore)
      × ((unbind_user user conn w).current_connections ≡ w.current_connections)
unfolding unbind_user
unbind_user-clients user conn w = elim (Bool-cases (same user "")) [
  | inl e ↦ rw e (refl, refl, refl)
  | inr e ↦ elim (Option-cases (get user w.conn_map)) [
    | inl e' ↦ rw (e, e', unbind_user) (refl, refl, refl)
    | inr (c, e') ↦ elim (Bool-cases (same c conn)) [
      | inl mine ↦ rw (e, e', mine, unbind_user) (refl, refl, refl)
      | inr other ↦ rw (e, e', other, unbind_user) (refl, refl, refl)
    ]
  ]
]

add_client-IsCounted :
    (user conn : String) (w : Worker)
    → get conn w.clients ≡ none
    → IsCounted w
    → IsCounted (add_client user conn w)
unfolding add_client put
add_client-IsCounted user conn w new c =
    elim (Bool-cases (ltb w.conn_semaphore max_connection_count)) [
      | inr full ↦ rw full (Keeps-IsCounted w _ _ _ (close_connection-Keeps conn w) c)
      | inl free ↦
          let same' = remove_missing conn w.clients new in
          rw (free, same')
            (record {
              distinct = (new, c.distinct);
              semaphore = omega (arith, c.semaphore);
              connections = omega (arith, c.connections);
              room = ground (arith, c.semaphore);
            })
    ]

pub upgrade-IsCounted :
    (user conn : String) (w : Worker)
    → get conn w.clients ≡ none
    → IsCounted w
    → IsCounted (upgrade user conn w).0
unfolding upgrade
upgrade-IsCounted user conn w new c =
    elim (Bool-cases (leb max_connection_count w.current_connections)) [
      | inl full ↦ rw full c
      | inr free ↦ rw free (
          add_client-IsCounted user conn (bind_user user conn w) (bound_clients user conn w ∙ new)
            (bind_user-IsCounted user conn w c))
    ]

pub remove_client-IsCounted :
    (conn : String) (w : Worker) → IsCounted w → IsCounted (remove_client conn w)
unfolding remove_client
remove_client-IsCounted conn w c = elim (Option-cases (get conn w.clients)) [
  | inl e ↦ rw (e, remove_client) c
  | inr (user, e) ↦
      let removed : Worker = record w { clients = remove conn w.clients } in
      let rest = unbind_user user conn removed in
      let (same_clients, same_semaphore, same_count) = unbind_user-clients user conn removed in
      let k = close_connection-Keeps conn rest in
      let size = length-remove conn w.clients user c.distinct e in
      let left : (close_connection conn rest).clients ≡ remove conn w.clients =
        k.clients ∙ same_clients in
      let left_size = ap (λ (m : Map String). length m) left in
      rw (e, remove_client)
        (record {
          distinct = subst IsDistinct (sym left) (IsDistinct-remove conn w.clients c.distinct);
          semaphore = omega (arith, same_semaphore, left_size, size, c.semaphore);
          connections = omega (arith, same_count, left_size, size, c.connections);
          room = omega (arith, left_size, size, c.room);
        })
]
