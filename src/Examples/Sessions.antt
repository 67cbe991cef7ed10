-- ===== src/Examples/Sessions.antt =====
-- Clients of a connector.
use go_mahjong.Common.{◌≡◌, refl, [], ◌∷◌, none, some, arith}
use go_mahjong.Common.Maps.{get}
use go_mahjong.Connector.{Worker, save_router, upgrade, remove_client, settle}
use go_mahjong.Connector.Counts.{IsCounted}
use go_mahjong.Connector.Reconnect.{done, enter, depart, Visits-IsCounted, settle-remove_client}

abbrev quiet : Worker
quiet = record {
  node_id = "connector-1";
  clients = [];
  conn_map = [];
  conn_semaphore = 0;
  current_connections = 0;
  closed = [];
  tasks = [];
  routers = [];
}

quiet-IsCounted : IsCounted quiet
quiet-IsCounted = record { distinct = tt; semaphore = refl; connections = refl; room = omega arith }

Visits-IsCounted_example : IsCounted (remove_client "c1" (upgrade "ann" "c1" quiet).0)
unfolding get
Visits-IsCounted_example =
    Visits-IsCounted (enter "ann" "c1" refl (depart "c1" done)) quiet-IsCounted

-- Ann is connected.
abbrev ann_connected : Worker
ann_connected = record quiet {
  clients = ("c1", "ann") ∷ [];
  conn_map = ("ann", "c1") ∷ [];
  conn_semaphore = 1;
  current_connections = 1;
  tasks = save_router "ann" ∷ [];
}

settle-remove_client_example :
    let w = settle (remove_client "c1" (upgrade "ann" "c2" ann_connected).0) in
    (get "ann" w.conn_map ≡ some "c2")
    × (get "c2" w.clients ≡ some "ann")
    × (get "ann" w.routers ≡ none)
unfolding get
settle-remove_client_example =
    settle-remove_client "ann" "c1" "c2" ann_connected refl refl refl (omega arith) (omega arith)
