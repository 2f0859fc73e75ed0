-- ===== src/Control/Tests.antt =====
-- A test of the control service, at the address 1.
use pi_vision.Base.{none, some, [], ◌∷◌, ◌==◌, if◌then◌else◌, replicate, pos}
use pi_vision.Chain.{null}
use pi_vision.Sockets.{Sockets, received}
use pi_vision.Sockets.Scripted.{Script, script, peer, scripted}
use pi_vision.Server.{ServerContext, Server}

abbrev service : ServerContext
service = record {
  served_port_no = 4444;
  service_discovery_port_no = 4443;
  connected = 1;
  server_socket = pos 4;
  service_discovery_socket = pos 5;
  client_socket = pos 6;
  next = null;
}

abbrev server : Server
server = record {
  contexts = λ p. if p == 1 then some service else none;
  connections = 1;
  own_ip_address = replicate 16 0;
  addr = peer;
}

abbrev os : Sockets
os = scripted (λ calls n. some n)

abbrev stop_message : Script
stop_message = script (received (1 ∷ 0 ∷ []) ∷ [])
