-- ===== src/Server/Tests.antt =====
-- Tests of the server on one service, at the address 1, whose client has connected.
use pi_vision.Base.{
  ℕ, ◌≡◌, refl, none, some, List, [], ◌∷◌, ◌++◌, arith, ◌==◌, if◌then◌else◌, pos, ok, out_of_fuel,
  Returns, Ends, ℤ,
}
use pi_vision.Chain.{null}
use pi_vision.Chain.Seg.{Seg}
use pi_vision.Decimal.{decimal}
use pi_vision.Sockets.{Sockets}
use pi_vision.Sockets.Scripted.{Script, script, peer, scripted}
use pi_vision.Server.{ServerContext, Server, answer_request, send}
use pi_vision.Server.Setup.{publish_service}
use pi_vision.Server.Setup.Published.{fresh, publish_service-Published}
use pi_vision.Server.Send.{Written, send-Written, send_repeats, send_stuck}
use pi_vision.Server.Poll.{Published}
use pi_vision.Server.Discovery.{answer_request-port, nuls}

abbrev service : ServerContext
service = record {
  served_port_no = 3333;
  service_discovery_port_no = 3334;
  connected = 1;
  server_socket = pos 4;
  service_discovery_socket = pos 5;
  client_socket = pos 6;
  next = null;
}

abbrev server : Server
server = record {
  contexts = λ p. if p == 1 then some service else none;
  connections = 1;
  own_ip_address = 49 ∷ 46 ∷ 49 ∷ 0 ∷ [];
  addr = peer;
}

server-Published : Published server ((1, service) ∷ [])
server-Published = Seg.cons service (omega arith) refl refl refl refl Seg.nil

abbrev buf : List ℕ
buf = 10 ∷ 20 ∷ 30 ∷ []

-- Systems that take two bytes with each call, all of them, two and then all, and none.
abbrev slow : Sockets
slow = scripted (λ calls n. some 2)

abbrev fast : Sockets
fast = scripted (λ calls n. some n)

abbrev jerky : Sockets
jerky = scripted (λ calls n. some (if calls == 0 then 2 else n))

abbrev broken : Sockets
broken = scripted (λ calls n. none)

abbrev quiet : Script
quiet = script []

send-Written_example :
    Returns
      (λ (r, w'). (r ≡ pos 0) × Written slow (pos 6) buf 0 quiet w')
      (send slow 4 1 buf 3 server quiet)
send-Written_example =
    send-Written slow 1 service server (omega arith) refl 4 buf quiet (omega arith) (λ w. (1, refl))
      (omega arith)

send_repeats_example :
    Returns
      (λ (r, w'). (r ≡ pos 0) × (w'.written ≡ 10 ∷ 20 ∷ 10 ∷ 20 ∷ 30 ∷ []))
      (send jerky 3 1 buf 3 server quiet)
send_repeats_example =
    send_repeats jerky 1 service server (omega arith) refl 0 2 buf quiet (omega arith) refl
      (omega arith) (omega arith) refl

send_stuck_example : send broken 100 1 buf 3 server quiet ≡ out_of_fuel
send_stuck_example =
    send_stuck broken 1 service server 100 buf quiet (omega arith) refl (omega arith) (omega arith)
      (λ w. (0, refl))

-- Its client has left, and a request comes.
abbrev idle : ServerContext
idle = record service { connected = 0 }

abbrev idle_server : Server
idle_server = record server { contexts = λ p. if p == 1 then some idle else none }

abbrev asked : Script
asked = record quiet {
  requests = ((87 ∷ 72 ∷ 69 ∷ 82 ∷ 69 ∷ 95 ∷ 73 ∷ 83 ∷ 95 ∷ []) ++ (decimal 3333 ++ nuls 1)) ∷ [];
}

-- "WHERE_IS_3333" and a NUL
answer_request-port_example :
    answer_request fast
      (49 ∷ [])
      service
      ((87 ∷ 72 ∷ 69 ∷ 82 ∷ 69 ∷ 95 ∷ 73 ∷ 83 ∷ 95 ∷ []) ++ (decimal 3333 ++ nuls 1))
      peer
      quiet
    ≡ ok (record quiet { written = 49 ∷ [] })
answer_request-port_example =
    answer_request-port fast (49 ∷ []) service (87 ∷ 72 ∷ 69 ∷ 82 ∷ 69 ∷ 95 ∷ 73 ∷ 83 ∷ 95 ∷ [])
      3333 1 peer quiet refl (omega arith) (omega arith)

-- A second service, at the address 2.
abbrev second : ServerContext
second = record service { served_port_no = 4444; connected = 7; client_socket = pos 8 }

abbrev two_contexts : Server
two_contexts = record server {
  contexts = λ p. if p == 1 then some service else (if p == 2 then some second else none);
}

two_contexts-Published : Published two_contexts ((1, service) ∷ [])
two_contexts-Published = Seg.cons service (omega arith) refl refl refl refl Seg.nil

publish_service-Published_example :
    Ends
      (λ (s', w').
        ((made : ℤ) × (discovery : ℤ) × Published s'
            ((1, service) ∷ (2, fresh second made discovery) ∷ []))
        × (s'.own_ip_address ≡ two_contexts.own_ip_address))
      ⊥
      (publish_service fast 1 2 two_contexts quiet)
publish_service-Published_example =
    publish_service-Published fast 1 2 second two_contexts ((1, service) ∷ []) quiet
      two_contexts-Published (omega arith) refl refl (omega arith)
