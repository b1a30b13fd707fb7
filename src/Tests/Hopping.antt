-- ===== src/Tests/Hopping.antt =====
-- A client of the port hopper that has got a frame, and a server with three io_services.
use boost.Prelude.{◌≡◌, refl, ℕ, true, some, map, [], ◌∷◌, Bytes, codes, arith}
use boost.Asio.Connection.{success, failure}
use boost.Asio.IoServicePool.{run, has_joined}
use boost.Asio.IoServicePool.Server
use boost.Asio.IoServicePool.Spreading.{accept_all, accepted, service_of, make_server-accept_all}
use boost.Asio.Porthopper
use boost.Asio.Porthopper.Client
use boost.Asio.Porthopper.Hopping
use boost.Asio.Porthopper.Hopping.{Reach, IsAsked, IsRising, Reach-IsRising}
use boost.Asio.Porthopper.Handover.{IsMoved, handle_requests, handle_requests-IsMoved}
use boost.Tests.Numbers.{streams, streams-IsHex}

abbrev frame_1 : Bytes
frame_1 = Porthopper.frame streams 1 (codes "*...")

abbrev connected_client : Client.Client
connected_client = Client.connect streams 80

abbrev hopping_client : Client.Client
hopping_client = Client.receive streams 50 81 frame_1 connected_client

hopping-Reach : Reach streams hopping_client
unfolding Client.connect
hopping-Reach =
    Hopping.next (Hopping.connected 80 (omega arith, omega arith))
      (Hopping.was_received 50 81 frame_1 refl (omega arith, omega arith))

Reach-IsRising_example : IsRising streams 0 hopping_client.shown hopping_client.last_frame_number
Reach-IsRising_example = Reach-IsRising streams hopping-Reach

abbrev no_subscribers : Porthopper.Server
no_subscribers = record { subscribers_ = []; next_frame_number_ = 1; sent = [] }

handle_requests-IsMoved_example :
    (p : ℕ) × IsAsked streams p hopping_client.requests
    × IsMoved 5 p (handle_requests streams 5 hopping_client.requests no_subscribers)
handle_requests-IsMoved_example =
    handle_requests-IsMoved streams streams-IsHex 5 no_subscribers (λ port. refl) hopping-Reach

make_server-accept_all_example :
    (s : Server.Server) × (Server.make_server 3 ≡ some s)
    × ((accept_all (success ∷ failure ∷ success ∷ []) s).started
        ≡ map (service_of 3) (accepted 2 (success ∷ failure ∷ success ∷ [])))
    × (has_joined (
          run
            (Server.handle_stop (accept_all (success ∷ failure ∷ success ∷ []) s)).io_service_pool_)
        ≡ true)
make_server-accept_all_example =
    make_server-accept_all 3 (success ∷ failure ∷ success ∷ []) (omega arith)
