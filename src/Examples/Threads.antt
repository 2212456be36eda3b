-- ===== src/Examples/Threads.antt =====
-- Runs of the threads and sockets of src/api/AdminServer.cpp, src/data/WSServer.cpp and
-- src/data/DataPublisher.cpp.
use lib_stereo_camera.Common.{
  ℕ, zero, suc, ◌≡◌, ◌≢◌, ◌+◌, refl, arith, List, [], ◌∷◌, ◌++◌, Bool, true, false, some, Assoc,
  String, pos,
}
use lib_stereo_camera.Handles.{Handle, opens_of, closes_of, AllClosed}
use lib_stereo_camera.Admin.Listener.{
  IsStopped, AdminListener, StartCalls, new_listener, start_listener, stop_listener, Connection,
  arrives, finishes, serve_connections,
}
use lib_stereo_camera.Admin.Listener.Served.{close_connections, stop_leaves_connections}
use lib_stereo_camera.Admin.Listener.Stopped.{stop-start}
use lib_stereo_camera.Admin.Pool.{
  Pool, Worker, at_head, in_loop, new_pool, worker_at, Acceptor, accept_next, push_pending,
  worker_next, take_front, handled, Reach, here, next,
}
use lib_stereo_camera.Admin.Pool.Order.{count, held, taken_in_order}
use lib_stereo_camera.Admin.Pool.Left.{stop_leaves_pending}
use lib_stereo_camera.Server.Listener.{
  Traffic, comes, erased, new_wss_listener, start_wss, serve_traffic, stop_wss,
}
use lib_stereo_camera.Server.Listener.Sockets.{close_sockets, stop_leaves_sockets}

-- The certificate cannot be loaded.
abbrev calls : StartCalls
calls = record { socket = some 3; bound = true; listens = true; context = some 4; loaded = false }

abbrev listener : AdminListener
listener = new_listener (pos 2)

listener-IsStopped : IsStopped listener
unfolding new_listener
listener-IsStopped = record {
  no_fd = refl;
  no_ctx = refl;
  not_running = refl;
  no_thread = refl;
  no_worker = refl;
}

listener-AllClosed : AllClosed listener.log
unfolding new_listener opens_of closes_of
listener-AllClosed h = refl

stop-start_example :
    let s' = stop_listener (start_listener calls listener) in
    IsStopped s' × (s'.worker_count ≡ listener.worker_count) × AllClosed s'.log
stop-start_example = stop-start calls listener listener-IsStopped listener-AllClosed

-- One connection is answered, and one waits.
abbrev connections : List Connection
connections =
    arrives true (record { session = 12; socket = 13 })
    ∷ finishes
    ∷ arrives true (record { session = 14; socket = 15 })
    ∷ []

stop_leaves_connections_example :
    let s = serve_connections connections (start_listener calls (new_listener (pos 2))) in
    IsStopped (stop_listener s)
    × ((h : Handle)
        → opens_of h (stop_listener s).log
          ≡ closes_of h (stop_listener s).log + closes_of h (close_connections s.pending))
stop_leaves_connections_example = stop_leaves_connections calls (pos 2) connections

-- A connection is accepted and taken by the second of two workers; another one waits.
abbrev busy : Pool
busy = record {
  running = true;
  pending = 8 ∷ [];
  workers = at_head ∷ Worker.handling 7 ∷ [];
  acceptor = Acceptor.at_test;
  accepted = 7 ∷ 8 ∷ [];
  taken = 7 ∷ [];
  answered = [];
}

busy-Reach : Reach (new_pool 2) busy
unfolding new_pool
busy-Reach =
    next
      (next
        (next
          (next (next (next here (accept_next _ refl refl)) (push_pending _ 7 refl))
            (worker_next _ 1 (omega arith) refl refl))
          (take_front _ 1 7 [] (omega arith) refl refl))
        (accept_next _ refl refl))
      (push_pending _ 8 refl)

taken_in_order_example :
    (busy.taken ++ busy.pending ≡ busy.accepted)
    × ((c : ℕ) → count c busy.taken ≡ count c busy.answered + held c busy.workers)
taken_in_order_example = taken_in_order 2 busy-Reach

abbrev stopped : Pool
stopped = record busy { running = false }

abbrev answered : Pool
answered = record stopped { workers = at_head ∷ at_head ∷ []; answered = 7 ∷ [] }

stopped_away : (i : ℕ) → worker_at i stopped ≢ in_loop
stopped_away zero e = cc
stopped_away (suc zero) e = cc
stopped_away (suc (suc i)) e = cc

stop_leaves_pending_example :
    (answered.taken ≡ stopped.taken)
    × ((more : List ℕ) × (answered.pending ≡ stopped.pending ++ more))
stop_leaves_pending_example =
    stop_leaves_pending stopped refl stopped_away
      (next here (handled stopped 1 7 (omega arith) refl))

abbrev traffic : List Traffic
traffic =
    comes true (record { session = 5; socket = 6 })
    ∷ comes true (record { session = 7; socket = 8 })
    ∷ erased 0
    ∷ []

stop_leaves_sockets_example :
    let s = serve_traffic traffic (start_wss 1 (some 2) true new_wss_listener) in
    ((stop_wss s).clients ≡ [])
    × ((h : Handle)
        → opens_of h (stop_wss s).log
          ≡ closes_of h (stop_wss s).log + closes_of h (close_sockets s.clients))
stop_leaves_sockets_example = stop_leaves_sockets 1 (some 2) true traffic

abbrev socket_of : String → ℕ
socket_of channel = 5

abbrev binds : String → Bool
binds endpoint = true

abbrev endpoints : Assoc String String
endpoints = ("visual_2d", "ipc:///tmp/a") ∷ []
