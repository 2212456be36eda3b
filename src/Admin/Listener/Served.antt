-- ===== src/Admin/Listener/Served.antt =====
-- src/api/AdminServer.cpp: what is open of the connections after `stop`.
use lib_stereo_camera.Common.{
  ℕ, ℤ, ◌+◌, ◌≡◌, refl, ap, arith, List, [], ◌∷◌, ◌++◌, Bool, true, false, Option, none, some, ◌&&◌,
  both_branches,
}
use lib_stereo_camera.Handles.{
  Handle, Event, ClientHandles, close_fd, close_ctx, opens_of-close_fd, opens_of-close_ctx, opens,
  closes, fd, ssl, opens_of, closes_of, opens_of-append, closes_of-append,
}
use lib_stereo_camera.Admin.Listener.{
  AdminListener, StartCalls, Connection, arrives, finishes, start_tls, start_socket, start_listener,
  stop_listener, new_listener, accept_connection, answer_first, take_first, serve_connections,
  IsStopped,
}
use lib_stereo_camera.Admin.Listener.Stopped.{Holds, start_socket-Holds, stop_listener-IsStopped}

-- The closing of connections.
unfoldable pub close_connections : List ClientHandles → List Event
close_connections [] = []
close_connections (c ∷ cs) = closes (ssl c.session) ∷ closes (fd c.socket) ∷ close_connections cs

-- What is open is what the server and the connections that wait hold.
abbrev HoldsAll : AdminListener → Type 0
HoldsAll s =
    (h : Handle)
    → opens_of h s.log
      ≡ closes_of h s.log
        + closes_of h (close_fd s.server_fd)
        + closes_of h (close_ctx s.ctx)
        + closes_of h (close_connections s.pending)

close_connections-append :
    (h : Handle) (cs : List ClientHandles) (c : ClientHandles)
    → closes_of h (close_connections (cs ++ c ∷ []))
      ≡ closes_of h (close_connections cs) + closes_of h (close_connections (c ∷ []))
unfolding closes_of close_connections
close_connections-append h [] c = omega arith
close_connections-append h (d ∷ cs) c = omega (arith, close_connections-append h cs c)

accept_connection-HoldsAll :
    (ok : Bool) (c : ClientHandles) (s : AdminListener)
    → HoldsAll s
    → HoldsAll (accept_connection ok c s)
unfolding accept_connection opens_of closes_of close_connections
accept_connection-HoldsAll true c s holds h =
    let new = opens (fd c.socket) ∷ opens (ssl c.session) ∷ [] in
    omega (
      arith,
      holds h,
      opens_of-append h s.log new,
      closes_of-append h s.log new,
      close_connections-append h s.pending c,
    )
accept_connection-HoldsAll false c s holds h =
    let new =
      opens (fd c.socket)
      ∷ opens (ssl c.session)
      ∷ closes (ssl c.session)
      ∷ closes (fd c.socket)
      ∷ [] in
    omega (arith, holds h, opens_of-append h s.log new, closes_of-append h s.log new)

taken_first :
    (h : Handle) (cs : List ClientHandles)
    → (opens_of h (take_first cs).1 ≡ 0)
      × (closes_of h (close_connections cs)
          ≡ closes_of h (take_first cs).1 + closes_of h (close_connections (take_first cs).0))
unfolding take_first opens_of closes_of close_connections
taken_first h [] = (refl, omega arith)
taken_first h (c ∷ cs) = (refl, omega arith)

answer_first-HoldsAll : (s : AdminListener) → HoldsAll s → HoldsAll (answer_first s)
unfolding answer_first
answer_first-HoldsAll s holds h =
    let closed = (take_first s.pending).1 in
    omega (
      arith,
      holds h,
      taken_first h s.pending,
      opens_of-append h s.log closed,
      closes_of-append h s.log closed,
    )

serve_connections-HoldsAll :
    (es : List Connection) (s : AdminListener) → HoldsAll s → HoldsAll (serve_connections es s)
unfolding serve_connections
serve_connections-HoldsAll [] s holds = holds
serve_connections-HoldsAll (arrives ok c ∷ es) s holds =
    serve_connections-HoldsAll es _ (accept_connection-HoldsAll ok c s holds)
serve_connections-HoldsAll (finishes ∷ es) s holds =
    serve_connections-HoldsAll es _ (answer_first-HoldsAll s holds)

start_tls-pending :
    (context : Option ℕ) (loaded : Bool) (s : AdminListener)
    → (start_tls context loaded s).pending ≡ s.pending
unfolding start_tls
start_tls-pending none loaded s = refl
start_tls-pending (some x) true s = refl
start_tls-pending (some x) false s = refl

start_socket-pending :
    (socket : Option ℕ) (c : StartCalls) (s : AdminListener)
    → (start_socket socket c s).pending ≡ s.pending
unfolding start_socket
start_socket-pending none c s = refl
start_socket-pending (some n) c s =
    both_branches (λ (t : AdminListener). t.pending ≡ s.pending) (c.bound && c.listens)
      (start_tls-pending c.context c.loaded
        (record s { server_fd = some n; log = s.log ++ opens (fd n) ∷ [] }))
      refl

left_open :
    (c : StartCalls) (worker_threads : ℤ) (es : List Connection)
    → let s = serve_connections es (start_listener c (new_listener worker_threads)) in
      (h : Handle)
      → opens_of h (stop_listener s).log
        ≡ closes_of h (stop_listener s).log + closes_of h (close_connections s.pending)
unfolding start_listener stop_listener new_listener opens_of closes_of close_fd close_ctx
    close_connections
left_open c worker_threads es h =
    let new = new_listener worker_threads in
    let started = start_socket c.socket c new in
    let s = serve_connections es started in
    let stopped : IsStopped new = record {
      no_fd = refl;
      no_ctx = refl;
      not_running = refl;
      no_thread = refl;
      no_worker = refl;
    } in
    let held : Holds started = start_socket-Holds c.socket c new stopped (λ g. refl) in
    let all : HoldsAll started = λ g. omega (
      arith,
      held g,
      ap (λ cs. closes_of g (close_connections cs)) (start_socket-pending c.socket c new),
    ) in
    omega (
      arith,
      serve_connections-HoldsAll es started all h,
      opens_of-append h (s.log ++ close_fd s.server_fd) (close_ctx s.ctx),
      closes_of-append h (s.log ++ close_fd s.server_fd) (close_ctx s.ctx),
      opens_of-append h s.log (close_fd s.server_fd),
      closes_of-append h s.log (close_fd s.server_fd),
      opens_of-close_fd h s.server_fd,
      opens_of-close_ctx h s.ctx,
    )

-- However `start` of a new server goes, and whatever connections come and are answered, after `stop` the
-- server is stopped, and everything has been closed as often as it was opened, but for the connections
-- that were waiting: the TLS session and the socket of each stay open.
pub stop_leaves_connections :
    (c : StartCalls) (worker_threads : ℤ) (es : List Connection)
    → let s = serve_connections es (start_listener c (new_listener worker_threads)) in
      IsStopped (stop_listener s)
      × ((h : Handle)
          → opens_of h (stop_listener s).log
            ≡ closes_of h (stop_listener s).log + closes_of h (close_connections s.pending))
stop_leaves_connections c worker_threads es = (
  stop_listener-IsStopped (serve_connections es (start_listener c (new_listener worker_threads))),
  left_open c worker_threads es,
)
