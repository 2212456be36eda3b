-- ===== src/Server/Listener/Sockets.antt =====
-- src/data/WSServer.cpp: what is open after `stop`.
use lib_stereo_camera.Common.{
  ℕ, zero, suc, ◌+◌, ◌≡◌, refl, arith, List, [], ◌∷◌, ◌++◌, Bool, true, false, Option, none, some,
}
use lib_stereo_camera.Server.Listener.{
  ClientHandles, WssListener, new_wss_listener, bind_wss, start_wss, accept_client, erase_client_at,
  erase_client, close_sessions, stop_wss, Traffic, comes, erased, serve_traffic,
}
use lib_stereo_camera.Handles.{
  Handle, Event, opens, closes, fd, ssl, opens_of, closes_of, opens_of-append, closes_of-append,
  closes_one, close_fd, close_ctx, opens_of-close_fd, opens_of-close_ctx,
}

-- The sockets of clients, as if they were closed.
unfoldable pub close_sockets : List ClientHandles → List Event
close_sockets [] = []
close_sockets (c ∷ cs) = closes (fd c.socket) ∷ close_sockets cs

-- What is open is what the server and its clients hold.
record Holds (s : WssListener) : Type 0 where
  balance :
      (h : Handle)
      → opens_of h s.log
        ≡ closes_of h s.log
          + closes_of h (close_fd s.listen_fd)
          + closes_of h (close_ctx s.ctx)
          + closes_of h (close_sessions s.clients)
          + closes_of h (close_sockets s.clients)

-- What is closed of the clients, when one is added at the end, or taken out.
close_sessions-append :
    (h : Handle) (cs : List ClientHandles) (c : ClientHandles)
    → closes_of h (close_sessions (cs ++ c ∷ []))
      ≡ closes_of h (close_sessions cs) + closes_one h (closes (ssl c.session))
unfolding closes_of close_sessions
close_sessions-append h [] c = omega arith
close_sessions-append h (d ∷ cs) c = omega (arith, close_sessions-append h cs c)

close_sockets-append :
    (h : Handle) (cs : List ClientHandles) (c : ClientHandles)
    → closes_of h (close_sockets (cs ++ c ∷ []))
      ≡ closes_of h (close_sockets cs) + closes_one h (closes (fd c.socket))
unfolding closes_of close_sockets
close_sockets-append h [] c = omega arith
close_sockets-append h (d ∷ cs) c = omega (arith, close_sockets-append h cs c)

erase_client_at-closes :
    (h : Handle) (i : ℕ) (cs : List ClientHandles)
    → let (left, events) = erase_client_at i cs in
      (opens_of h events ≡ 0)
      × (closes_of h (close_sessions cs) + closes_of h (close_sockets cs)
          ≡ closes_of h events
            + closes_of h (close_sessions left)
            + closes_of h (close_sockets left))
unfolding erase_client_at closes_of opens_of close_sessions close_sockets
erase_client_at-closes h i [] = (refl, refl)
erase_client_at-closes h zero (c ∷ cs) = (refl, omega arith)
erase_client_at-closes h (suc i) (c ∷ cs) =
    let (none_opened, same) = erase_client_at-closes h i cs in (none_opened, omega arith)

accept_client-Holds :
    (ok : Bool) (c : ClientHandles) (s : WssListener) → Holds s → Holds (accept_client ok c s)
unfolding accept_client closes_of opens_of
accept_client-Holds true c s holds = record {
  balance = λ h.
      let events = opens (fd c.socket) ∷ opens (ssl c.session) ∷ [] in
      omega (
        arith,
        holds.balance h,
        opens_of-append h s.log events,
        closes_of-append h s.log events,
        close_sessions-append h s.clients c,
        close_sockets-append h s.clients c,
      );
}
accept_client-Holds false c s holds = record {
  balance = λ h.
      let events =
        opens (fd c.socket)
        ∷ opens (ssl c.session)
        ∷ closes (ssl c.session)
        ∷ closes (fd c.socket)
        ∷ [] in
      omega
        (arith, holds.balance h, opens_of-append h s.log events, closes_of-append h s.log events);
}

erase_client-Holds : (i : ℕ) (s : WssListener) → Holds s → Holds (erase_client i s)
unfolding erase_client
erase_client-Holds i s holds = record {
  balance = λ h.
      let events = (erase_client_at i s.clients).1 in
      omega (
        arith,
        holds.balance h,
        opens_of-append h s.log events,
        closes_of-append h s.log events,
        erase_client_at-closes h i s.clients,
      );
}

serve_traffic-Holds : (ts : List Traffic) (s : WssListener) → Holds s → Holds (serve_traffic ts s)
unfolding serve_traffic
serve_traffic-Holds [] s holds = holds
serve_traffic-Holds (comes ok c ∷ ts) s holds =
    serve_traffic-Holds ts (accept_client ok c s) (accept_client-Holds ok c s holds)
serve_traffic-Holds (erased i ∷ ts) s holds =
    serve_traffic-Holds ts (erase_client i s) (erase_client-Holds i s holds)

start_wss-Holds :
    (x : ℕ) (socket : Option ℕ) (bound : Bool) → Holds (start_wss x socket bound new_wss_listener)
unfolding start_wss bind_wss new_wss_listener closes_of opens_of close_fd close_ctx close_sessions
    close_sockets
start_wss-Holds x (some n) true = record { balance = λ h. omega arith }
start_wss-Holds x (some n) false = record { balance = λ h. omega arith }
start_wss-Holds x none bound = record { balance = λ h. omega arith }

opens_of-close_sessions :
    (h : Handle) (cs : List ClientHandles) → opens_of h (close_sessions cs) ≡ 0
unfolding opens_of close_sessions
opens_of-close_sessions h [] = refl
opens_of-close_sessions h (c ∷ cs) = omega (arith, opens_of-close_sessions h cs)

-- However `start` goes, and whatever clients come and go, after `stop` no client is left and everything
-- has been closed as often as it was opened, but for the sockets of the clients that were there: each of
-- them stays open.
pub stop_leaves_sockets :
    (x : ℕ) (socket : Option ℕ) (bound : Bool) (ts : List Traffic)
    → let s = serve_traffic ts (start_wss x socket bound new_wss_listener) in
      ((stop_wss s).clients ≡ [])
      × ((h : Handle)
          → opens_of h (stop_wss s).log
            ≡ closes_of h (stop_wss s).log + closes_of h (close_sockets s.clients))
unfolding stop_wss
stop_leaves_sockets x socket bound ts =
    let s = serve_traffic ts (start_wss x socket bound new_wss_listener) in
    let holds = serve_traffic-Holds ts _ (start_wss-Holds x socket bound) in
    (
      refl,
      λ h. omega (
        arith,
        holds.balance h,
        opens_of-append h ((s.log ++ close_fd s.listen_fd) ++ close_sessions s.clients)
            (close_ctx s.ctx),
        closes_of-append h ((s.log ++ close_fd s.listen_fd) ++ close_sessions s.clients)
            (close_ctx s.ctx),
        opens_of-append h (s.log ++ close_fd s.listen_fd) (close_sessions s.clients),
        closes_of-append h (s.log ++ close_fd s.listen_fd) (close_sessions s.clients),
        opens_of-append h s.log (close_fd s.listen_fd),
        closes_of-append h s.log (close_fd s.listen_fd),
        opens_of-close_fd h s.listen_fd,
        opens_of-close_ctx h s.ctx,
        opens_of-close_sessions h s.clients,
      ),
    )
