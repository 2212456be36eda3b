-- ===== src/Server/Listener.antt =====
-- src/data/WSServer.cpp: the sockets, TLS context and sessions that `start`, `accept_loop` and `stop` open
-- and close.
pub mod Sockets
use lib_stereo_camera.Common.{
  ℕ, zero, suc, ◌+◌, ◌≡◌, refl, arith, ap, ◌∙◌, List, [], ◌∷◌, ◌++◌, Bool, true, false, Option,
  none, some, if◌then◌else◌, both_branches,
}
use lib_stereo_camera.Handles.{
  ClientHandles, Handle, Event, opens, closes, fd, ssl, ssl_ctx, opens_of, closes_of,
  opens_of-append, closes_of-append, closes_one, close_fd, close_ctx, opens_of-kept, closes_of-kept,
  opens_of-close_fd, opens_of-close_ctx, AllClosed,
}

-- The members of `WSServer` that these functions change; its two threads run or not.
pub record WssListener : Type 0 where
  pub ctx : Option ℕ
  pub listen_fd : Option ℕ
  pub running : Bool
  pub threads : Bool
  pub clients : List ClientHandles
  pub log : List Event

unfoldable pub new_wss_listener : WssListener
new_wss_listener = record {
  ctx = none;
  listen_fd = none;
  running = false;
  threads = false;
  clients = [];
  log = [];
}

-- What `start` makes of the TLS context, which is not tested, and the socket. Without a socket `bind`
-- fails, and `close(-1)` does nothing.
unfoldable pub bind_wss : ℕ → Option ℕ → Bool → WssListener → WssListener
bind_wss x (some n) true s = record s {
  ctx = some x;
  listen_fd = some n;
  running = true;
  threads = true;
  log = s.log ++ opens (ssl_ctx x) ∷ opens (fd n) ∷ [];
}
bind_wss x (some n) false s = record s {
  ctx = none;
  listen_fd = none;
  log = s.log ++ opens (ssl_ctx x) ∷ opens (fd n) ∷ closes (fd n) ∷ closes (ssl_ctx x) ∷ [];
}
bind_wss x none bound s = record s {
  ctx = none;
  listen_fd = none;
  log = s.log ++ opens (ssl_ctx x) ∷ closes (ssl_ctx x) ∷ [];
}

unfoldable pub start_wss : ℕ → Option ℕ → Bool → WssListener → WssListener
unfolding bind_wss
start_wss x socket bound s = if s.running then s else bind_wss x socket bound s

-- `accept_loop` with a client's socket and session: whether the two handshakes succeeded.
unfoldable pub accept_client : Bool → ClientHandles → WssListener → WssListener
accept_client true c s = record s {
  clients = s.clients ++ c ∷ [];
  log = s.log ++ opens (fd c.socket) ∷ opens (ssl c.session) ∷ [];
}
accept_client false c s = record s {
  log =
      s.log
      ++ opens (fd c.socket)
        ∷ opens (ssl c.session)
        ∷ closes (ssl c.session)
        ∷ closes (fd c.socket)
        ∷ [];
}

-- What the clean-up closes, when the client at a place is erased.
unfoldable pub erase_client_at : ℕ → List ClientHandles → List ClientHandles × List Event
erase_client_at i [] = ([], [])
erase_client_at zero (c ∷ cs) = (cs, closes (ssl c.session) ∷ closes (fd c.socket) ∷ [])
erase_client_at (suc i) (c ∷ cs) = let (left, events) = erase_client_at i cs in (c ∷ left, events)

unfoldable pub erase_client : ℕ → WssListener → WssListener
unfolding erase_client_at
erase_client i s =
    let (left, events) = erase_client_at i s.clients in
    record s { clients = left; log = s.log ++ events }

-- The loop of `stop` over the clients frees their sessions, and does not close their sockets.
unfoldable pub close_sessions : List ClientHandles → List Event
close_sessions [] = []
close_sessions (c ∷ cs) = closes (ssl c.session) ∷ close_sessions cs

unfoldable pub stop_wss : WssListener → WssListener
unfolding close_fd close_ctx close_sessions
stop_wss s = record {
  ctx = none;
  listen_fd = none;
  running = false;
  threads = false;
  clients = [];
  log = ((s.log ++ close_fd s.listen_fd) ++ close_sessions s.clients) ++ close_ctx s.ctx;
}

-- What happens while the server runs: a client comes, and gets in or not; a client that has gone is
-- erased.
pub data Traffic : Type 0 where
  comes : Bool → ClientHandles → Traffic
  erased : ℕ → Traffic

unfoldable pub serve_traffic : List Traffic → WssListener → WssListener
unfolding accept_client erase_client
serve_traffic [] s = s
serve_traffic (comes ok c ∷ ts) s = serve_traffic ts (accept_client ok c s)
serve_traffic (erased i ∷ ts) s = serve_traffic ts (erase_client i s)
