-- ===== src/Admin/Listener.antt =====
-- src/api/AdminServer.cpp: `start` and `stop`, with what each call of the system may answer, and the
-- connections in between.
pub mod Stopped
pub mod Served
use lib_stereo_camera.Common.{
  ℕ, zero, suc, ◌+◌, ◌≡◌, refl, arith, List, [], ◌∷◌, ◌++◌, Bool, true, false, not, ◌&&◌, Option,
  none, some, Option-cases, Bool-cases, inl, inr, ap, both_branches, ◌∙◌, if◌then◌else◌, ℤ, pos,
  negsuc, ltb,
}
use lib_stereo_camera.Handles.{
  Handle, closes_one, Event, close_fd, close_ctx, opens_of-kept, closes_of-kept, opens_of-close_fd,
  opens_of-close_ctx, opens, closes, fd, ssl, ssl_ctx, ClientHandles, opens_of, closes_of,
  opens_of-append, closes_of-append, AllClosed,
}

-- The members of `AdminServer::Impl` that change; the accept thread runs or not.
pub record AdminListener : Type 0 where
  pub server_fd : Option ℕ
  pub ctx : Option ℕ
  pub running : Bool
  pub accept_thread : Bool
  pub workers : ℕ
  pub worker_count : ℕ
  pub pending : List ClientHandles
  pub log : List Event

-- What the calls in `start` answer: the socket and the TLS context, if they could be made, and whether
-- `bind`, `listen` and the loading of certificate and key succeeded.
pub record StartCalls : Type 0 where
  pub socket : Option ℕ
  pub bound : Bool
  pub listens : Bool
  pub context : Option ℕ
  pub loaded : Bool

-- `worker_count > 0 ? worker_count : 4`
unfoldable pub workers_of : ℤ → ℕ
workers_of (pos zero) = 4
workers_of (pos (suc n)) = suc n
workers_of (negsuc n) = 4

unfoldable pub new_listener : ℤ → AdminListener
unfolding workers_of
new_listener count = record {
  server_fd = none;
  ctx = none;
  running = false;
  accept_thread = false;
  workers = 0;
  worker_count = workers_of count;
  pending = [];
  log = [];
}

-- `start` from the TLS context on: the context, and whether certificate and key were loaded.
unfoldable pub start_tls : Option ℕ → Bool → AdminListener → AdminListener
start_tls none loaded s = record s { ctx = none }
start_tls (some x) true s = record s {
  ctx = some x;
  running = true;
  workers = s.workers + s.worker_count;
  accept_thread = true;
  log = s.log ++ opens (ssl_ctx x) ∷ [];
}
start_tls (some x) false s = record s {
  ctx = none;
  log = (s.log ++ opens (ssl_ctx x) ∷ []) ++ closes (ssl_ctx x) ∷ [];
}

-- `start` from the socket on.
unfoldable pub start_socket : Option ℕ → StartCalls → AdminListener → AdminListener
unfolding start_tls
start_socket none c s = record s { server_fd = none }
start_socket (some n) c s =
    let s' = record s { server_fd = some n; log = s.log ++ opens (fd n) ∷ [] } in
    if c.bound && c.listens then start_tls c.context c.loaded s' else s'

unfoldable pub start_listener : StartCalls → AdminListener → AdminListener
unfolding start_socket
start_listener c s = start_socket c.socket c s

-- The accept thread with a client's socket and session: whether the handshake succeeded.
unfoldable pub accept_connection : Bool → ClientHandles → AdminListener → AdminListener
accept_connection true c s = record s {
  pending = s.pending ++ c ∷ [];
  log = s.log ++ opens (fd c.socket) ∷ opens (ssl c.session) ∷ [];
}
accept_connection false c s = record s {
  log =
      s.log
      ++ opens (fd c.socket)
        ∷ opens (ssl c.session)
        ∷ closes (ssl c.session)
        ∷ closes (fd c.socket)
        ∷ [];
}

-- A worker takes the first connection that waits, and closes it at the end of `handle_connection`.
unfoldable pub take_first : List ClientHandles → List ClientHandles × List Event
take_first [] = ([], [])
take_first (c ∷ cs) = (cs, closes (ssl c.session) ∷ closes (fd c.socket) ∷ [])

unfoldable pub answer_first : AdminListener → AdminListener
unfolding take_first
answer_first s =
    let (left, events) = take_first s.pending in record s { pending = left; log = s.log ++ events }

-- What happens while the server runs: a connection comes, and gets through the handshake or not; or the
-- first one that waits is taken and answered. A worker that has taken one ends it before `stop` returns.
pub data Connection : Type 0 where
  arrives : Bool → ClientHandles → Connection
  finishes : Connection

unfoldable pub serve_connections : List Connection → AdminListener → AdminListener
unfolding accept_connection answer_first
serve_connections [] s = s
serve_connections (arrives ok c ∷ es) s = serve_connections es (accept_connection ok c s)
serve_connections (finishes ∷ es) s = serve_connections es (answer_first s)

-- `stop`, which waits for the accept thread and the workers. The connections that still wait stay in the
-- queue and open.
unfoldable pub stop_listener : AdminListener → AdminListener
unfolding close_fd close_ctx
stop_listener s = record s {
  server_fd = none;
  ctx = none;
  running = false;
  accept_thread = false;
  workers = 0;
  log = (s.log ++ close_fd s.server_fd) ++ close_ctx s.ctx;
}

-- A server that is stopped: no socket, no context, no thread.
pub record IsStopped (s : AdminListener) : Type 0 where
  pub no_fd : s.server_fd ≡ none
  pub no_ctx : s.ctx ≡ none
  pub not_running : s.running ≡ false
  pub no_thread : s.accept_thread ≡ false
  pub no_worker : s.workers ≡ 0
