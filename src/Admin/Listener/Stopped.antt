-- ===== src/Admin/Listener/Stopped.antt =====
-- src/api/AdminServer.cpp: after `stop` nothing that `start` opened is open.
use lib_stereo_camera.Common.{
  ℕ, ◌+◌, ◌≡◌, refl, arith, [], ◌∷◌, ◌++◌, Bool, true, false, ◌&&◌, Option, none, some, ap,
  both_branches, ◌∙◌,
}
use lib_stereo_camera.Admin.Listener.{
  AdminListener, StartCalls, start_tls, start_socket, start_listener, stop_listener, IsStopped,
}
use lib_stereo_camera.Handles.{
  Handle, close_fd, close_ctx, opens_of-kept, closes_of-kept, opens_of-close_fd, opens_of-close_ctx,
  opens, closes, fd, ssl_ctx, opens_of, closes_of, opens_of-append, closes_of-append, AllClosed,
}

-- What is open is what the server holds.
abbrev pub Holds : AdminListener → Type 0
Holds s =
    (h : Handle)
    → opens_of h s.log
      ≡ closes_of h s.log + closes_of h (close_fd s.server_fd) + closes_of h (close_ctx s.ctx)

pub stop_listener-IsStopped : (s : AdminListener) → IsStopped (stop_listener s)
unfolding stop_listener
stop_listener-IsStopped s = record {
  no_fd = refl;
  no_ctx = refl;
  not_running = refl;
  no_thread = refl;
  no_worker = refl;
}

stop_listener-workers : (s : AdminListener) → (stop_listener s).worker_count ≡ s.worker_count
unfolding stop_listener
stop_listener-workers s = refl

start_tls-Holds :
    (context : Option ℕ) (loaded : Bool) (s : AdminListener)
    → s.ctx ≡ none
    → Holds s
    → Holds (start_tls context loaded s)
unfolding start_tls closes_of opens_of close_ctx
start_tls-Holds none loaded s no_ctx holds h =
    omega (arith, holds h, ap (λ o. closes_of h (close_ctx o)) no_ctx)
start_tls-Holds (some x) true s no_ctx holds h = omega (
  arith,
  holds h,
  opens_of-kept h (ssl_ctx x) s.log,
  closes_of-kept h (ssl_ctx x) s.log,
  ap (λ o. closes_of h (close_ctx o)) no_ctx,
)
start_tls-Holds (some x) false s no_ctx holds h = omega (
  arith,
  holds h,
  opens_of-kept h (ssl_ctx x) s.log,
  closes_of-kept h (ssl_ctx x) s.log,
  opens_of-append h (s.log ++ opens (ssl_ctx x) ∷ []) (closes (ssl_ctx x) ∷ []),
  closes_of-append h (s.log ++ opens (ssl_ctx x) ∷ []) (closes (ssl_ctx x) ∷ []),
  ap (λ o. closes_of h (close_ctx o)) no_ctx,
)

bound-Holds :
    (n : ℕ) (s : AdminListener)
    → IsStopped s
    → Holds s
    → Holds (record s { server_fd = some n; log = s.log ++ opens (fd n) ∷ [] })
unfolding closes_of close_fd
bound-Holds n s stopped holds h = omega (
  arith,
  holds h,
  opens_of-kept h (fd n) s.log,
  closes_of-kept h (fd n) s.log,
  ap (λ o. closes_of h (close_fd o)) stopped.no_fd,
)

pub start_socket-Holds :
    (socket : Option ℕ) (c : StartCalls) (s : AdminListener)
    → IsStopped s
    → Holds s
    → Holds (start_socket socket c s)
unfolding start_socket closes_of opens_of close_fd
start_socket-Holds none c s stopped holds h =
    omega (arith, holds h, ap (λ o. closes_of h (close_fd o)) stopped.no_fd)
start_socket-Holds (some n) c s stopped holds h =
    let s' = record s { server_fd = some n; log = s.log ++ opens (fd n) ∷ [] } in
    both_branches Holds (c.bound && c.listens)
      (start_tls-Holds c.context c.loaded s' stopped.no_ctx (bound-Holds n s stopped holds))
      (bound-Holds n s stopped holds) h

stop_listener-AllClosed : (s : AdminListener) → Holds s → AllClosed (stop_listener s).log
unfolding stop_listener
stop_listener-AllClosed s holds h = omega (
  arith,
  holds h,
  opens_of-append h (s.log ++ close_fd s.server_fd) (close_ctx s.ctx),
  closes_of-append h (s.log ++ close_fd s.server_fd) (close_ctx s.ctx),
  opens_of-append h s.log (close_fd s.server_fd),
  closes_of-append h s.log (close_fd s.server_fd),
  opens_of-close_fd h s.server_fd,
  opens_of-close_ctx h s.ctx,
)

pub IsStopped-Holds : (s : AdminListener) → IsStopped s → AllClosed s.log → Holds s
unfolding closes_of close_fd close_ctx
IsStopped-Holds s stopped closed h = omega (
  arith,
  closed h,
  ap (λ o. closes_of h (close_fd o)) stopped.no_fd,
  ap (λ o. closes_of h (close_ctx o)) stopped.no_ctx,
)

-- The number of workers is fixed when the server is made.
start_tls-workers :
    (context : Option ℕ) (loaded : Bool) (s : AdminListener)
    → (start_tls context loaded s).worker_count ≡ s.worker_count
unfolding start_tls
start_tls-workers none loaded s = refl
start_tls-workers (some x) true s = refl
start_tls-workers (some x) false s = refl

start_socket-workers :
    (socket : Option ℕ) (c : StartCalls) (s : AdminListener)
    → (start_socket socket c s).worker_count ≡ s.worker_count
unfolding start_socket
start_socket-workers none c s = refl
start_socket-workers (some n) c s =
    both_branches (λ (t : AdminListener). t.worker_count ≡ s.worker_count) (c.bound && c.listens)
      (start_tls-workers c.context c.loaded
        (record s { server_fd = some n; log = s.log ++ opens (fd n) ∷ [] }))
      refl

-- Whichever call of `start` fails, `stop` afterwards leaves a stopped server stopped, with its number of
-- workers, and has closed what `start` opened, each handle as often as it was opened.
pub stop-start :
    (c : StartCalls) (s : AdminListener)
    → IsStopped s
    → AllClosed s.log
    → let s' = stop_listener (start_listener c s) in
      IsStopped s' × (s'.worker_count ≡ s.worker_count) × AllClosed s'.log
unfolding start_listener
stop-start c s stopped closed = (
  stop_listener-IsStopped (start_socket c.socket c s),
  stop_listener-workers (start_socket c.socket c s) ∙ start_socket-workers c.socket c s,
  stop_listener-AllClosed (start_socket c.socket c s)
      (start_socket-Holds c.socket c s stopped (IsStopped-Holds s stopped closed)),
)
