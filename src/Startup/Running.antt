-- ===== src/Startup/Running.antt =====
-- src/main.cpp: the calls of `start` and `stop`, in their order.
use mathlib.Core.Option
use lib_stereo_camera.Common.{ℕ, String, List, [], ◌∷◌, ◌++◌, Bool, Option, none, some}
use lib_stereo_camera.Handles.{Event, closes, zmq_ctx}
use lib_stereo_camera.Client.{Replies}
use lib_stereo_camera.Slots.{SdkSlotManager}
use lib_stereo_camera.Slots.Lifecycle.{start_all, stop_all}
use lib_stereo_camera.Sessions.{ClientHandler}
use lib_stereo_camera.Admin.Listener.{
  StartCalls, start_listener, stop_listener, Connection, serve_connections,
}
use lib_stereo_camera.Server.Listener.{Traffic, start_wss, stop_wss, serve_traffic}
use lib_stereo_camera.Sockets.{start_publisher, stop_sockets}
use lib_stereo_camera.Startup.{Station}

-- What the system answers to the calls of `start`: of the two HTTPS servers, of the publisher, a context
-- of its own, its sockets and which of them bind, and of the WebSocket server.
pub record SystemCalls : Type 0 where
  pub server : StartCalls
  pub api2_server : StartCalls
  pub own_zmq_ctx : ℕ
  pub socket : String → ℕ
  pub binds : String → Bool
  pub wss_ctx : ℕ
  pub wss_socket : Option ℕ
  pub wss_bound : Bool

-- A call on the handler's manager, which may be null.
unfoldable pub on_manager :
    {R : Type 0} → (SdkSlotManager R → SdkSlotManager R) → ClientHandler R → ClientHandler R
unfolding Option.map
on_manager f h = record h { sdk_manager = Option.map f h.sdk_manager }

-- `zmq_ctx_destroy`, of a context that is there.
unfoldable pub destroy_ctx : Option ℕ → List Event
destroy_ctx none = []
destroy_ctx (some n) = closes (zmq_ctx n) ∷ []

module _ {R : Type 0} where
  unfoldable pub start_up : Replies R → SystemCalls → Station R → Station R
  unfolding on_manager start_all start_listener start_publisher start_wss
  start_up reply calls s = record s {
    node = record s.node { handler = on_manager (start_all reply) s.node.handler };
    server = start_listener calls.server s.server;
    api2_server = start_listener calls.api2_server s.api2_server;
    publisher =
        start_publisher s.shared_zmq_ctx calls.own_zmq_ctx calls.socket calls.binds s.pub_endpoints
          s.publisher;
    wss_server = start_wss calls.wss_ctx calls.wss_socket calls.wss_bound s.wss_server;
  }

  -- The loop of `main`, while which the servers' connections come and are answered, their requests
  -- change the node, and WebSocket clients come and go.
  unfoldable pub while_running :
      ClientHandler R → List Connection → List Connection → List Traffic → Station R → Station R
  unfolding serve_traffic serve_connections
  while_running handler requests api2_requests traffic s = record s {
    node = record s.node { handler = handler };
    server = serve_connections requests s.server;
    api2_server = serve_connections api2_requests s.api2_server;
    wss_server = serve_traffic traffic s.wss_server;
  }

  unfoldable pub shut_down : Station R → Station R
  unfolding on_manager stop_all stop_listener stop_sockets stop_wss destroy_ctx
  shut_down s = record s {
    wss_server = stop_wss s.wss_server;
    publisher = stop_sockets s.publisher;
    node = record s.node { handler = on_manager stop_all s.node.handler };
    shared_zmq_ctx = none;
    log = s.log ++ destroy_ctx s.shared_zmq_ctx;
    api2_server = stop_listener s.api2_server;
    server = stop_listener s.server;
  }
