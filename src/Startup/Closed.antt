-- ===== src/Startup/Closed.antt =====
-- src/main.cpp: what is left when `main` returns.
use mathlib.Core.Option
use lib_stereo_camera.Common.{
  ℕ, ◌+◌, ◌≡◌, refl, arith, String, List, [], ◌++◌, false, Option, none, some, ℤ,
}
use lib_stereo_camera.Handles.{Handle, opens_of, closes_of, AllClosed}
use lib_stereo_camera.Config.{AppConfig}
use lib_stereo_camera.Client.{Replies}
use lib_stereo_camera.Slots.{SdkSlotManager}
use lib_stereo_camera.Slots.Lifecycle.{capturing_active, stop_all}
use lib_stereo_camera.Slots.Capture.{stops_all_captures}
use lib_stereo_camera.Sessions.{ClientHandler}
use lib_stereo_camera.Admin.Listener.{IsStopped, AdminListener, Connection}
use lib_stereo_camera.Admin.Listener.Served.{close_connections, stop_leaves_connections}
use lib_stereo_camera.Server.Listener.{Traffic}
use lib_stereo_camera.Server.Listener.Sockets.{close_sockets, stop_leaves_sockets}
use lib_stereo_camera.Sockets.Closed.{stopped_sockets_closed}
use lib_stereo_camera.Startup.{Station, own_ctx, assemble}
use lib_stereo_camera.Startup.Running.{
  SystemCalls, on_manager, destroy_ctx, start_up, while_running, shut_down,
}

-- No camera captures, if there is a manager.
unfoldable pub NoneCaptures : {R : Type 0} → Option (SdkSlotManager R) → Type 0
NoneCaptures none = Unit
NoneCaptures (some m) = (id : String) → capturing_active id m ≡ false

-- A stopped server has closed what was opened, but for the connections that were waiting.
abbrev pub ServerClosed : AdminListener → AdminListener → Type 0
ServerClosed running s =
    IsStopped s
    × ((h : Handle)
        → opens_of h s.log ≡ closes_of h s.log + closes_of h (close_connections running.pending))

-- Both HTTPS servers are stopped, no WebSocket client is left, no camera captures, and what the servers, the
-- publisher and `main` opened is closed; but for the connections that waited for a worker of the HTTPS
-- servers, and the sockets of the WebSocket clients, that `running` had.
pub record IsShutDown {R : Type 0} (running s : Station R) : Type 0 where
  pub server : ServerClosed running.server s.server
  pub api2_server : ServerClosed running.api2_server s.api2_server
  pub publisher : AllClosed s.publisher.log
  pub own : AllClosed s.log
  pub clients : s.wss_server.clients ≡ []
  pub cameras : NoneCaptures s.node.handler.sdk_manager
  pub wss_server :
      (h : Handle)
      → opens_of h s.wss_server.log
        ≡ closes_of h s.wss_server.log + closes_of h (close_sockets running.wss_server.clients)

stop_all-NoneCaptures :
    {R : Type 0} (o : Option (SdkSlotManager R)) → NoneCaptures (Option.map stop_all o)
unfolding NoneCaptures Option.map
stop_all-NoneCaptures none = tt
stop_all-NoneCaptures (some m) = λ id. (stops_all_captures id m).0

own_ctx-AllClosed : (ctx : Option ℕ) → AllClosed (own_ctx ctx ++ destroy_ctx ctx)
unfolding own_ctx destroy_ctx opens_of closes_of
own_ctx-AllClosed none h = refl
own_ctx-AllClosed (some n) h = omega arith

-- However the calls of `start` go, and whatever connections, requests and WebSocket clients come and go
-- while the node runs, and whatever the requests make of its cameras: when `main` returns both HTTPS
-- servers are stopped, no WebSocket client is left and no camera captures, and what was opened has been
-- closed as often, but for the TLS sessions and sockets of the connections that waited for a worker of the
-- HTTPS servers, and the sockets of the WebSocket clients that were there; if no request comes in while
-- `main` stops them.
pub main_shuts_down :
    {R : Type 0} (to_string : ℤ → String) (config_dir : String) (ctx : Option ℕ) (cfg : AppConfig)
    (reply : Replies R) (calls : SystemCalls) (handler : ClientHandler R)
    (requests api2_requests : List Connection) (traffic : List Traffic)
    → let running =
        while_running handler requests api2_requests traffic
          (start_up reply calls (assemble to_string config_dir ctx cfg)) in
      IsShutDown running (shut_down running)
unfolding shut_down while_running start_up assemble on_manager
main_shuts_down to_string config_dir ctx cfg reply calls handler requests api2_requests traffic =
    let wss = stop_leaves_sockets calls.wss_ctx calls.wss_socket calls.wss_bound traffic in
    record {
      server = stop_leaves_connections calls.server cfg.api3.admin_server.worker_threads requests;
      api2_server =
          stop_leaves_connections calls.api2_server cfg.api2.server.worker_threads api2_requests;
      publisher =
          (stopped_sockets_closed ctx calls.own_zmq_ctx calls.socket calls.binds
            cfg.api2.channel_data.pub_endpoints).0;
      own = own_ctx-AllClosed ctx;
      clients = wss.0;
      cameras = stop_all-NoneCaptures handler.sdk_manager;
      wss_server = wss.1;
    }
