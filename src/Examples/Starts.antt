-- ===== src/Examples/Starts.antt =====
-- Runs of `main` of src/main.cpp, at one configuration.
use lib_stereo_camera.Common.{
  ℕ, refl, arith, String, List, [], ◌∷◌, true, false, none, some, ℤ, pos,
}
use lib_stereo_camera.Types.{success}
use lib_stereo_camera.Client.{Json, object, member, integer, no_member, Replies, make_response}
use lib_stereo_camera.Config.Load.{load_app_config}
use lib_stereo_camera.Slots
use lib_stereo_camera.Buffer
use lib_stereo_camera.Sessions.{ClientHandler}
use lib_stereo_camera.Admin.Listener.{Connection, arrives, finishes}
use lib_stereo_camera.Server.Listener.{Traffic, comes}
use lib_stereo_camera.Startup.{assemble}
use lib_stereo_camera.Startup.Running.{SystemCalls, start_up, while_running, shut_down}
use lib_stereo_camera.Startup.Valid.{StationIsValid, configured-IsValid}
use lib_stereo_camera.Startup.Closed.{IsShutDown, main_shuts_down}
use lib_stereo_camera.Examples.Settings.{config, library}

-- A file that asks for queues of eight frames, read by a library that reads it so.
abbrev eight : Json ℕ
eight = object (member "spsc" (object (member "queue_size" (integer (pos 8)) no_member)) no_member)

abbrev digits : ℤ → String
digits n = "8080"

configured-IsValid_example : StationIsValid {R = ℕ} (
    assemble digits "./config"
      (some 1)
      (load_app_config (library "{8}" eight) (some "{8}") config).0)
configured-IsValid_example =
    configured-IsValid (library "{8}" eight) digits "./config" (some 1) (some "{8}") config 3 refl
      (omega arith)

-- The second server cannot bind its port; a client is there when the node stops.
abbrev calls : SystemCalls
calls = record {
  server = record {
    socket = some 3;
    bound = true;
    listens = true;
    context = some 4;
    loaded = true;
  };
  api2_server = record {
    socket = some 5;
    bound = false;
    listens = true;
    context = none;
    loaded = true;
  };
  own_zmq_ctx = 6;
  socket = λ channel. 7;
  binds = λ endpoint. true;
  wss_ctx = 8;
  wss_socket = some 9;
  wss_bound = true;
}

abbrev accepting : Replies ℕ
accepting made = make_response success ""

abbrev busy_handler : ClientHandler ℕ
busy_handler = record {
  sessions = [];
  sdk_manager = some (Slots.make (Buffer.make 3));
  module_initialized = true;
}

-- Two connections come, and one is answered.
abbrev requests : List Connection
requests =
    arrives true (record { session = 12; socket = 13 })
    ∷ arrives true (record { session = 14; socket = 15 })
    ∷ finishes
    ∷ []

abbrev traffic : List Traffic
traffic = comes true (record { session = 10; socket = 11 }) ∷ []

main_shuts_down_example :
    let running =
      while_running busy_handler requests [] traffic
        (start_up accepting calls (assemble digits "./config" (some 1) config)) in
    IsShutDown running (shut_down running)
main_shuts_down_example =
    main_shuts_down digits "./config" (some 1) config accepting calls busy_handler requests []
      traffic
