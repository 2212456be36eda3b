-- ===== src/Startup.antt =====
-- src/main.cpp: the parts that `main` makes of the configuration. A part that others point to stands
-- once: the manager in the handler, the pipeline and buffer2 in the handler's node.
pub mod Running
pub mod Valid
pub mod Closed
use Prim.Native.String.{◌++◌}
use lib_stereo_camera.Common.{
  ℕ, ◌-◌, ◌%◌, ◌^◌, suc, String, List, [], ◌∷◌, Bool, true, false, Option, none, some,
  if◌then◌else◌, is_yes, ℤ, pos, negsuc, Assoc, lookup, string_discrete,
}
use lib_stereo_camera.Handles.{Event, opens, zmq_ctx}
use lib_stereo_camera.Config.{AppConfig}
use lib_stereo_camera.Buffer
use lib_stereo_camera.Slots.{CameraSdkConfig, configure}
use lib_stereo_camera.Slots
use lib_stereo_camera.Pipeline.{DataPipeline, new_pipeline}
use lib_stereo_camera.Spsc.{set_max_depth}
use lib_stereo_camera.Pipeline.Encode.{EncodeQueues, new_queues, set_encode_queue_depth}
use lib_stereo_camera.Sessions.{ClientHandler}
use lib_stereo_camera.Sessions.Status.{Node}
use lib_stereo_camera.Admin.Listener.{AdminListener, new_listener}
use lib_stereo_camera.Server.Listener.{WssListener, new_wss_listener}
use lib_stereo_camera.Sockets.{ZmqSockets, no_sockets}

-- The local variables of `main`, with what it opens itself.
pub record Station (R : Type 0) : Type 0 where
  pub node : Node R
  pub encode : EncodeQueues
  pub wss_server : WssListener
  pub server : AdminListener
  pub api2_server : AdminListener
  pub publisher : ZmqSockets
  pub pub_endpoints : Assoc String String
  pub shared_zmq_ctx : Option ℕ
  pub cert_path : String
  pub key_path : String
  pub log : List Event

-- An `int` where a `size_t` is asked for.
unfoldable pub size_of_int : ℤ → ℕ
size_of_int (pos n) = n
size_of_int (negsuc n) = 2 ^ 64 - suc n

-- `api3_cert.empty() ? config_dir + "/server.crt" : api3_cert`, and the same of the key
unfoldable pub pem_path : String → String → String → String
pem_path config_dir name path =
    if is_yes (string_discrete path "") then config_dir ++ name else path

-- The endpoint of the channel "base", or a default.
unfoldable pub base_endpoint : Assoc String String → String
base_endpoint channels = elim (lookup string_discrete "base" channels) [
  | none ↦ "ipc:///tmp/zed_vision"
  | some endpoint ↦ endpoint
]

-- `sdk_cfg`; `to_string` is that of an `int`.
unfoldable pub sdk_config : (ℤ → String) → AppConfig → CameraSdkConfig
unfolding base_endpoint
sdk_config to_string cfg = record {
  id = "cam1";
  base_url = (("https://" ++ cfg.api1.host) ++ ":") ++ to_string cfg.api1.port;
  zmq_endpoint = base_endpoint cfg.api1.channels;
  channels = cfg.api1.channels;
}

unfoldable pub bounded_pipeline : ℕ → DataPipeline
unfolding new_pipeline
bounded_pipeline qs = record new_pipeline {
  queue_2d = set_max_depth qs new_pipeline.queue_2d;
  queue_3d = set_max_depth qs new_pipeline.queue_3d;
  queue_sensor = set_max_depth qs new_pipeline.queue_sensor;
}

unfoldable pub own_ctx : Option ℕ → List Event
own_ctx none = []
own_ctx (some n) = opens (zmq_ctx n) ∷ []

module _ {R : Type 0} (to_string : ℤ → String) where
  -- The manager is new, so `configure` returns: see `Valid`.
  unfoldable pub new_handler : AppConfig → ClientHandler R
  unfolding configure sdk_config
  new_handler cfg = record {
    sessions = [];
    sdk_manager =
        configure (sdk_config to_string cfg ∷ [])
          (Slots.make (Buffer.make (size_of_int cfg.data_buffer_depth)));
    module_initialized = true;
  }

  -- `main` up to the first call of a `start`; `zmq_ctx_new` gives a context, or none.
  unfoldable pub assemble : String → Option ℕ → AppConfig → Station R
  unfolding new_handler bounded_pipeline set_encode_queue_depth size_of_int own_ctx pem_path
  assemble config_dir ctx cfg = record {
    node = record {
      handler = new_handler cfg;
      pipeline = some (bounded_pipeline (size_of_int cfg.spsc.queue_size));
      buffer2 = some (Buffer.make (size_of_int cfg.data_buffer_depth));
      wss_server = some (record { running = false; clients = 0; frames_sent = 0 });
    };
    encode = set_encode_queue_depth (size_of_int cfg.spsc.queue_size) new_queues;
    wss_server = new_wss_listener;
    server = new_listener cfg.api3.admin_server.worker_threads;
    api2_server = new_listener cfg.api2.server.worker_threads;
    publisher = no_sockets;
    pub_endpoints = cfg.api2.channel_data.pub_endpoints;
    shared_zmq_ctx = ctx;
    cert_path = pem_path config_dir "/server.crt" cfg.api3.admin_server.cert_path;
    key_path = pem_path config_dir "/server.key" cfg.api3.admin_server.key_path;
    log = own_ctx ctx;
  }
