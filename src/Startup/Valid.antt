-- ===== src/Startup/Valid.antt =====
-- src/main.cpp: what holds of the parts that `main` makes, before any of them is started.
use mathlib.Core.Path.{subst⁻¹}
use lib_stereo_camera.Common.{
  ℕ, ◌≡◌, ◌≤◌, ◌^◌, refl, ◌∙◌, arith, String, [], ◌∷◌, Option, none, some, ℤ, pos, lookup,
}
use lib_stereo_camera.Config.{AppConfig}
use lib_stereo_camera.Config.Load.{load_app_config}
use lib_stereo_camera.Config.Kept.{load_app_config-keeps}
use lib_stereo_camera.Json.{JsonOps}
use lib_stereo_camera.Buffer
use lib_stereo_camera.Buffer.{DataBuffer}
use lib_stereo_camera.Buffer.Invariant
use lib_stereo_camera.Slots
use lib_stereo_camera.Slots.{SdkSlotManager, owns_thread}
use lib_stereo_camera.Slots.Invariant.{new_manager-IsValid, configure-IsValid, owns_any, Outcome}
use lib_stereo_camera.Spsc.{SpscQueue, set_max_depth}
use lib_stereo_camera.Spsc.Refine.{IsValid, set_max_depth_lem}
use lib_stereo_camera.Pipeline.{DataPipeline, no_frame, new_queue, new_pipeline}
use lib_stereo_camera.Pipeline.Encode.{EncodeQueues, set_encode_queue_depth, new_queues}
use lib_stereo_camera.Sessions.Invariant.{HandlerIsValid, ManagerIsValid}
use lib_stereo_camera.Admin.Listener.{IsStopped, new_listener}
use lib_stereo_camera.Startup.{
  Station, size_of_int, sdk_config, bounded_pipeline, new_handler, assemble,
}

-- A pointer that is not null, to a value of which P holds.
unfoldable pub Points : {A : Type 0} → (A → Type 0) → Option A → Type 0
Points P none = ⊥
Points P (some x) = P x

-- The queues of a pipeline, and of the encoder.
abbrev pub QueuesAreValid : DataPipeline → Type 0
QueuesAreValid p = IsValid p.queue_2d × IsValid p.queue_3d × IsValid p.queue_sensor

abbrev pub EncodersAreValid : EncodeQueues → Type 0
EncodersAreValid e =
    IsValid e.encode_queue_2d × IsValid e.encode_queue_3d × IsValid e.encode_queue_sensor

-- Sessions, cameras, buffers and queues are as each component asks for, and no server runs.
pub record StationIsValid {R : Type 0} (s : Station R) : Type 0 where
  pub handler : HandlerIsValid s.node.handler
  pub buffer1 :
      Points (λ (m : SdkSlotManager R). Invariant.IsValid m.buffer) s.node.handler.sdk_manager
  pub pipeline : Points QueuesAreValid s.node.pipeline
  pub buffer2 : Points Invariant.IsValid s.node.buffer2
  pub encode : EncodersAreValid s.encode
  pub server : IsStopped s.server
  pub api2_server : IsStopped s.api2_server

pub new_listener-IsStopped : (worker_threads : ℤ) → IsStopped (new_listener worker_threads)
unfolding new_listener
new_listener-IsStopped worker_threads = record {
  no_fd = refl;
  no_ctx = refl;
  not_running = refl;
  no_thread = refl;
  no_worker = refl;
}

bounded_queue-IsValid : (qs : ℕ) → IsValid (set_max_depth qs new_queue)
unfolding new_queue
bounded_queue-IsValid qs =
    (set_max_depth_lem no_frame qs (lib_stereo_camera.Spsc.Refine.make-IsValid no_frame 4).0).0

new_handler-IsValid :
    {R : Type 0} (to_string : ℤ → String) (cfg : AppConfig)
    → HandlerIsValid {R = R} (new_handler to_string cfg)
unfolding new_handler lookup ManagerIsValid owns_any owns_thread Outcome Slots.make
new_handler-IsValid to_string cfg = record {
  session = λ id s e. absurd (ground arith);
  manager =
      let (m, made, v) =
        configure-IsValid (sdk_config to_string cfg ∷ [])
          (Slots.make (Buffer.make (size_of_int cfg.data_buffer_depth))) (new_manager-IsValid _) in
      subst⁻¹ ManagerIsValid made v;
}

module _ {R : Type 0} (to_string : ℤ → String) (config_dir : String) (ctx : Option ℕ) where
  assemble-IsValid :
      (cfg : AppConfig)
      → size_of_int cfg.data_buffer_depth ≤ 2 ^ 32
      → StationIsValid {R = R} (assemble to_string config_dir ctx cfg)
  unfolding assemble Points bounded_pipeline set_encode_queue_depth new_handler Slots.configure
      owns_thread lookup Slots.make new_pipeline new_queues
  assemble-IsValid cfg depth =
      let queue = bounded_queue-IsValid (size_of_int cfg.spsc.queue_size) in
      record {
        handler = new_handler-IsValid to_string cfg;
        buffer1 = Invariant.make-IsValid _ depth;
        pipeline = (queue, queue, queue);
        buffer2 = Invariant.make-IsValid _ depth;
        encode = (queue, queue, queue);
        server = new_listener-IsStopped _;
        api2_server = new_listener-IsStopped _;
      }

-- Whatever stands in config.json, `main` makes a valid node of it, if the buffers' depth was set before to
-- a number from 0 to 2 ^ 32: the sessions, cameras, buffers and queues are as each component asks for, the
-- queues of whatever size is configured, and the two HTTPS servers are stopped.
pub configured-IsValid :
    {R : Type 0} (lib : JsonOps R) (to_string : ℤ → String) (config_dir : String) (ctx : Option ℕ)
    (file : Option String) (cfg : AppConfig) (n : ℕ)
    → cfg.data_buffer_depth ≡ pos n
    → n ≤ 2 ^ 32
    → StationIsValid {R = R} (assemble to_string config_dir ctx (load_app_config lib file cfg).0)
unfolding size_of_int
configured-IsValid lib to_string config_dir ctx file cfg n set bounded =
    assemble-IsValid to_string config_dir ctx (load_app_config lib file cfg).0
      (subst⁻¹ (λ d. size_of_int d ≤ 2 ^ 32) ((load_app_config-keeps lib file cfg).1 ∙ set) bounded)
