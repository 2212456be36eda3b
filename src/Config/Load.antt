-- ===== src/Config/Load.antt =====
-- src/data/ConfigManager.cpp: `load_app_config`, as the series of its assignments.
use lib_stereo_camera.Common.{
  pos, ℤ, String, List, [], ◌∷◌, ◌++◌, map, Bool, true, false, Option, none, some, ◌>>=◌,
  if◌then◌else◌, insert, string_discrete, Assoc,
}
use lib_stereo_camera.Client.{Json}
use lib_stereo_camera.Json.{JsonOps}
use lib_stereo_camera.Config.{Api1Config, ServerConfig, Api2DataConfig, Api3DataConfig, AppConfig}

-- An assignment to the configuration; none if reading its value throws.
abbrev pub Step : Type 0
Step = AppConfig → Option AppConfig

-- The assignments in turn, until one throws: what the others did stays.
unfoldable pub run_steps : List Step → AppConfig → AppConfig × Bool
run_steps [] c = (c, true)
run_steps (step ∷ steps) c = elim (step c) [ none ↦ (c, false) | some c' ↦ run_steps steps c' ]

-- Changes of one part of the configuration.
abbrev Change : Type 0 → Type 0
Change A = (A → A) → AppConfig → AppConfig

unfoldable pub in_api1 : Change Api1Config
in_api1 f c = record c { api1 = f c.api1 }

unfoldable pub in_server : Change ServerConfig
in_server f c = record c { api2 = record c.api2 { server = f c.api2.server } }

unfoldable pub in_data2 : Change Api2DataConfig
in_data2 f c = record c { api2 = record c.api2 { channel_data = f c.api2.channel_data } }

unfoldable pub in_admin : Change ServerConfig
in_admin f c = record c { api3 = record c.api3 { admin_server = f c.api3.admin_server } }

unfoldable pub in_data3 : Change Api3DataConfig
in_data3 f c = record c { api3 = record c.api3 { channel_data = f c.api3.channel_data } }

unfoldable pub in_wss : Change ServerConfig
in_wss f c = in_data3 (λ d. record d { wss_server = f d.wss_server }) c

unfoldable pub in_log : Change String
in_log f c = record c { log_level = f c.log_level }

module _ {R : Type 0} (lib : JsonOps R) where
  -- `field = j.value(key, default)`
  unfoldable pub text_step :
      {A : Type 0} → Change A → (String → A → A) → Json R → String → String → Step
  text_step change assign j key default c =
      lib.value_text key default j >>= (λ s. some (change (assign s) c))

  unfoldable pub int_step : {A : Type 0} → Change A → (ℤ → A → A) → Json R → String → ℤ → Step
  int_step change assign j key default c =
      lib.value_int key default j >>= (λ n. some (change (assign n) c))

  -- `if (j.contains(key)) { auto& s = j[key]; … }`
  unfoldable pub inside : String → Json R → (Json R → List Step) → List Step
  inside key j steps =
      if lib.contains key j then elim (lib.at key j) [ none ↦ [] | some s ↦ steps s ] else []

  -- `map[key] = val.get<std::string>()`
  unfoldable pub entry_step :
      {A : Type 0}
      → Change A
      → ((Assoc String String → Assoc String String) → A → A)
      → String × Json R
      → Step
  entry_step change assign (key, val) c =
      lib.get_text val >>= (λ s. some (change (assign (insert string_discrete key s)) c))

  -- The loop over the entries of a member that is an object.
  unfoldable pub entry_steps :
      {A : Type 0}
      → Change A
      → ((Assoc String String → Assoc String String) → A → A)
      → String
      → Json R
      → List Step
  unfolding inside entry_step
  entry_steps change assign key j =
      inside key j
        (λ d. if lib.is_object d then map (entry_step change assign) (lib.entries d) else [])

  -- The six assignments of a server's section, with its defaults.
  unfoldable pub server_steps : Change ServerConfig → String → ℤ → String → ℤ → Json R → List Step
  unfolding text_step int_step
  server_steps change host port thread_strategy worker_threads j =
      text_step change (λ s x. record x { host = s }) j "host" host
      ∷ int_step change (λ n x. record x { port = n }) j "port" port
      ∷ text_step change (λ s x. record x { cert_path = s }) j "cert_path" ""
      ∷ text_step change (λ s x. record x { key_path = s }) j "key_path" ""
      ∷ text_step change (λ s x. record x { thread_strategy = s }) j "thread_strategy"
          thread_strategy
      ∷ int_step change (λ n x. record x { worker_threads = n }) j "worker_threads" worker_threads
      ∷ []

  unfoldable pub sdk_steps : Json R → List Step
  unfolding text_step int_step
  sdk_steps cs =
      text_step in_api1 (λ s x. record x { host = s }) cs "host" "127.0.0.1"
      ∷ int_step in_api1 (λ n x. record x { port = n }) cs "port" (pos 8443)
      ∷ text_step in_api1 (λ s x. record x { cert_path = s }) cs "cert_path" ""
      ∷ int_step in_api1 (λ n x. record x { timeout_ms = n }) cs "timeout_ms" (pos 5000)
      ∷ []

  unfoldable pub data1_steps : Json R → List Step
  unfolding text_step entry_steps
  data1_steps d =
      text_step in_api1 (λ s x. record x { transport = s }) d "transport" "ipc"
      ∷ entry_steps in_api1 (λ f x. record x { channels = f x.channels }) "channels" d

  unfoldable pub data2_steps : Json R → List Step
  unfolding text_step int_step entry_steps
  data2_steps d =
      text_step in_data2 (λ s x. record x { transport = s }) d "transport" "ipc"
      ∷ int_step in_data2 (λ n x. record x { zmq_hwm = n }) d "zmq_hwm" (pos 2)
      ∷ entry_steps in_data2 (λ f x. record x { pub_endpoints = f x.pub_endpoints }) "pub_endpoints"
          d

  unfoldable pub data3_steps : Json R → List Step
  unfolding int_step entry_steps server_steps
  data3_steps d =
      int_step in_data3 (λ n x. record x { zmq_hwm = n }) d "zmq_hwm" (pos 1)
      ∷ (inside "wss_server" d
            (server_steps in_wss "127.0.0.1" (pos 9444) "one_loop_per_thread" (pos 2))
          ++ entry_steps in_data3 (λ f x. record x { sub_endpoints = f x.sub_endpoints })
              "sub_endpoints" d)

  -- The sections of the file, in the order of the source.
  unfoldable pub config_steps : Json R → List Step
  unfolding inside sdk_steps data1_steps server_steps data2_steps data3_steps text_step
  config_steps j =
      inside "api1" j (λ a1. inside "camera_sdk" a1 sdk_steps ++ inside "data" a1 data1_steps)
      ++ (inside "api2" j (λ a2.
            inside "server" a2 (server_steps in_server "0.0.0.0" (pos 8444) "hybrid" (pos 4))
            ++ inside "data" a2 data2_steps)
          ++ (inside "api3" j (λ a3.
                inside "admin_server" a3
                  (server_steps in_admin "127.0.0.1" (pos 9443) "hybrid" (pos 4))
                ++ inside "data" a3 data3_steps)
              ++ text_step in_log (λ s old. s) j "log_level" "info" ∷ []))

  -- The body of the `try`; none is a text that cannot be parsed.
  unfoldable pub load_parsed : Option (Json R) → AppConfig → AppConfig × Bool
  unfolding config_steps run_steps
  load_parsed none c = (c, false)
  load_parsed (some j) c = run_steps (config_steps j) c

  -- `load_app_config`, on the text of config.json; none is a file that cannot be opened.
  unfoldable pub load_app_config : Option String → AppConfig → AppConfig × Bool
  unfolding load_parsed
  load_app_config none c = (c, false)
  load_app_config (some text) c = load_parsed (lib.parse text) c
