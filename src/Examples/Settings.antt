-- ===== src/Examples/Settings.antt =====
-- Runs of the parameters (src/common/Parameter.cpp) and the configuration (src/data/ConfigManager.cpp), with a JSON library written out.
use lib_stereo_camera.Common.{
  ℕ, ◌≡◌, refl, sym, ap, arith, List, [], ◌∷◌, String, Bool, true, false, Option, none, some, ite,
  if_pos, if_neg, lookup, string_discrete, ℤ, pos,
}
use lib_stereo_camera.Types.{
  DataType, stereo_image, ParameterType, enum_table, lookup-data_type_to_channel,
}
use lib_stereo_camera.Client.{
  null, Json, Elements, Members, boolean, integer, float, string, array, object, end, element,
  no_member, member, ParameterValue,
}
use lib_stereo_camera.Json.{JsonOps, IsJson, elements_of}
use lib_stereo_camera.Parameters.{Parameter, Fresh, ParameterManager, all_to_json, all_from_json}
use lib_stereo_camera.Config.{AppConfig, ServerConfig}
use lib_stereo_camera.Config.Files.{ConfigManager, load, sync, load-sync}
use lib_stereo_camera.Parameters.Table.{kept_all, all_from_json-all_to_json}

abbrev pub find : String → Members ℕ → Option (Json ℕ)
find k no_member = none
find k (member i j ms) = ite (string_discrete i k) (some j) (find k ms)

abbrev pub members : Json ℕ → Members ℕ
members (object ms) = ms
members j = no_member

abbrev entries_of : Members ℕ → List (String × Json ℕ)
entries_of no_member = []
entries_of (member i j ms) = (i, j) ∷ entries_of ms

abbrev has_members : Json ℕ → Bool
has_members (object ms) = true
has_members j = false

abbrev list_of : Elements ℕ → List (Json ℕ)
list_of end = []
list_of (element j js) = j ∷ list_of js

abbrev items_of : Json ℕ → List (Json ℕ)
items_of (array js) = list_of js
items_of j = []

abbrev text_of : Json ℕ → Option String
text_of (string s) = some s
text_of j = none

abbrev bool_of : Json ℕ → Option Bool
bool_of (boolean b) = some b
bool_of j = none

abbrev int_of : Json ℕ → Option ℤ
int_of (integer n) = some n
int_of j = none

abbrev pub real_of : Json ℕ → Option ℕ
real_of (float x) = some x
real_of j = none

abbrev text_or : String → Option (Json ℕ) → Option String
text_or d none = some d
text_or d (some j) = text_of j

abbrev int_or : ℤ → Option (Json ℕ) → Option ℤ
int_or d none = some d
int_or d (some j) = int_of j

abbrev value_text : String → String → Json ℕ → Option String
value_text k d (object ms) = text_or d (find k ms)
value_text k d j = none

abbrev value_int : String → ℤ → Json ℕ → Option ℤ
value_int k d (object ms) = int_or d (find k ms)
value_int k d j = none

abbrev time_of : Option ℤ → Option ℕ
time_of (some (pos n)) = some n
time_of n = none

abbrev value_time : String → Json ℕ → Option ℕ
value_time k j = time_of (value_int k (pos 0) j)

abbrev is_some : {A : Type 0} → Option A → Bool
is_some none = false
is_some (some x) = true

abbrev type_or : DataType → Option DataType → DataType
type_or d none = d
type_or d (some t) = t

abbrev type_of : Json ℕ → DataType
type_of (string s) = type_or stereo_image (lookup string_discrete s enum_table)
type_of j = stereo_image

-- A library that reads one text only, as one value; it has the numbers for its reals.
abbrev pub library : String → Json ℕ → JsonOps ℕ
library text j = record {
  parse = λ s. ite (string_discrete s text) (some j) none;
  contains = λ k j. is_some (find k (members j));
  at = λ k j. find k (members j);
  items = items_of;
  entries = λ j. entries_of (members j);
  is_object = λ j. has_members j;
  value_text = value_text;
  value_int = value_int;
  value_time = value_time;
  get_text = text_of;
  get_bool = bool_of;
  get_int = int_of;
  get_real = real_of;
  get_type = type_of;
  is_number_integer = λ j. is_some (int_of j);
  is_number_float = λ j. is_some (real_of j);
  is_string = λ j. is_some (text_of j);
}

abbrev lib : JsonOps ℕ
lib = library "{}" (object no_member)

value_text-found :
    (k d : String) (j : Json ℕ) {s : String}
    → find k (members j) ≡ some (string s)
    → value_text k d j ≡ some s
value_text-found k d (object ms) e = ap (text_or d) e
value_text-found k d null e = absurd (ground (arith, e))
value_text-found k d (boolean b) e = absurd (ground (arith, e))
value_text-found k d (integer n) e = absurd (ground (arith, e))
value_text-found k d (float x) e = absurd (ground (arith, e))
value_text-found k d (string t) e = absurd (ground (arith, e))
value_text-found k d (array js) e = absurd (ground (arith, e))

value_int-found :
    (k : String) (d : ℤ) (j : Json ℕ) {n : ℤ}
    → find k (members j) ≡ some (integer n)
    → value_int k d j ≡ some n
value_int-found k d (object ms) e = ap (int_or d) e
value_int-found k d null e = absurd (ground (arith, e))
value_int-found k d (boolean b) e = absurd (ground (arith, e))
value_int-found k d (integer n) e = absurd (ground (arith, e))
value_int-found k d (float x) e = absurd (ground (arith, e))
value_int-found k d (string t) e = absurd (ground (arith, e))
value_int-found k d (array js) e = absurd (ground (arith, e))

list_of-elements_of : (js : List (Json ℕ)) → list_of (elements_of js) ≡ js
unfolding elements_of
list_of-elements_of [] = refl
list_of-elements_of (j ∷ js) = ap (λ ks. j ∷ ks) (list_of-elements_of js)

pub library-IsJson : (text : String) (json : Json ℕ) → IsJson (library text json)
library-IsJson text json = record {
  at_first = λ k j ms. if_pos (string_discrete k k) refl (some j) (find k ms);
  at_other = λ k i j ms ne. if_neg (string_discrete i k) (λ e. ne (sym e)) (some j) (find k ms);
  items_array = list_of-elements_of;
  get_text_string = λ s. refl;
  get_bool_boolean = λ b. refl;
  get_int_integer = λ n fits. refl;
  get_real_float = λ x. refl;
  get_type_string = λ t. ap (type_or stereo_image) (lookup-data_type_to_channel t);
  integer_kind = λ n. refl;
  float_kind = λ x. (refl, refl);
  string_kind = λ s. (refl, refl, refl);
  contains_found = λ k j e. ap is_some e;
  value_text_found = value_text-found;
  value_int_found = λ k d j fits e. value_int-found k d j e;
  value_time_found = λ k j fits e. ap time_of (value_int-found k (pos 0) j e);
  value_text_null = λ k d. refl;
}

abbrev pub fresh : Fresh ℕ
fresh = record { type = ParameterType.float; is_readonly = false; is_available = false; zero = 0 }

abbrev fps : Parameter ℕ
fps = record {
  name = "fps";
  type = ParameterType.integer;
  value = record { int_val = pos 30; float_val = 0; enum_val = ""; type = ParameterType.integer };
  is_readonly = false;
  is_available = true;
}

abbrev params : ParameterManager ℕ
params = ("fps", fps) ∷ []

abbrev faster : ParameterValue ℕ
faster = record { int_val = pos 60; float_val = 0; enum_val = ""; type = ParameterType.integer }

all_from_json-all_to_json_example :
    all_from_json lib fresh (all_to_json params) [] ≡ (kept_all fresh params, true)
unfolding lookup
all_from_json-all_to_json_example =
    all_from_json-all_to_json (library-IsJson "{}" (object no_member)) fresh params
      (refl, omega arith, refl, tt)

abbrev server : ServerConfig
server = record {
  host = "0.0.0.0";
  port = pos 8444;
  cert_path = "";
  key_path = "";
  thread_strategy = "hybrid";
  worker_threads = pos 4;
}

abbrev pub config : AppConfig
config = record {
  api1 = record {
    host = "";
    port = pos 0;
    cert_path = "";
    timeout_ms = pos 0;
    transport = "ipc";
    channels = [];
  };
  api2 = record {
    server = server;
    channel_data = record { transport = "ipc"; zmq_hwm = pos 2; pub_endpoints = [] };
  };
  api3 = record {
    admin_server = server;
    channel_data = record { wss_server = server; zmq_hwm = pos 1; sub_endpoints = [] };
  };
  spsc = record {
    queue_size = pos 4;
    drop_policy = "newest";
    publish_cv_timeout_ms = pos 10;
    encode_cv_timeout_ms = pos 10;
    send_cv_timeout_ms = pos 10;
  };
  data_buffer_depth = pos 3;
  log_level = "";
}

abbrev manager : ConfigManager ℕ
manager = record { config_dir = "./config"; param_mgr = some params; app_config = config }

-- A library that dumps everything as one text, and reads that as the table of parameters.
abbrev dump : Json ℕ → String
dump j = "[]"

abbrev table_lib : JsonOps ℕ
table_lib = library "[]" (all_to_json params)

load-sync_example :
    let (after, saved) = sync table_lib fresh dump (λ path. true) [] manager in
    (saved ≡ true)
    × (load table_lib fresh dump after "parameters.json" (record manager { param_mgr = some [] })
        ≡ (record manager { param_mgr = some (kept_all fresh params) }, true))
unfolding lookup string_discrete
load-sync_example =
    load-sync table_lib fresh dump (library-IsJson "[]" (all_to_json params)) (λ path. true) []
      manager params (refl, omega arith, refl, tt) refl refl refl
