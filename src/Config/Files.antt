-- ===== src/Config/Files.antt =====
-- src/data/ConfigManager.cpp: `load`, `save` and `sync` of the parameters.
use Prim.Native.String
use lib_stereo_camera.Common.{
  ◌≡◌, refl, String, [], Bool, true, false, Option, none, some, if◌then◌else◌, Assoc, lookup,
  insert, lookup-insert, string_discrete, if_pos,
}
use lib_stereo_camera.Client.{Json}
use lib_stereo_camera.Json.{JsonOps, IsJson}
use lib_stereo_camera.Parameters.{Fresh, ParameterManager, all_to_json, all_from_json}
use lib_stereo_camera.Parameters.Table.{IsValid, kept_all, all_from_json-all_to_json}
use lib_stereo_camera.Config.{AppConfig}

-- `class ConfigManager`: the table of parameters is a pointer that may be null.
pub record ConfigManager (R : Type 0) : Type 0 where
  pub config_dir : String
  pub param_mgr : Option (ParameterManager R)
  pub app_config : AppConfig

-- The files: the text under each path.
abbrev pub FileStore : Type 0
FileStore = Assoc String String

unfoldable pub full_path : String → String → String
full_path dir filename = String.◌++◌ dir (String.◌++◌ "/" filename)

-- `dump` is `json::dump(4)`, and `opens` tells whether a file can be opened for writing.
module _ {R : Type 0} (lib : JsonOps R) (fresh : Fresh R) (dump : Json R → String) where
  unfoldable pub load_params : Json R → ConfigManager R → ConfigManager R × Bool
  load_params j m = elim m.param_mgr [
    | none ↦ (m, true)
    | some params ↦
        let (after, done) = all_from_json lib fresh j params in
        (record m { param_mgr = some after }, done)
  ]

  -- `load`: what was read before a throw stays, and false is returned.
  unfoldable pub load_text : Option String → ConfigManager R → ConfigManager R × Bool
  unfolding load_params
  load_text none m = (m, false)
  load_text (some text) m = elim (lib.parse text) [ none ↦ (m, false) | some j ↦ load_params j m ]

  unfoldable pub load : FileStore → String → ConfigManager R → ConfigManager R × Bool
  unfolding load_text full_path
  load files filename m =
      load_text (lookup string_discrete (full_path m.config_dir filename) files) m

  unfoldable pub save : (String → Bool) → FileStore → String → ConfigManager R → FileStore × Bool
  unfolding full_path
  save opens files filename m = elim m.param_mgr [
    | none ↦ (files, false)
    | some params ↦
        let path = full_path m.config_dir filename in
        if opens path
        then (insert string_discrete path (dump (all_to_json params)) files, true)
        else (files, false)
  ]

  unfoldable pub sync : (String → Bool) → FileStore → ConfigManager R → FileStore × Bool
  unfolding save
  sync opens files m = save opens files "parameters.json" m

  -- If the parameters' file can be opened and the library reads back the JSON that it dumped, `sync` and
  -- then `load` into an empty table of a manager with the same directory give back the valid table,
  -- of each value what its parameter's type names, and both report success.
  pub load-sync :
      IsJson lib
      → (opens : String → Bool) (files : FileStore) (m : ConfigManager R)
        (params : ParameterManager R)
      → IsValid params
      → m.param_mgr ≡ some params
      → opens (full_path m.config_dir "parameters.json") ≡ true
      → lib.parse (dump (all_to_json params)) ≡ some (all_to_json params)
      → let (after, saved) = sync opens files m in
        (saved ≡ true)
        × (load after "parameters.json" (record m { param_mgr = some [] })
            ≡ (record m { param_mgr = some (kept_all fresh params) }, true))
  unfolding sync save load load_text load_params
  load-sync json opens files m params v has opened back =
      let path = full_path m.config_dir "parameters.json" in
      rw (has, opened)
        (
          refl,
          rw
              (
                lookup-insert string_discrete path path (dump (all_to_json params)) files,
                if_pos (string_discrete path path) refl (some (dump (all_to_json params)))
                    (lookup string_discrete path files),
                back,
                load_text,
                all_from_json-all_to_json json fresh params v,
              )
              refl,
        )
