-- ===== src/Storage.antt =====
-- src/data/DataStorage.cpp: `class FileStorage`, bundles in files.
pub mod Trip
use Prim.Native.String
use lib_stereo_camera.Common.{
  signed64, ℕ, ◌^◌, ◌%◌, ◌-◌, String, List, [], ◌∷◌, ◌++◌, Bool, true, false, ◌&&◌, ◌==◌, Option,
  none, some, ◌>>=◌, if◌then◌else◌, length, take, drop, replicate, Assoc, lookup, insert,
  string_discrete,
}
use lib_stereo_camera.Types.{Timestamp, DataBundle, data_type_to_channel}
use lib_stereo_camera.Client.{integer, Json, null, string, object}
use lib_stereo_camera.Json.{JsonOps, natural, members_of}
use lib_stereo_camera.Pipeline.Encode.{bytes_of_u32}
use lib_stereo_camera.Pipeline.Encode.Split.{u32_of_bytes}

pub record FileStorage : Type 0 where
  pub base_dir : String

-- The files: the bytes under each path.
abbrev pub ByteFiles : Type 0
ByteFiles = Assoc String (List ℕ)

unfoldable pub storage_path : FileStorage → String → String
storage_path st path = String.◌++◌ st.base_dir (String.◌++◌ "/" path)

-- What `save` writes of a bundle as JSON.
unfoldable pub bundle_json : {R : Type 0} → DataBundle → Json R
unfolding signed64
bundle_json b = object (
    members_of (
      ("timestamp_sec", integer (signed64 b.timestamp.sec))
      ∷ ("timestamp_nsec", integer (signed64 b.timestamp.nsec))
      ∷ ("data_type", string (data_type_to_channel b.type))
      ∷ ("payload_size", natural (length b.payload))
      ∷ []))

-- `file.read` into bytes that are there: those that the file does not fill stay, and after a read
-- that came short the stream has nothing more to give.
unfoldable pub read_over : List ℕ → List ℕ → List ℕ × List ℕ
read_over old stream =
    (take (length old) stream ++ drop (length stream) old, drop (length old) stream)

-- `resize` of a vector of bytes.
unfoldable pub resize : ℕ → List ℕ → List ℕ
resize n bytes = take n bytes ++ replicate (n - length bytes) 0

-- `lib` is the JSON library, `parse_bytes` its `parse` of a text's bytes without exceptions, `dump`
-- the bytes of `json::dump()`, `get_time` and `get_size` are `get<int64_t>()`, kept as its 64 bits,
-- and `get<size_t>()`, none where they throw. `opens` tells whether a file can be opened for
-- writing, and `makes` whether its directory can be made; `create_directories` throws otherwise.
module _ {R : Type 0} (lib : JsonOps R) (parse_bytes : List ℕ → Option (Json R))
    (dump : Json R → List ℕ) (get_time get_size : Json R → Option ℕ) where
  -- The bytes of a saved bundle's file; a size is a `uint32_t`.
  unfoldable pub file_bytes : DataBundle → List ℕ
  unfolding bundle_json bytes_of_u32
  file_bytes b =
      let json_str = dump (bundle_json b) in
      let json_size = length json_str % 2 ^ 32 in
      bytes_of_u32 json_size ++ (take json_size json_str ++ b.payload)

  -- none is the throw.
  unfoldable pub save_bundle :
      (makes opens : String → Bool)
      → FileStorage
      → String
      → DataBundle
      → ByteFiles
      → ByteFiles × Option Bool
  unfolding file_bytes storage_path
  save_bundle makes opens st path b files =
      let full = storage_path st path in
      if makes full
      then if opens full
        then (insert string_discrete full (file_bytes b) files, some true)
        else (files, some false)
      else (files, none)

  unfoldable pub load_payload : Json R → List ℕ → DataBundle → DataBundle × Option Bool
  load_payload j rest b = elim (lib.at "payload_size" j >>= get_size) [
    | none ↦ (b, none)
    | some payload_size ↦
        let (payload, left) = read_over (resize payload_size b.payload) rest in
        (record b { payload = payload }, some true)
  ]

  -- `j["data_type"]` of an object without that member is null.
  unfoldable pub type_member : Option (Json R) → Json R
  type_member none = null
  type_member (some j) = j

  unfoldable pub load_type : Json R → List ℕ → DataBundle → DataBundle × Option Bool
  unfolding load_payload type_member
  load_type j rest b =
      load_payload j rest (record b { type = lib.get_type (type_member (lib.at "data_type" j)) })

  unfoldable pub load_nsec : Json R → List ℕ → DataBundle → DataBundle × Option Bool
  unfolding load_type
  load_nsec j rest b = elim (lib.at "timestamp_nsec" j >>= get_time) [
    | none ↦ (b, none)
    | some t ↦
        load_type j rest (record b { timestamp = record { sec = b.timestamp.sec; nsec = t } })
  ]

  unfoldable pub load_sec : Json R → List ℕ → DataBundle → DataBundle × Option Bool
  unfolding load_nsec
  load_sec j rest b = elim (lib.at "timestamp_sec" j >>= get_time) [
    | none ↦ (b, none)
    | some t ↦
        load_nsec j rest (record b { timestamp = record { sec = t; nsec = b.timestamp.nsec } })
  ]

  unfoldable pub load_json : Option (Json R) → List ℕ → DataBundle → DataBundle × Option Bool
  unfolding load_sec
  load_json none rest b = (b, some false)
  load_json (some j) rest b = load_sec j rest b

  unfoldable pub load_text : List ℕ × List ℕ → DataBundle → DataBundle × Option Bool
  unfolding load_json
  load_text (json_str, rest) b = load_json (parse_bytes json_str) rest b

  unfoldable pub load_sized : List ℕ × List ℕ → DataBundle → DataBundle × Option Bool
  unfolding load_text
  load_sized (size_bytes, s) b = load_text (read_over (replicate (u32_of_bytes size_bytes) 0) s) b

  -- `garbage` are the four bytes of `json_size` before it is read.
  unfoldable pub load_bytes : List ℕ → Option (List ℕ) → DataBundle → DataBundle × Option Bool
  unfolding load_sized
  load_bytes garbage none b = (b, some false)
  load_bytes garbage (some file) b = load_sized (read_over garbage file) b

  -- The result none is a throw; the bundle is then as far as it was filled.
  unfoldable pub load_bundle :
      List ℕ → ByteFiles → FileStorage → String → DataBundle → DataBundle × Option Bool
  unfolding load_bytes storage_path
  load_bundle garbage files st path b =
      load_bytes garbage (lookup string_discrete (storage_path st path) files) b

-- `rel.find(prefix) == 0`
unfoldable pub is_prefix : List ℕ → List ℕ → Bool
is_prefix [] rel = true
is_prefix (c ∷ cs) [] = false
is_prefix (c ∷ cs) (d ∷ ds) = (c == d) && is_prefix cs ds

-- `list`, of what the walk over the directory gives: is it a regular file, and its relative path's
-- characters. `there` tells whether the directory exists.
unfoldable pub list_files : Bool → List (Bool × List ℕ) → List ℕ → List (List ℕ)
unfolding is_prefix
list_files there [] prefix = []
list_files there ((regular, rel) ∷ entries) prefix =
    let rest = list_files there entries prefix in
    if there && regular && is_prefix prefix rel then rel ∷ rest else rest
