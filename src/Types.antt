-- ===== src/Types.antt =====
-- include/stereo_camera/common/Types.h: the data types, groups, channels, bundles and frames.
use lib_stereo_camera.Common.{
  ℕ, String, List, [], ◌∷◌, ◌≡◌, some, refl, Assoc, lookup, string_discrete,
}

-- `enum class DataType`
pub data DataType : Type 0 where
  stereo_image depth_map point_cloud imu disparity_map confidence_map : DataType
  temperature magnetometer barometer : DataType

-- `DataType` as its underlying `uint8_t`
abbrev pub type_code : DataType → ℕ
type_code stereo_image = 0
type_code depth_map = 1
type_code point_cloud = 2
type_code imu = 3
type_code disparity_map = 4
type_code confidence_map = 5
type_code temperature = 6
type_code magnetometer = 7
type_code barometer = 8

unfoldable pub data_type_discrete : Discrete DataType
data_type_discrete = hlevel

-- `struct Timestamp`; the two `int64_t` stand as their 64 bits, so a negative one is above 2 ^ 63.
pub record Timestamp : Type 0 where
  pub sec : ℕ
  pub nsec : ℕ

-- `struct DataBundle`. The source hands bundles round by `std::shared_ptr` and compares the pointers
-- in places: `address` is the object's address. A `std::shared_ptr<DataBundle>` that may be null is
-- an `Option DataBundle`.
pub record DataBundle : Type 0 where
  pub address : ℕ
  pub timestamp : Timestamp
  pub type : DataType
  pub payload : List ℕ

-- `enum class ParameterType`
pub data ParameterType : Type 0 where
  integer float enum : ParameterType

-- `enum class ResponseCode`
pub data ResponseCode : Type 0 where
  success error not_ready already_init invalid_param unavailable : ResponseCode

unfoldable pub data_type_to_channel : DataType → String
data_type_to_channel stereo_image = "stereo_image"
data_type_to_channel depth_map = "depth_map"
data_type_to_channel point_cloud = "point_cloud"
data_type_to_channel imu = "imu"
data_type_to_channel disparity_map = "disparity_map"
data_type_to_channel confidence_map = "confidence_map"
data_type_to_channel temperature = "temperature"
data_type_to_channel magnetometer = "magnetometer"
data_type_to_channel barometer = "barometer"

-- `enum class DataGroup`
pub data DataGroup : Type 0 where
  visual_geometric_2d visual_geometric_3d sensor_tracking : DataGroup

unfoldable pub data_group_discrete : Discrete DataGroup
data_group_discrete = hlevel

unfoldable pub data_type_to_group : DataType → DataGroup
data_type_to_group stereo_image = visual_geometric_2d
data_type_to_group depth_map = visual_geometric_2d
data_type_to_group point_cloud = visual_geometric_3d
data_type_to_group disparity_map = visual_geometric_3d
data_type_to_group confidence_map = visual_geometric_3d
data_type_to_group _ = sensor_tracking

unfoldable pub data_group_to_channel : DataGroup → String
data_group_to_channel visual_geometric_2d = "visual_geometric_2d"
data_group_to_channel visual_geometric_3d = "visual_geometric_3d"
data_group_to_channel sensor_tracking = "sensor_tracking"

-- `struct ChannelFrame`
pub record ChannelFrame : Type 0 where
  pub camera_id : String
  pub timestamp : Timestamp
  pub bundles : List DataBundle

-- The table of `NLOHMANN_JSON_SERIALIZE_ENUM(DataType, …)`, in its order.
abbrev pub enum_table : Assoc String DataType
enum_table =
    ("stereo_image", stereo_image)
    ∷ ("depth_map", depth_map)
    ∷ ("point_cloud", point_cloud)
    ∷ ("imu", imu)
    ∷ ("disparity_map", disparity_map)
    ∷ ("confidence_map", confidence_map)
    ∷ ("temperature", temperature)
    ∷ ("magnetometer", magnetometer)
    ∷ ("barometer", barometer)
    ∷ []

-- The channel name of each data type is its name in the JSON table, and the table gives it back.
pub lookup-data_type_to_channel :
    (t : DataType) → lookup string_discrete (data_type_to_channel t) enum_table ≡ some t
unfolding lookup string_discrete data_type_to_channel
lookup-data_type_to_channel stereo_image = refl
lookup-data_type_to_channel depth_map = refl
lookup-data_type_to_channel point_cloud = refl
lookup-data_type_to_channel imu = refl
lookup-data_type_to_channel disparity_map = refl
lookup-data_type_to_channel confidence_map = refl
lookup-data_type_to_channel temperature = refl
lookup-data_type_to_channel magnetometer = refl
lookup-data_type_to_channel barometer = refl

-- So distinct data types have distinct channel names.
pub data_type_to_channel_inj :
    (t u : DataType) → data_type_to_channel t ≡ data_type_to_channel u → t ≡ u
data_type_to_channel_inj t u e = cc (lookup-data_type_to_channel t, lookup-data_type_to_channel u)
