-- ===== src/Slots/Channels.antt =====
-- Which ZMQ channels a list of data types needs.
use lib_stereo_camera.Common.{
  String, List, [], ◌∷◌, Bool, true, false, ◌||◌, ◌≡◌, refl, ◌∙◌, arith, contains, Unique, is_yes,
  string_discrete,
}
use lib_stereo_camera.Types.{
  DataType, data_type_discrete, DataGroup, visual_geometric_2d, visual_geometric_3d,
  sensor_tracking, data_group_discrete, data_type_to_group,
}
use lib_stereo_camera.Slots.{has_groups, push_if, types_to_channels}

-- The channel of the camera service that carries a group.
unfoldable pub topic_of : DataGroup → String
topic_of visual_geometric_2d = "visual_2d"
topic_of visual_geometric_3d = "visual_3d"
topic_of sensor_tracking = "sensor_data"

-- Whether a type of the group occurs.
unfoldable pub any_in : DataGroup → List DataType → Bool
any_in g [] = false
any_in g (t ∷ ts) = is_yes (data_group_discrete (data_type_to_group t) g) || any_in g ts

or_assoc : (a b c : Bool) → ((a || b) || c) ≡ (a || (b || c))
or_assoc true b c = refl
or_assoc false b c = refl

has_groups-any_in :
    (ts : List DataType) (a b c : Bool)
    → has_groups ts a b c ≡ (
      a || any_in visual_geometric_2d ts,
      b || any_in visual_geometric_3d ts,
      c || any_in sensor_tracking ts,
    )
unfolding has_groups any_in
has_groups-any_in [] a b c = ground arith
has_groups-any_in (t ∷ ts) a b c = simp (has_groups-any_in ts, or_assoc)

any_in-contains :
    (t : DataType) (ts : List DataType)
    → contains data_type_discrete t ts ≡ true
    → any_in (data_type_to_group t) ts ≡ true
unfolding contains any_in
any_in-contains t [] h = h
any_in-contains t (u ∷ ts) h = ground (arith, any_in-contains t ts)

-- `types_to_channels` from the three flags.
abbrev channels_of : Bool → Bool → Bool → List String
channels_of a b c = push_if c "sensor_data" (push_if b "visual_3d" (push_if a "visual_2d" []))

abbrev flag : DataGroup → Bool → Bool → Bool → Bool
flag visual_geometric_2d a b c = a
flag visual_geometric_3d a b c = b
flag sensor_tracking a b c = c

contains-channels_of :
    (g : DataGroup) (a b c : Bool)
    → contains string_discrete (topic_of g) (channels_of a b c) ≡ flag g a b c
unfolding contains string_discrete push_if topic_of
contains-channels_of visual_geometric_2d a b c = ground arith
contains-channels_of visual_geometric_3d a b c = ground arith
contains-channels_of sensor_tracking a b c = ground arith

-- `types_to_channels` lists the channel of a group exactly if a type of the group is asked for.
pub contains-types_to_channels :
    (g : DataGroup) (ts : List DataType)
    → contains string_discrete (topic_of g) (types_to_channels ts) ≡ any_in g ts
unfolding types_to_channels
contains-types_to_channels g ts = rw (has_groups-any_in ts) (
    contains-channels_of g (any_in visual_geometric_2d ts) (any_in visual_geometric_3d ts)
      (any_in sensor_tracking ts)
    ∙ flag-any_in g)
  where
    flag-any_in :
        (h : DataGroup)
        → flag h
            (any_in visual_geometric_2d ts)
            (any_in visual_geometric_3d ts)
            (any_in sensor_tracking ts)
          ≡ any_in h ts
    flag-any_in visual_geometric_2d = refl
    flag-any_in visual_geometric_3d = refl
    flag-any_in sensor_tracking = refl

pub topic-types_to_channels :
    (t : DataType) (ts : List DataType)
    → contains data_type_discrete t ts ≡ true
    → contains string_discrete (topic_of (data_type_to_group t)) (types_to_channels ts) ≡ true
topic-types_to_channels t ts h =
    contains-types_to_channels (data_type_to_group t) ts ∙ any_in-contains t ts h

channels_of-Unique : (a b c : Bool) → Unique string_discrete (channels_of a b c)
unfolding contains string_discrete push_if
channels_of-Unique a b c = ground arith

pub types_to_channels-Unique : (ts : List DataType) → Unique string_discrete (types_to_channels ts)
unfolding types_to_channels
types_to_channels-Unique ts = rw (has_groups-any_in ts) (
    channels_of-Unique (any_in visual_geometric_2d ts) (any_in visual_geometric_3d ts)
      (any_in sensor_tracking ts))
