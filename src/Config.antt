-- ===== src/Config.antt =====
-- include/stereo_camera/data/ConfigManager.h and src/data/ConfigManager.cpp: the configuration and the
-- files it is kept in. Log lines are left out.
pub mod Load
pub mod Kept
pub mod Files
use lib_stereo_camera.Common.{String, ℤ, Assoc}

-- `struct Api1Config`
pub record Api1Config : Type 0 where
  pub host : String
  pub port : ℤ
  pub cert_path : String
  pub timeout_ms : ℤ
  pub transport : String
  pub channels : Assoc String String

-- `struct Api2ServerConfig`, `struct Api3AdminConfig` and `struct Api3WssConfig`, which have the same
-- members.
pub record ServerConfig : Type 0 where
  pub host : String
  pub port : ℤ
  pub cert_path : String
  pub key_path : String
  pub thread_strategy : String
  pub worker_threads : ℤ

-- `struct Api2DataConfig`
pub record Api2DataConfig : Type 0 where
  pub transport : String
  pub zmq_hwm : ℤ
  pub pub_endpoints : Assoc String String

-- `struct Api3DataConfig`
pub record Api3DataConfig : Type 0 where
  pub wss_server : ServerConfig
  pub zmq_hwm : ℤ
  pub sub_endpoints : Assoc String String

-- `struct Api2Config`
pub record Api2Config : Type 0 where
  pub server : ServerConfig
  pub channel_data : Api2DataConfig

-- `struct Api3Config`
pub record Api3Config : Type 0 where
  pub admin_server : ServerConfig
  pub channel_data : Api3DataConfig

-- `struct SpscConfig`
pub record SpscConfig : Type 0 where
  pub queue_size : ℤ
  pub drop_policy : String
  pub publish_cv_timeout_ms : ℤ
  pub encode_cv_timeout_ms : ℤ
  pub send_cv_timeout_ms : ℤ

-- `struct AppConfig`
pub record AppConfig : Type 0 where
  pub api1 : Api1Config
  pub api2 : Api2Config
  pub api3 : Api3Config
  pub spsc : SpscConfig
  pub data_buffer_depth : ℤ
  pub log_level : String
