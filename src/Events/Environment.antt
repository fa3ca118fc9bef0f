-- ===== src/Events/Environment.antt =====
-- src/events/input/sdk_environment.rs
use xorc_gateway.Base.{Option, some, Text}

-- `SDKEnvironment`
pub record SdkEnvironment : Type 0 where
  pub sdk_version : Option Text
  pub app_version : Option Text
  pub app_store_id : Option Text
  pub app_id : Text
  pub app_instance_id : Option Text

-- `output::events::SdkEnvironment`
pub record Environment : Type 0 where
  pub app_id : Option Text
  pub sdk_version : Option Text
  pub app_version : Option Text
  pub app_store_id : Option Text
  pub app_instance_id : Option Text

-- `SDKEnvironment::into`
unfoldable pub environment_into : SdkEnvironment → Environment
environment_into e = record {
  app_id = some e.app_id;
  sdk_version = e.sdk_version;
  app_version = e.app_version;
  app_store_id = e.app_store_id;
  app_instance_id = e.app_instance_id;
}
