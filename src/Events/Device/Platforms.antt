-- ===== src/Events/Device/Platforms.antt =====
-- src/events/input/sdk_device.rs: the platform that is written and the platform that is read.
use xorc_gateway.Base.{some, ◌≡◌, arith, Text, Option, text_eq}
use xorc_gateway.Events.Device.{SdkDevice, platform, platform_of, platform_text, device_into}

platform_of-platform_text :
    (p os : Option Text)
    → platform_of (some (platform_text (platform_of p os))) os ≡ platform_of p os
unfolding platform_of platform_text text_eq
platform_of-platform_text p os = ground arith

-- A device whose field `platform` holds what the message says has the platform that it had before.
pub platform-device_into :
    (d : SdkDevice) → platform (record d { platform = (device_into d).platform }) ≡ platform d
unfolding platform device_into
platform-device_into d = platform_of-platform_text d.platform d.os_name
