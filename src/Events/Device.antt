-- ===== src/Events/Device.antt =====
-- src/events/input/sdk_device.rs: the device, its platform and location, and its protobuf message.
pub mod Platforms
pub mod Languages
use xorc_gateway.Base.{
  ℕ, suc, Bool, true, false, Option, none, some, [], ◌∷◌, take, Text, text, ◌==◌, text_eq, ℕ_eq,
  if◌then◌else◌, ◌||◌, ℤ, negsuc, or_else, map_option,
}
use xorc_gateway.Crates.{Base64, Network, IpAddr}

-- `Platform`
pub data Platform : Type 0 where
  ios android web unknown : Platform

-- `platform == Platform::Web`
abbrev pub is_web : Platform → Bool
is_web web = true
is_web _ = false

-- `String::from(&platform)`
unfoldable pub platform_text : Platform → Text
platform_text ios = text "ios"
platform_text android = text "android"
platform_text web = text "web"
platform_text unknown = []

-- `SDKDevice`
pub record SdkDevice : Type 0 where
  pub ifa_tracking_enabled : Bool
  pub notification_registered : Bool
  pub h : Option ℤ
  pub w : Option ℤ
  pub locale : Option Text
  pub language : Option Text
  pub time_zone : Option Text
  pub manufacturer : Option Text
  pub model : Option Text
  pub os_version : Option Text
  pub os_name : Option Text
  pub network_connection_type : Option Text
  pub device_name : Option Text
  pub ifa : Option Text
  pub idfv : Option Text
  pub carrier_name : Option Text
  pub carrier_country : Option Text
  pub browser_name : Option Text
  pub browser_version : Option Text
  pub browser_ua : Option Text
  pub notification_types : Option ℤ
  pub orientation : Option Text
  pub platform : Option Text
  pub ip_hashed_blake2 : Option Text
  pub country : Option Text

-- The inner match of `platform`, on `os_name`.
unfoldable pub platform_of_os : Option Text → Platform
platform_of_os none = unknown
platform_of_os (some os) =
    if os == text "iOS" || os == text "iPhone OS"
    then ios
    else if os == text "Android"
    then android
    else unknown

-- The match of `platform`, on the field `platform`.
unfoldable pub platform_of : Option Text → Option Text → Platform
unfolding platform_of_os
platform_of none os_name = platform_of_os os_name
platform_of (some p) os_name =
    if p == text "android"
    then android
    else if p == text "ios"
    then ios
    else if p == text "web"
    then web
    else platform_of_os os_name

-- `SDKDevice::platform`
unfoldable pub platform : SdkDevice → Platform
unfolding platform_of
platform d = platform_of d.platform d.os_name

-- `SDKDevice::set_location`
unfoldable pub set_location : Base64 → Network → IpAddr → SdkDevice → SdkDevice
set_location base64 network ip d = record d {
  ip_hashed_blake2 = some (base64.encode (network.blake2b ip.display));
  country = network.lookup_country ip;
}

-- `str::find` of an ASCII character, by its byte index.
unfoldable pub find : ℕ → Text → Option ℕ
find c [] = none
find c (b ∷ s) = if b == c then some 0 else map_option suc (find c s)

-- The language that `into` stores: the one given, or what stands before the first `_` of the locale.
unfoldable pub language_of : Option Text → Option Text → Option Text
unfolding find
language_of (some language) locale = some language
language_of none none = none
language_of none (some locale) = map_option (λ index. take index locale) (find b'_' locale)

-- `common::Carrier` and `common::Browser`, with the fields that the source sets.
pub record Carrier : Type 0 where
  pub name : Option Text
  pub mcc : Option Text

pub record Browser : Type 0 where
  pub name : Option Text
  pub ua : Option Text
  pub version : Option Text

-- `common::Device`, with the fields that the source sets; the others keep their defaults.
pub record Device : Type 0 where
  pub platform : Option Text
  pub locale : Option Text
  pub timezone : Option Text
  pub manufacturer : Option Text
  pub model : Option Text
  pub osv : Option Text
  pub os : Option Text
  pub connectiontype : Option Text
  pub ifa : Option Text
  pub idfv : Option Text
  pub notification_types : Option ℤ
  pub orientation : Option Text
  pub h : Option ℤ
  pub w : Option ℤ
  pub ifa_tracking_enabled : Option Bool
  pub notification_registered : Option Bool
  pub ip_hashed_blake2 : Option Text
  pub country : Option Text
  pub carrier : Option Carrier
  pub browser : Option Browser
  pub language : Option Text

-- `SDKDevice::into`
unfoldable pub device_into : SdkDevice → Device
unfolding platform platform_text language_of
device_into d = record {
  platform = some (platform_text (platform d));
  locale = d.locale;
  timezone = d.time_zone;
  manufacturer = d.manufacturer;
  model = d.model;
  osv = d.os_version;
  os = d.os_name;
  connectiontype = d.network_connection_type;
  ifa = d.ifa;
  idfv = d.idfv;
  notification_types = d.notification_types;
  orientation = d.orientation;
  h = or_else d.h (some (negsuc 0));
  w = or_else d.w (some (negsuc 0));
  ifa_tracking_enabled = some d.ifa_tracking_enabled;
  notification_registered = some d.notification_registered;
  ip_hashed_blake2 = d.ip_hashed_blake2;
  country = d.country;
  carrier = some (record { name = d.carrier_name; mcc = d.carrier_country });
  browser = some (record { name = d.browser_name; ua = d.browser_ua; version = d.browser_version });
  language = language_of d.language d.locale;
}
