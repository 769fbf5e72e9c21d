-- ===== src/Platform/Info.antt =====
-- `get_info` of platform.hpp and of the devices, over info/platform.hpp, and the constructors of
-- context.hpp.
use Prim.Native.String.{String}
use neo_sycl.Outcome.{Outcome, throws, unimplemented, ◌>>=◌}
use neo_sycl.Platform.Objects.{Objects, DeviceHandle, kind_of}

-- `info::platform`.
pub data PlatformInfo : Type 0 where
  profile version name vendor extensions : PlatformInfo

-- The strings of DEF_STR_INFO_TRAIT, which `platform::get_info` returns for any platform.
unfoldable pub platform_get_info : PlatformInfo → String
platform_get_info profile = "FULL PROFILE"
platform_get_info version = "0.1.0"
platform_get_info name = "neoSYCL"
platform_get_info vendor = "Tohoku University HPC Lab"
platform_get_info extensions = ""

-- `device::get_info`: the switch of each class has no case of its own.
unfoldable pub device_get_info : {P R : Type 0} → Objects → P → DeviceHandle → Outcome R
unfolding kind_of
device_get_info g param d = do k ← kind_of g d; throws unimplemented
