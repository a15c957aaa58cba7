-- ===== src/Privacy/Modes.antt =====
-- packages/privacy/src/modes.ts
use ascended_core.Base.{String, Bool, true, false}

pub data PrivacyMode : Type 0 where
  cloud private_local human : PrivacyMode

pub data Platform : Type 0 where
  web ios android macos windows linux desktop : Platform

-- the values of the two enums
pub mode_name : PrivacyMode → String
mode_name cloud = "cloud"
mode_name private_local = "private-local"
mode_name human = "human"

pub platform_name : Platform → String
platform_name web = "web"
platform_name ios = "ios"
platform_name android = "android"
platform_name macos = "macos"
platform_name windows = "windows"
platform_name linux = "linux"
platform_name desktop = "desktop"

-- `mode === PrivacyMode.HUMAN`
unfoldable pub is_human : PrivacyMode → Bool
is_human human = true
is_human _ = false
