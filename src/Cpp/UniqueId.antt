-- ===== src/Cpp/UniqueId.antt =====
-- C++/src/pivision_uniqueid.cpp and C++/inc/pivision_uniqueid.h: numbers from one instance, which the
-- first call makes. The mutex makes each call one step.
use pi_vision.Base.{ℕ, ◌+◌, Option, none, some, u32}

-- `currId` of the instance, if there is one.
abbrev pub Instance : Type 0
Instance = Option ℕ

pub get_api : Instance → ℕ
get_api none = 0
get_api (some curr_id) = curr_id

-- `PiVisionUniqueId::GetApi()->GetId()`
unfoldable pub get_id : Instance → ℕ × Instance
unfolding get_api
get_id i = let ret_val = get_api i in (ret_val, some (u32 (ret_val + 1)))
