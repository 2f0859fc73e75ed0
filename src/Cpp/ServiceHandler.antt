-- ===== src/Cpp/ServiceHandler.antt =====
-- C++/src/pivision_servicehandler.cpp: which services there are, told to who asks for them.
pub mod Known
use pi_vision.Base.{
  ℕ, ◌≡◌, Bool, true, false, Option, none, some, List, [], ◌∷◌, ◌==◌, if◌then◌else◌, ℤ, pos, negsuc,
  ltb, ◌^◌, ◌-◌, minus_one, is_minus_one, Run, ok, fault, ◌>>=◌,
}
use pi_vision.Cpp.Events.{
  EventData, connect_to_service_req, service_available_ind, service_unavailable_ind,
  provide_service_ind, as_connect_to_service_cfm, as_connect_to_service_rej,
  as_subscribe_service_ind, as_service_available_ind, event_connect_to_service_req,
  event_connect_to_service_cfm, event_connect_to_service_rej, event_subscribe_service_ind,
  event_service_available_ind, event_service_unavailable_ind, event_service_provided_ind,
  event_provide_service_ind, Call, subscribe_to_event, raise_event,
}

-- `std::map<uint32_t, int32_t>`
abbrev pub Services : Type 0
Services = List (ℕ × ℤ)

abbrev pub find : ℕ → Services → Option ℤ
find k [] = none
find k ((j, v) ∷ m) = if k == j then some v else find k m

-- `services[k] = v`
abbrev pub assign : ℕ → ℤ → Services → Services
assign k v [] = (k, v) ∷ []
assign k v (e ∷ m) = if k == e.0 then (k, v) ∷ m else e ∷ assign k v m

abbrev pub local_service : ℤ
local_service = pos 0

abbrev pub remote_service_disconnected : ℤ
remote_service_disconnected = minus_one

-- A `uint32_t` stored as an `int32_t`, on a two's complement machine.
abbrev pub to_int32 : ℕ → ℤ
to_int32 n = if ltb n (2 ^ 31) then pos n else negsuc (2 ^ 32 - 1 - n)

-- The constructor's calls.
abbrev pub start : List Call
start =
    subscribe_to_event event_subscribe_service_ind
    ∷ subscribe_to_event event_connect_to_service_cfm
    ∷ subscribe_to_event event_connect_to_service_rej
    ∷ subscribe_to_event event_service_provided_ind
    ∷ []

abbrev pub provide : ℕ → Services → Services × List Call
provide n s = (
  assign n local_service s,
  raise_event event_service_available_ind (service_available_ind n)
      ∷ raise_event event_provide_service_ind (provide_service_ind n)
      ∷ [],
)

-- PIVISION_EVENT_SERVICE_PROVIDED_IND
unfoldable pub service_provided : ℕ → Services → Services × List Call
service_provided n s = elim (find n s) [
  | none ↦ provide n s
  | some v ↦ if is_minus_one v then provide n s else (s, [])
]

-- PIVISION_EVENT_SUBSCRIBE_SERVICE_IND
unfoldable pub subscribe_service : ℕ → Services → Services × List Call
subscribe_service n s = elim (find n s) [
  | none ↦ (
    assign n remote_service_disconnected s,
    raise_event event_connect_to_service_req (connect_to_service_req n) ∷ [],
  )
  | some v ↦
      if is_minus_one v
      then (s, [])
      else (s, raise_event event_service_available_ind (service_available_ind n) ∷ [])
]

-- PIVISION_EVENT_CONNECT_TO_SERVICE_CFM: an iterator at the end of the map is dereferenced where the
-- service is not in it.
unfoldable pub connect_cfm : ℕ → ℕ → Services → Run (Services × List Call)
connect_cfm n id s = elim (find n s) [
  | none ↦ fault
  | some v ↦
      if is_minus_one v
      then ok (
        assign n (to_int32 id) s,
        raise_event event_service_available_ind (service_available_ind n) ∷ [],
      )
      else ok (s, [])
]

unfoldable pub handle_event : ℕ → EventData → Services → Run (Services × List Call)
handle_event event_no ptr s =
    if event_no == event_service_provided_ind
    then (as_service_available_ind ptr >>= λ n. ok (service_provided n s))
    else (if event_no == event_subscribe_service_ind
        then (as_subscribe_service_ind ptr >>= λ n. ok (subscribe_service n s))
        else (if event_no == event_connect_to_service_cfm
            then (as_connect_to_service_cfm ptr >>= λ (n, id). connect_cfm n id s)
            else (if event_no == event_connect_to_service_rej
                then (as_connect_to_service_rej ptr >>= λ n.
                    ok (
                      s,
                      raise_event event_service_unavailable_ind (service_unavailable_ind n) ∷ [],
                    ))
                else ok (s, []))))
