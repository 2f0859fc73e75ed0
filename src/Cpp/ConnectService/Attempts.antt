-- ===== src/Cpp/ConnectService/Attempts.antt =====
-- How often a service is looked for, and what is told of it.
use pi_vision.Base.{
  ℕ, suc, ◌+◌, ◌≤◌, ◌<◌, ◌≡◌, ◌⊎◌, true, false, List, ◌∷◌, ◌++◌, arith, length, replicate, ℤ,
  minus_one, fault, ◌≢◌,
}
use pi_vision.Constants.{ip_address_length}
use pi_vision.Sockets.{Sockets, Received, failed, received}
use pi_vision.Cpp.Events.{
  service_discovery_timeout, event_service_discovery_timeout, Call, raise_event, raise_event_in,
  EventData, event_service_status_ind, connection_status_ind, service_not_found,
}
use pi_vision.Cpp.Connection.{Env}
use pi_vision.Cpp.ConnectService.{
  ConnectService, max_num_attempts, service_discover_string, multicast_address, take_answer,
  connect_to_server, connect_status,
}

-- The timeout that is asked for behind an attempt that has found nothing.
abbrev pub timeout : ConnectService → Call
timeout c =
    raise_event_in event_service_discovery_timeout (service_discovery_timeout c.service_no) 500

-- A service that has been found at an address.
abbrev pub found_at : List ℕ → ConnectService → ConnectService
found_at address c = record c { server_address = address; service_found = true }

-- A list of timeouts of which so many are for a service.
pub data Wakes (service_no : ℕ) : ℕ → List (ℕ × EventData) → Type 0 where
  settled : {es : List (ℕ × EventData)} → Wakes service_no 0 es
  mine :
      {k : ℕ} {es : List (ℕ × EventData)}
      → Wakes service_no k es
      → Wakes service_no
          (suc k)
          ((event_service_discovery_timeout, service_discovery_timeout service_no) ∷ es)
  of_other :
      {k n : ℕ} {es : List (ℕ × EventData)}
      → n ≢ service_no
      → Wakes service_no k es
      → Wakes service_no k ((event_service_discovery_timeout, service_discovery_timeout n) ∷ es)

-- An answer that fills the array.
abbrev Fills : Received → Type 0
Fills failed = ⊥
Fills (received bytes) = ip_address_length ≤ length bytes

module _ (os : Sockets) where
  open os use {World}

  -- One of the requests of a job gets an answer that fills its array.
  abbrev pub Filled : ConnectService → Type 0
  Filled c =
      (w : World) × Fills
        (os.recv c.service_discovery_socket ip_address_length
          (os.sendto c.service_discovery_socket (service_discover_string c.service_no)
            (multicast_address c.service_no) w).1).0

  -- What the loop has done from so many attempts on: so many timeouts, up to the first answer.
  abbrev Tried : ConnectService → Env World → ConnectService × Env World → Type 0
  Tried c e (c', e') =
      (k : ℕ) × (e'.calls ≡ e.calls ++ replicate k (timeout c))
      × (c'.service_no ≡ c.service_no)
      × (((c'.service_found ≡ true) × (c.num_attempts + k < max_num_attempts))
          ⊎ ((c'.service_found ≡ false) × (c.num_attempts + k ≡ max_num_attempts)))

  -- The event that ends the job.
  abbrev pub Told : ConnectService → ℕ → Call → Type 0
  Told c k event =
      ((k ≡ max_num_attempts)
        × (event
            ≡ raise_event event_service_status_ind
                (connection_status_ind service_not_found c.service_no minus_one)))
      ⊎ ((k < max_num_attempts)
          × ((fd : ℤ) × (event
                ≡ raise_event event_service_status_ind
                    (connection_status_ind (connect_status fd) c.service_no fd))))

  abbrev found_event : ConnectService → Env World → Call
  found_event c e =
      let fd = (connect_to_server os c e.world).0 in
      raise_event event_service_status_ind
        (connection_status_ind (connect_status fd) c.service_no fd)

  abbrev lost_event : ConnectService → Call
  lost_event c =
      raise_event event_service_status_ind
        (connection_status_ind service_not_found c.service_no minus_one)

  -- An answer of 16 bytes, the most that is asked for, makes the NUL go behind the array.
  pub take_answer_full :
      (bytes : List ℕ) (c : ConnectService)
      → length bytes ≡ ip_address_length
      → take_answer (received bytes) c ≡ fault
  unfolding take_answer
  take_answer_full bytes c full = ground (arith, full)
