-- ===== src/Cpp/Program/Handlers.antt =====
-- What each component of the three programs does with an event that has its data.
use pi_vision.Base.{
  ℕ, Option-cases, List, All, ltb, ◌==◌, is_minus_one, Returns, Bool-cases, inl, inr,
}
use pi_vision.Cpp.Events.{
  service_connected, service_disconnected, service_not_found, EventData, camera_service_rx,
  color_image_service_rx, bw_image_service_rx, Call,
}
use pi_vision.Cpp.EthTerm as EthTerm
use pi_vision.Cpp.ServiceHandler.{
  Services, find, assign, local_service, remote_service_disconnected, provide, service_provided,
  subscribe_service, connect_cfm, to_int32,
}
use pi_vision.Cpp.ServiceHandler as ServiceHandler
use pi_vision.Cpp.ServiceHandler.Known.{Known, assign-Known, found-Known}
use pi_vision.Cpp.FrameCoord.{FrameCoord, shutdown_timeout}
use pi_vision.Cpp.FrameCoord as FrameCoord
use pi_vision.Cpp.GrayscaleImage.{num_jobs_limit}
use pi_vision.Cpp.GrayscaleImage as GrayscaleImage
use pi_vision.Cpp.Program.Typed.{
  IsService, camera, color_image, bw_image, Typed, stop_event, shutdown_event, request_event,
  confirm_event, reject_event, status_event, subscribe_event, available_event, provided_event,
  unavailable_event, provide_event, data_event, color_event, Good, Grows,
}

-- The service handler keeps what it knows, and calls the dispatcher with such events only.
abbrev pub Handled : Services → Services × List Call → Type 0
Handled s (s', calls) = Grows s s' × All (Good s') calls

provide-Handled : (n : ℕ) (s : Services) → IsService n → Handled s (provide n s)
provide-Handled n s service = (
  λ k known. assign-Known k n local_service s known,
  (available_event n, (provide_event n service (found-Known n s local_service), tt)),
)

service_provided-Handled : (n : ℕ) (s : Services) → IsService n → Handled s (service_provided n s)
unfolding service_provided
service_provided-Handled n s service = elim (Option-cases (find n s)) [
  | inl e ↦ rw (e, service_provided) (provide-Handled n s service)
  | inr (v, e) ↦
      rw (e, service_provided)
        (elim (Bool-cases (is_minus_one v)) [
          | inl lost ↦ rw lost (provide-Handled n s service)
          | inr there ↦ rw there (λ k known. known, tt)
        ])
]

subscribe_service-Handled : (n : ℕ) (s : Services) → IsService n → Handled s (subscribe_service n s)
unfolding subscribe_service
subscribe_service-Handled n s service = elim (Option-cases (find n s)) [
  | inl e ↦
      rw (e, subscribe_service)
        (
          λ k known. assign-Known k n remote_service_disconnected s known,
          (request_event n service (found-Known n s remote_service_disconnected), tt),
        )
  | inr (v, e) ↦
      rw (e, subscribe_service)
        (elim (Bool-cases (is_minus_one v)) [
          | inl lost ↦ rw lost (λ k known. known, tt)
          | inr there ↦ rw there (λ k known. known, (available_event n, tt))
        ])
]

connect_cfm-Handled :
    (n id : ℕ) (s : Services) → Known n s → Returns (Handled s) (connect_cfm n id s)
unfolding connect_cfm
connect_cfm-Handled n id s known = elim (Option-cases (find n s)) [
  | inl e ↦ absurd (known e)
  | inr (v, e) ↦
      rw (e, Returns)
        (elim (Bool-cases (is_minus_one v)) [
          | inl lost ↦
              rw lost (λ k there. assign-Known k n (to_int32 id) s there, (available_event n, tt))
          | inr there ↦ rw there (λ k known'. known', tt)
        ])
]

pub services-Handled :
    (s : Services) (event_no : ℕ) (ptr : EventData)
    → Typed s event_no ptr
    → Returns (Handled s) (ServiceHandler.handle_event event_no ptr s)
unfolding ServiceHandler.handle_event
services-Handled s event_no ptr (provided_event n service) = service_provided-Handled n s service
services-Handled s event_no ptr (subscribe_event n service) = subscribe_service-Handled n s service
services-Handled s event_no ptr (confirm_event n id known) = connect_cfm-Handled n id s known
services-Handled s event_no ptr (reject_event n) = (λ k known. known, (unavailable_event n, tt))
services-Handled s event_no ptr (data_event n camera t d) = (λ k known. known, tt)
services-Handled s event_no ptr (data_event n color_image t d) = (λ k known. known, tt)
services-Handled s event_no ptr (data_event n bw_image t d) = (λ k known. known, tt)
services-Handled s event_no ptr _ = (λ k known. known, tt)

pub terminal-Good :
    (s : Services) (event_no : ℕ) (ptr : EventData)
    → Typed s event_no ptr
    → Returns (All (Good s)) (EthTerm.handle_event event_no ptr)
unfolding EthTerm.handle_event EthTerm.service_status
terminal-Good s event_no ptr (provide_event n service known) = ((service, known), tt)
terminal-Good s event_no ptr (request_event n service known) = ((service, known), tt)
terminal-Good s event_no ptr (status_event service_connected n fd service known) =
    (confirm_event n (EthTerm.service_id fd) known, ((service, known), tt))
terminal-Good s event_no ptr (status_event service_disconnected n fd service known) =
    (reject_event n, tt)
terminal-Good s event_no ptr (status_event service_not_found n fd service known) =
    (reject_event n, tt)
terminal-Good s event_no ptr (data_event n camera t d) = tt
terminal-Good s event_no ptr (data_event n color_image t d) = tt
terminal-Good s event_no ptr (data_event n bw_image t d) = tt
terminal-Good s event_no ptr _ = tt

pub coordinator-Good :
    (s : Services) (event_no : ℕ) (ptr : EventData) (f : FrameCoord)
    → Typed s event_no ptr
    → Returns (λ (f', calls). All (Good s) calls) (FrameCoord.handle_event event_no ptr f)
unfolding FrameCoord.handle_event
coordinator-Good s event_no ptr f (unavailable_event n) =
    elim (Bool-cases (n == camera_service_rx)) [
      | inl mine ↦ rw mine (stop_event, tt)
      | inr another ↦ rw another tt
    ]
coordinator-Good s event_no ptr f (available_event n) = elim (Bool-cases (n == camera_service_rx)) [
  | inl mine ↦ rw mine (provided_event color_image_service_rx color_image, tt)
  | inr another ↦ rw another tt
]
coordinator-Good s event_no ptr f (data_event n camera t d) = (color_event d, tt)
coordinator-Good s event_no ptr f (data_event n color_image t d) = tt
coordinator-Good s event_no ptr f (data_event n bw_image t d) = tt
coordinator-Good s event_no ptr f stop_event = (shutdown_event, tt)
coordinator-Good s event_no ptr f shutdown_event = (tt, tt)
coordinator-Good s event_no ptr f _ = tt

pub grayscale-Good :
    (s : Services) (event_no : ℕ) (ptr : EventData) (n : ℕ)
    → Typed s event_no ptr
    → Returns (λ (n', calls). All (Good s) calls) (GrayscaleImage.handle_event event_no ptr n)
unfolding GrayscaleImage.handle_event
grayscale-Good s event_no ptr k (available_event n) =
    elim (Bool-cases (n == color_image_service_rx)) [
      | inl mine ↦ rw mine (tt, (provided_event bw_image_service_rx bw_image, tt))
      | inr another ↦ rw another tt
    ]
grayscale-Good s event_no ptr k (data_event n color_image t d) =
    elim (Bool-cases (ltb k num_jobs_limit)) [ inl free ↦ rw free (tt, tt) | inr busy ↦ rw busy tt ]
grayscale-Good s event_no ptr k (data_event n camera t d) = tt
grayscale-Good s event_no ptr k (data_event n bw_image t d) = tt
grayscale-Good s event_no ptr k _ = tt
