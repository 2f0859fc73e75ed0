-- ===== src/Cpp/ServiceListener/Requests.antt =====
-- How a listener answers requests for its address, and what becomes of the answer.
use mathlib.Core.List.{Memᴰ}
use mathlib.Core.List.Memᴰ.{head, tail}
use pi_vision.Base.{
  ℕ, suc, ◌≤◌, ◌<◌, ◌^◌, ◌≡◌, refl, Bool, true, false, none, some, List, [], ◌∷◌, ◌++◌, arith, ◌==◌,
  ltb, if_true, if_false, if◌then◌else◌, length, Run, ok, fault, lt→ltb, eq→==, ap, ◌∙◌, sym,
  Bool-cases, inl, inr,
}
use pi_vision.Decimal.{decimal, atoi, atoi-decimal, length-decimal_pos, length-decimal-le}
use pi_vision.Sockets.{Sockets, SockaddrIn}
use pi_vision.Server.Setup.{same_text}
use pi_vision.Server.{header_length, message_buf_size}
use pi_vision.Cpp.Events.{event_stop}
use pi_vision.Cpp.ConnectService.{service_discover_string}
use pi_vision.Cpp.ServiceListener.{
  ServiceListener, handle_event, is_service_request, answer, take_request,
  handle_new_service_discovery_requests, handle_events, while_active,
}
use pi_vision.Cpp.Connection.{Env}

module _ (os : Sockets) where
  open os use {World}

  service_discover_string_len :
      (n : ℕ)
      → n < 2 ^ 31
      → (9 < length (service_discover_string n)) × (length (service_discover_string n) < 50)
  service_discover_string_len n small =
      let pos : 0 < length (decimal n) = length-decimal_pos n in
      let few : length (decimal n) ≤ 10 = length-decimal-le 9 n (omega arith) (omega arith) in
      (omega (arith, pos), omega (arith, few))

  take_request-asked :
      (again : ServiceListener → World → Run (ServiceListener × World)) (l : ServiceListener)
      (n : ℕ) (sender : SockaddrIn) (w : World)
      → n < 2 ^ 31
      → take_request os again l (some (service_discover_string n, sender), w)
        ≡ ok (record l { addr = sender }, answer os l n sender w)
  unfolding take_request same_text
  take_request-asked again l n sender w small =
      let (long, short) = service_discover_string_len n small in
      if_true (ltb (length (service_discover_string n)) 50) _ _
        (lt→ltb (length (service_discover_string n)) 50 short)
      ∙ if_true (ltb 9 (length (service_discover_string n))) _ _
          (lt→ltb 9 (length (service_discover_string n)) long)
      ∙ if_true (is_service_request (service_discover_string n))
          (ok (record l { addr = sender }, answer os l (atoi (decimal n ++ (0 ∷ []))) sender w))
          (again (record l { addr = sender }) w) refl
      ∙ ap (λ port. ok (record l { addr = sender }, answer os l port sender w))
          (atoi-decimal n [] small)

  -- The request that `FindService` writes for a service below 2 ^ 31 is answered with the listener's
  -- own address, to its sender, if the service is the listener's; another one is passed over.
  pub handle_request-find_service :
      (fuel : ℕ) (l : ServiceListener) (n : ℕ) (sender : SockaddrIn) (w w1 : World)
      → n < 2 ^ 31
      → os.recvfrom l.service_discovery_socket message_buf_size w
        ≡ (some (service_discover_string n, sender), w1)
      → handle_new_service_discovery_requests os (suc fuel) l w
        ≡ ok (
          record l { addr = sender },
          if l.service_no == n
              then (os.sendto l.service_discovery_socket l.own_ip_address sender w1).1
              else w1,
        )
  unfolding handle_new_service_discovery_requests
  handle_request-find_service fuel l n sender w w1 small came =
      ap (take_request os (λ l' w'. handle_new_service_discovery_requests os fuel l' w') l) came
      ∙ take_request-asked (λ l' w'. handle_new_service_discovery_requests os fuel l' w') l n sender
          w1 small

  -- A call of `recvfrom` that fails, as each one does that ends by its timeout, makes the listener write
  -- in front of its buffer.
  pub handle_request_timeout :
      (fuel : ℕ) (l : ServiceListener) (w : World)
      → (os.recvfrom l.service_discovery_socket message_buf_size w).0 ≡ none
      → handle_new_service_discovery_requests os (suc fuel) l w ≡ fault
  unfolding handle_new_service_discovery_requests take_request
  handle_request_timeout fuel l w nothing =
      ap
        (λ o.
          take_request os (λ l' w'. handle_new_service_discovery_requests os fuel l' w') l
            (o, (os.recvfrom l.service_discovery_socket message_buf_size w).1))
        nothing

  -- Data that is no request makes the listener look again, up to the first request.
  pub handle_request_unknown :
      (fuel : ℕ) (l : ServiceListener) (bytes : List ℕ) (sender : SockaddrIn) (w w1 : World)
      → header_length < length bytes
      → length bytes < message_buf_size
      → is_service_request bytes ≡ false
      → os.recvfrom l.service_discovery_socket message_buf_size w ≡ (some (bytes, sender), w1)
      → handle_new_service_discovery_requests os (suc fuel) l w
        ≡ handle_new_service_discovery_requests os fuel (record l { addr = sender }) w1
  unfolding handle_new_service_discovery_requests take_request
  handle_request_unknown fuel l bytes sender w w1 long short other came =
      ap (take_request os (λ l' w'. handle_new_service_discovery_requests os fuel l' w') l) came
      ∙ if_true (ltb (length bytes) 50) _ _ (lt→ltb (length bytes) 50 short)
      ∙ if_true (ltb 9 (length bytes)) _ _ (lt→ltb 9 (length bytes) long)
      ∙ if_false (is_service_request bytes) _ _ other

-- An event that stops the listener, among those that are handled before a round.
stopped :
    (events : List ℕ) (l : ServiceListener)
    → l.active ≡ false
    → (handle_events events l).active ≡ false
unfolding handle_events handle_event
stopped [] l off = off
stopped (event_no ∷ more) l off = elim (Bool-cases (event_no == event_stop)) [
  | inl stop ↦ stopped more _ (
      ap (λ (k : ServiceListener). k.active)
        (if_true (event_no == event_stop) (record l { active = false }) l stop))
  | inr other ↦ stopped more _ (
      ap (λ (k : ServiceListener). k.active)
        (if_false (event_no == event_stop) (record l { active = false }) l other)
      ∙ off)
]

handle_events_stop :
    (events : List ℕ) (l : ServiceListener)
    → Memᴰ event_stop events
    → (handle_events events l).active ≡ false
unfolding handle_events handle_event
handle_events_stop [] l m = elim m [ ]
handle_events_stop (event_no ∷ more) l (head same) = stopped more _ (
    ap (λ (k : ServiceListener). k.active)
      (if_true (event_no == event_stop) (record l { active = false }) l
        (eq→== event_no event_stop (sym same))))
handle_events_stop (event_no ∷ more) l (tail later) = handle_events_stop more _ later

-- Once the stop is among the events before a round, the loop ends with them: no request is answered and
-- no connection taken any more.
pub while_active_stop :
    (os : Sockets) (fuel : ℕ) (events : List ℕ) (rounds : List (List ℕ)) (l : ServiceListener)
    (e : Env os.World)
    → Memᴰ event_stop events
    → while_active os fuel (events ∷ rounds) l e ≡ ok (handle_events events l, e)
unfolding while_active
while_active_stop os fuel events rounds l e stop =
    ended (handle_events events l).active _ _ (handle_events_stop events l stop)
  where
    ended :
        (b : Bool) (x y : Run (ServiceListener × Env os.World))
        → b ≡ false
        → elim b [ false ↦ x | true ↦ y ] ≡ x
    ended true x y h = absurd (ground (arith, h))
    ended false x y h = refl
