-- ===== src/Cpp/ServiceHandler/Known.antt =====
-- What the service handler knows of each service.
use pi_vision.Base.{
  ℕ, ◌≡◌, refl, ◌≢◌, sym, subst, ◌∙◌, Option-cases, none, some, List, [], ◌∷◌, ◌++◌, ◌==◌, ℤ, ne→==,
  eq→==, arith, is_minus_one, Run, ok, exit, out_of_fuel, fault, Returns, inl, inr, Bool-cases,
}
use mathlib.Core.List.{Memᴰ}
use mathlib.Core.List.Memᴰ.{cases_cons}
use native.Mathlib.Decide.{ℕ_discrete}
use pi_vision.Cpp.Events.{
  EventData, connect_to_service_req, connect_to_service_cfm, connect_to_service_rej,
  service_available_ind, subscribe_service_ind, event_connect_to_service_cfm,
  event_connect_to_service_rej, event_subscribe_service_ind, event_service_provided_ind, Call,
  raise_event,
}
use pi_vision.Cpp.ServiceHandler.{
  Services, find, assign, service_provided, subscribe_service, connect_cfm, handle_event,
  local_service, remote_service_disconnected, to_int32,
}

pub find-assign : (k : ℕ) (v : ℤ) (s : Services) → find k (assign k v s) ≡ some v
find-assign k v [] = rw (eq→== k k refl) refl
find-assign k v ((j, w) ∷ s) = elim (Bool-cases (k == j)) [
  | inl same ↦ rw (same, eq→== k k refl) refl
  | inr other ↦ rw (other, other) (find-assign k v s)
]

pub find-assign_other : (k j : ℕ) (v : ℤ) (s : Services) → k ≢ j → find k (assign j v s) ≡ find k s
find-assign_other k j v [] other = rw (ne→== k j other) refl
find-assign_other k j v ((i, w) ∷ s) other = elim (Bool-cases (j == i)) [
  | inl same ↦
      let e : j ≡ i = ground (arith, same) in
      rw (same, ne→== k j other, ne→== k i (ground (arith, e, other))) refl
  | inr differ ↦ rw differ (elim (Bool-cases (k == i)) [
    | inl hit ↦ rw hit refl
    | inr miss ↦ rw miss (find-assign_other k j v s other)
  ])
]

-- A service that has an entry.
abbrev pub Known : ℕ → Services → Type 0
Known k s = find k s ≢ none

pub found-Known : (k : ℕ) (s : Services) (v : ℤ) → Known k (assign k v s)
found-Known k s v none_left = ground (arith, find-assign k v s, none_left)

pub assign-Known : (k j : ℕ) (v : ℤ) (s : Services) → Known k s → Known k (assign j v s)
assign-Known k j v s h = elim (ℕ_discrete k j) [
  | yes same ↦ subst (λ i. Known i (assign j v s)) (sym same) (found-Known j s v)
  | no other ↦ λ e. h (sym (find-assign_other k j v s other) ∙ e)
]

-- The services that the calls ask to be connected to.
abbrev pub asked : List Call → List ℕ
asked [] = []
asked (raise_event event_no (connect_to_service_req n) ∷ calls) = n ∷ asked calls
asked (_ ∷ calls) = asked calls

-- The events that reach the service handler with the data that they are raised with: a service is
-- confirmed only when it has been asked for.
pub data Arrives (requested : List ℕ) : ℕ → EventData → Type 0 where
  service_is_provided :
      (n : ℕ) → Arrives requested event_service_provided_ind (service_available_ind n)
  service_is_wanted :
      (n : ℕ) → Arrives requested event_subscribe_service_ind (subscribe_service_ind n)
  service_is_found :
      (n id : ℕ)
      → Memᴰ n requested
      → Arrives requested event_connect_to_service_cfm (connect_to_service_cfm n id)
  service_is_lost :
      (n : ℕ) → Arrives requested event_connect_to_service_rej (connect_to_service_rej n)

-- The maps that the handler can have, with the services that it has asked for.
pub data Reached : Services → List ℕ → Type 0 where
  at_start : Reached [] []
  event :
      {s : Services} {requested : List ℕ} (event_no : ℕ) (ptr : EventData) {s' : Services}
      {calls : List Call}
      → Reached s requested
      → Arrives requested event_no ptr
      → handle_event event_no ptr s ≡ ok (s', calls)
      → Reached s' (asked calls ++ requested)

abbrev AllKnown : List ℕ → Services → Type 0
AllKnown requested s = (n : ℕ) → Memᴰ n requested → Known n s

-- The map behind an event has what was asked for, before or with it.
abbrev Keeps : List ℕ → Services × List Call → Type 0
Keeps requested (s', calls) = AllKnown (asked calls ++ requested) s'

service_provided-Keeps :
    (n : ℕ) (s : Services) (requested : List ℕ)
    → AllKnown requested s
    → Keeps requested (service_provided n s)
unfolding service_provided
service_provided-Keeps n s requested known = elim (Option-cases (find n s)) [
  | inl e ↦ rw (e, service_provided) λ k m. assign-Known k n local_service s (known k m)
  | inr (v, e) ↦
      rw (e, service_provided)
        (elim (Bool-cases (is_minus_one v)) [
          | inl lost ↦ rw lost λ k m. assign-Known k n local_service s (known k m)
          | inr there ↦ rw there known
        ])
]

subscribe_service-Keeps :
    (n : ℕ) (s : Services) (requested : List ℕ)
    → AllKnown requested s
    → Keeps requested (subscribe_service n s)
unfolding subscribe_service
subscribe_service-Keeps n s requested known = elim (Option-cases (find n s)) [
  | inl e ↦
      rw (e, subscribe_service)
        λ k m. elim (cases_cons m) [
          | inl same ↦
              subst (λ j. Known j (assign n remote_service_disconnected s)) (sym same)
                (found-Known n s remote_service_disconnected)
          | inr before ↦ assign-Known k n remote_service_disconnected s (known k before)
        ]
  | inr (v, e) ↦
      rw (e, subscribe_service)
        (elim (Bool-cases (is_minus_one v)) [
          | inl lost ↦ rw lost known
          | inr there ↦ rw there known
        ])
]

connect_cfm-Keeps :
    (n id : ℕ) (s : Services) (requested : List ℕ)
    → Known n s
    → AllKnown requested s
    → Returns (Keeps requested) (connect_cfm n id s)
unfolding connect_cfm
connect_cfm-Keeps n id s requested there known = elim (Option-cases (find n s)) [
  | inl e ↦ absurd (there e)
  | inr (v, e) ↦
      rw (e, Returns)
        (elim (Bool-cases (is_minus_one v)) [
          | inl lost ↦ rw lost (λ k m. assign-Known k n (to_int32 id) s (known k m))
          | inr connected ↦ rw connected known
        ])
]

handle_event-Keeps :
    (requested : List ℕ) (event_no : ℕ) (ptr : EventData) (s : Services)
    → AllKnown requested s
    → Arrives requested event_no ptr
    → Returns (Keeps requested) (handle_event event_no ptr s)
unfolding handle_event
handle_event-Keeps requested event_no ptr s known (service_is_provided n) =
    service_provided-Keeps n s requested known
handle_event-Keeps requested event_no ptr s known (service_is_wanted n) =
    subscribe_service-Keeps n s requested known
handle_event-Keeps requested event_no ptr s known (service_is_found n id asked_for) =
    connect_cfm-Keeps n id s requested (known n asked_for) known
handle_event-Keeps requested event_no ptr s known (service_is_lost n) = known

Reached-AllKnown : {s : Services} {requested : List ℕ} → Reached s requested → AllKnown requested s
Reached-AllKnown at_start = λ n m. elim m [ ]
Reached-AllKnown (event {s} {requested} event_no ptr {s'} {calls} r a e) =
    subst (Returns (Keeps requested)) e
      (handle_event-Keeps requested event_no ptr s (Reached-AllKnown r) a)

-- In every state that the handler can be in, every event that can arrive is handled: the iterator
-- that it dereferences for a confirmed service is never at the end of the map, and no service that it
-- has asked for is forgotten.
pub handle_event-Reached :
    {s : Services} {requested : List ℕ} (event_no : ℕ) (ptr : EventData)
    → Reached s requested
    → Arrives requested event_no ptr
    → Returns (λ (s', calls). Reached s' (asked calls ++ requested)) (handle_event event_no ptr s)
handle_event-Reached {s} {requested} event_no ptr r a =
    returned (handle_event event_no ptr s) refl
      (handle_event-Keeps requested event_no ptr s (Reached-AllKnown r) a)
  where
    returned :
        (o : Run (Services × List Call))
        → handle_event event_no ptr s ≡ o
        → Returns (Keeps requested) o
        → Returns (λ (s', calls). Reached s' (asked calls ++ requested)) o
    returned (ok (s', calls)) e h = Reached.event event_no ptr r a e
    returned (exit n) e h = h
    returned fault e h = h
    returned out_of_fuel e h = h
