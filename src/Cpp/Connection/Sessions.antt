-- ===== src/Cpp/Connection/Sessions.antt =====
-- A sequence of messages: what the loop of `Execute` makes of it.
use mathlib.Core.List.{append_assoc, append-nil}
use pi_vision.Base.{
  ℕ, suc, ◌+◌, ◌^◌, ◌<◌, ◌≡◌, refl, Bool, true, false, List, [], ◌∷◌, ◌++◌, map, All, arith, length,
  Run, ok, Returns, Returns→ok, ◌>>=◌, Keeps, ap, sym, subst, ◌∙◌,
}
use pi_vision.ImageDataTl.{le32}
use pi_vision.Sockets.{Sockets}
use pi_vision.Cpp.Events.{PiVisionData, new_data_ind, Call, raise_event}
use pi_vision.Cpp.Connection.{
  Connection, Env, call, send, is_message, take_message, receive_message, while_active, ack_msg,
  ack_msg_buf, heartbeat_msg_buf, pid_msg_buf,
}
use pi_vision.Cpp.Connection.Chunks.{Takes, Wrote, send-Wrote}
use pi_vision.Cpp.Connection.Messages.{whole, Gives, receive_message-Whole}
use pi_vision.Cpp.Connection.Keeps.{On, send-On}

-- A message that is not taken for an acknowledgement, a heartbeat or the process's number: data of
-- fewer than 2 ^ 31 bytes, with other first bytes.
pub record Ordinary (m : List ℕ) : Type 0 where
  pub some_bytes : 0 < length m
  pub small : length m < 2 ^ 31
  pub no_ack : is_message (length m) ack_msg_buf (whole m) ≡ false
  pub no_heartbeat : is_message (length m) heartbeat_msg_buf (whole m) ≡ false
  pub no_pid : is_message (length m) (pid_msg_buf 0) (whole m) ≡ false

-- The number of the process is not one of the bytes that are compared.
is_message-pid_msg_buf :
    (n p : ℕ) (d : PiVisionData) → is_message n (pid_msg_buf p) d ≡ is_message n (pid_msg_buf 0) d
unfolding pid_msg_buf le32
is_message-pid_msg_buf n p d = refl

-- What `Send` writes for a message, and for each of several.
abbrev pub framed : List ℕ → List ℕ
framed m = le32 (length m) ++ m

abbrev pub all_framed : List (List ℕ) → List ℕ
all_framed [] = []
all_framed (m ∷ ms) = framed m ++ all_framed ms

-- One acknowledgement for each message.
abbrev pub acks : List (List ℕ) → List ℕ
acks [] = []
acks (m ∷ ms) = framed (le32 ack_msg) ++ acks ms

-- The event with the data of a message.
abbrev pub raised : Connection → List ℕ → Call
raised c m = raise_event c.service_no (new_data_ind c.conn_type (whole m))

module _ (os : Sockets) where
  open os use {World}

  take_message-Ordinary :
      (fuel : ℕ) (m : List ℕ) (c : Connection) (e : Env World)
      → Ordinary m
      → c.ack_enabled ≡ true
      → take_message os fuel (length m) (whole m) c e
        ≡ send os fuel ack_msg_buf c (call (raised c m) e)
  unfolding take_message
  take_message-Ordinary fuel m c e o on =
      rw
        (
          is_message-pid_msg_buf (length m) (os.getpid e.world) (whole m),
          o.no_ack,
          o.no_heartbeat,
          o.no_pid,
          on,
        )
        refl

  send_ack-Wrote :
      (fuel : ℕ) (c : Connection) (e : Env World)
      → Takes os c.socket_fd
      → 4 < fuel
      → Returns (Wrote os c e (framed (le32 ack_msg))) (send os fuel ack_msg_buf c e)
  unfolding ack_msg_buf le32
  send_ack-Wrote fuel c e t four = send-Wrote os fuel ack_msg_buf c e t four four

  chosen : {A : Type 0} (b : Bool) (x y : Run A) → b ≡ true → elim b [ false ↦ x | true ↦ y ] ≡ y
  chosen true x y h = refl
  chosen false x y h = absurd (ground (arith, h))

  while_active-next :
      (fuel rounds : ℕ) (c : Connection) (e e1 : Env World)
      → c.active ≡ true
      → receive_message os fuel c e ≡ ok (c, e1)
      → while_active os fuel (suc rounds) c e ≡ while_active os fuel rounds c e1
  unfolding while_active
  while_active-next fuel rounds c e e1 active received =
      chosen (c.active) (ok (c, e))
        (receive_message os fuel c e >>= λ (c1, e2). while_active os fuel rounds c1 e2) active
      ∙ ap (λ r. r >>= λ (c1, e2). while_active os fuel rounds c1 e2) received

  module _ (c : Connection) (g : Gives os c.socket_fd) (t : Takes os c.socket_fd) where
    open g use {pending}

    -- What messages have led to: the events with their data, in their order, and an acknowledgement
    -- for each.
    abbrev pub Delivered : List (List ℕ) → List ℕ → Env World → Env World → Type 0
    Delivered ms rest e e' =
        (e'.calls ≡ e.calls ++ map (raised c) ms)
        × (pending e'.world ≡ rest)
        × (os.stream c.socket_fd e'.world ≡ os.stream c.socket_fd e.world ++ acks ms)

    message-Delivered :
        (fuel : ℕ) (m rest : List ℕ) (e : Env World)
        → Ordinary m
        → c.ack_enabled ≡ true
        → 4 < fuel
        → length m < fuel
        → pending e.world ≡ le32 (length m) ++ (m ++ rest)
        → (e' : Env World) × (receive_message os fuel c e ≡ ok (c, e'))
          × Delivered (m ∷ []) rest e e'
    message-Delivered fuel m rest e o on four room left =
        let (e1, received, calls1, left1, st1) =
          receive_message-Whole os c g fuel m rest e o.some_bytes o.small four room left in
        let e2 = call (raised c m) e1 in
        let ((c3, e3), r3, (same, calls3, st3)) =
          Returns→ok (Wrote os c e2 (framed (le32 ack_msg))) (send os fuel ack_msg_buf c e2)
            (send_ack-Wrote fuel c e2 t four) in
        let (at3, left3) =
          subst
            (Keeps (
              On os c.socket_fd (λ w. pending w ≡ rest) (λ w h. g.error_keeps w ∙ h)
                (λ bytes w h. g.send_keeps bytes w ∙ h)))
            r3
            (send-On os c.socket_fd (λ w. pending w ≡ rest) (λ w h. g.error_keeps w ∙ h)
              (λ bytes w h. g.send_keeps bytes w ∙ h) fuel ack_msg_buf c e2 (refl, left1)) in
        (
          e3,
          received ∙ take_message-Ordinary fuel m c e1 o on ∙ r3 ∙ ap (λ k. ok (k, e3)) same,
          (
            calls3 ∙ ap (λ cs. cs ++ (raised c m ∷ [])) calls1,
            left3,
            st3
                ∙ ap (λ s. s ++ framed (le32 ack_msg)) st1
                ∙ ap (λ s. os.stream c.socket_fd e.world ++ s)
                    (sym (append-nil (framed (le32 ack_msg)))),
          ),
        )

    -- Over a socket without errors that gives and takes at least one byte with each call, data messages
    -- that a peer's `Send` has written one behind the other are told as events with their data, in
    -- their order and with one acknowledgement each, in as many rounds of the loop of `Execute`, in
    -- whatever pieces they arrive; the connection, which is active and has acknowledgements enabled,
    -- stays as it is. A data message has at least one byte, fewer than 2 ^ 31, and other first bytes
    -- than the three messages of the protocol.
    pub while_active-messages :
        (fuel rounds : ℕ) (ms : List (List ℕ)) (rest : List ℕ) (e : Env World)
        → All Ordinary ms
        → All (λ m. length m < fuel) ms
        → 4 < fuel
        → c.active ≡ true
        → c.ack_enabled ≡ true
        → pending e.world ≡ all_framed ms ++ rest
        → (e' : Env World) × (while_active os fuel (length ms + rounds) c e
            ≡ while_active os fuel rounds c e')
          × Delivered ms rest e e'
    unfolding while_active
    while_active-messages fuel rounds [] rest e o room four active on left = (
      e,
      ap (λ k. while_active os fuel k c e) (omega arith),
      (sym (append-nil e.calls), left, sym (append-nil (os.stream c.socket_fd e.world))),
    )
    while_active-messages fuel rounds (m ∷ ms) rest e (o, others) (room, rooms) four active on
          left =
        let (e1, received, (calls1, left1, st1)) =
          message-Delivered fuel m (all_framed ms ++ rest) e o on four room (
            left
            ∙ append_assoc (framed m) (all_framed ms) rest
            ∙ append_assoc (le32 (length m)) m (all_framed ms ++ rest)) in
        let (e2, looped, (calls2, left2, st2)) =
          while_active-messages fuel rounds ms rest e1 others rooms four active on left1 in
        let more : length (m ∷ ms) + rounds ≡ suc (length ms + rounds) = omega arith in
        (
          e2,
          ap (λ k. while_active os fuel k c e) more
              ∙ while_active-next fuel (length ms + rounds) c e e1 active received
              ∙ looped,
          (
            calls2
                ∙ ap (λ cs. cs ++ map (raised c) ms) calls1
                ∙ append_assoc e.calls (raised c m ∷ []) (map (raised c) ms),
            left2,
            st2
                ∙ ap (λ s. s ++ acks ms) st1
                ∙ append_assoc (os.stream c.socket_fd e.world) (acks (m ∷ [])) (acks ms)
                ∙ ap (λ s. os.stream c.socket_fd e.world ++ (s ++ acks ms))
                    (append-nil (framed (le32 ack_msg))),
          ),
        )
