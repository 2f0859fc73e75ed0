-- ===== src/Client/Frames.antt =====
-- Which bytes a frame consists of, and how it is handed on.
use mathlib.Core.List.{append_assoc, append-nil, flatten}
use pi_vision.Base.{
  ℕ, zero, suc, ◌+◌, ◌-◌, ◌^◌, ◌≤◌, ◌<◌, ◌≡◌, refl, none, some, List, [], ◌∷◌, ◌++◌, arith, ltb,
  ◌==◌, if◌then◌else◌, length, take, ℤ, Run, ok, fault, Returns, ◌>>=◌, patch, blit-ok,
  length-patch, take-patch, slice, u32, ap, ◌∙◌, sym, ne→==, eq→==, take_all, get_elem?,
}
use mathlib.Core.Path.{subst}
use native.Mathlib.Decide.{ℕ_discrete}
use pi_vision.Constants.{camera_buf_header_size}
use pi_vision.Sockets.{Sockets, received}
use pi_vision.Client.{
  Client, state_table, call_state, receive_header, receive_pixels, state_connected, run, receive,
  finish_frame,
}
use pi_vision.Client.Bounds.{IsValid, IsCurrent}

-- For frames of less than 2 ^ 31 bytes: `CLIENT_receive` of a whole frame from a valid client that
-- has just run stays within the buffer, keeps the client valid, and hands on nothing, or in the
-- state of a complete frame the whole buffer, which is then marked as read.
pub receive_lem :
    (size : ℕ) (c : Client)
    → size < 2 ^ 31
    → IsCurrent size c
    → Returns
        (λ (bytes, c').
          IsValid size c'
          × (bytes ≡ (if c.curr_state == 4 then c.buffer else []))
          × (c.curr_state ≡ 4 → c'.buffer_index ≡ size))
        (receive size c)
unfolding receive slice
receive_lem size c small (v, current) = ground (arith, take_all size c.buffer)

-- A second `CLIENT_receive` of a whole frame, of at least one byte, before the client runs reads
-- behind the buffer.
pub receive_twice :
    (size : ℕ) (c : Client)
    → 0 < size
    → IsValid size c
    → c.curr_state ≡ 4
    → c.buffer_index ≡ size
    → receive size c ≡ fault
unfolding receive slice
receive_twice size c pos v waiting read = ground arith

module _ (os : Sockets) where
  open os use {World}

  -- `recv` gives these pieces, none of them empty, to a reader that asks for all of its room.
  abbrev pub Delivers : ℤ → ℕ → World → List (List ℕ) → World → Type 0
  Delivers fd room w [] w' = w' ≡ w
  Delivers fd room w (b ∷ bs) w' =
      ((os.recv fd room w).0 ≡ received b)
      × (0 < length b)
      × Delivers fd (room - length b) (os.recv fd room w).1 bs w'

  -- So many calls of the client's run function.
  pub runs : ℕ → ℕ → Client → World → Run (Client × World)
  runs size zero c w = ok (c, w)
  runs size (suc n) c w = run os size c w >>= λ (c', w'). runs size n c' w'

  abbrev pub pieces_length : List (List ℕ) → ℕ
  pieces_length [] = 0
  pieces_length (b ∷ bs) = length b + pieces_length bs

  -- A frame of these pixels waits, and the next header is to be read from its start.
  pub record Holds (pixels : List ℕ) (c : Client) : Type 0 where
    pub waits : c.curr_state ≡ 4
    pub frame : c.buffer ≡ pixels
    pub from_start : c.buffer_index ≡ 0
    pub next_header : c.header_index ≡ 0

  module _ (size : ℕ) (small : size < 2 ^ 31) where
    -- The client after a piece, before it looks whether the buffer is full.
    abbrev with_piece : Client → List ℕ → Client
    with_piece c b = record c {
      buffer = patch c.buffer_index b c.buffer;
      buffer_index = u32 (c.buffer_index + length b);
    }

    run-piece :
        (c : Client) (b : List ℕ) (w : World)
        → c.curr_state ≡ 3
        → c.header_index ≡ camera_buf_header_size
        → (os.recv c.socket_fd (size - c.buffer_index) w).0 ≡ received b
        → c.buffer_index + length b ≤ length c.buffer
        → run os size c w
          ≡ ok (
            finish_frame size (with_piece c b),
            (os.recv c.socket_fd (size - c.buffer_index) w).1,
          )
    unfolding run state_connected receive_pixels
    run-piece c b w connected whole e fits = to_state ∙ to_pixels ∙ store
      where
        to_state : run os size c w ≡ state_connected os size c w
        to_state =
            ap
              (λ n. elim (get_elem? state_table n) [
                | none ↦ fault
                | some f ↦ call_state os size f c w
              ])
              connected

        to_pixels : state_connected os size c w ≡ receive_pixels os size c w
        to_pixels =
            ap
              (λ n.
                if ltb n camera_buf_header_size
                then receive_header os c w
                else receive_pixels os size c w)
              whole

        store :
            receive_pixels os size c w
            ≡ ok (
              finish_frame size (with_piece c b),
              (os.recv c.socket_fd (size - c.buffer_index) w).1,
            )
        store = rw (e, receive_pixels, blit-ok c.buffer_index b c.buffer fits)

    -- What is in front in the buffer after a piece, with the pieces that follow.
    front-piece :
        (c : Client) (b : List ℕ) (bs : List (List ℕ))
        → c.buffer_index + length b ≤ length c.buffer
        → length c.buffer ≡ size
        → take (with_piece c b).buffer_index (with_piece c b).buffer ++ flatten bs
          ≡ take c.buffer_index c.buffer ++ flatten (b ∷ bs)
    unfolding flatten
    front-piece c b bs fits len =
        let e : u32 (c.buffer_index + length b) ≡ c.buffer_index + length b = omega arith in
        rw (e, take-patch c.buffer_index b c.buffer fits)
          (append_assoc (take c.buffer_index c.buffer) b (flatten bs))

    -- The last piece fills the buffer.
    last-piece :
        (c : Client) (b : List ℕ) (bs : List (List ℕ)) (w w' : World)
        → c.curr_state ≡ 3
        → length c.buffer ≡ size
        → c.buffer_index + length b ≡ size
        → pieces_length bs ≡ 0
        → Delivers c.socket_fd (size - c.buffer_index - length b) w bs w'
        → Returns
            (λ (c', w''). Holds (take c.buffer_index c.buffer ++ flatten (b ∷ bs)) c' × (w'' ≡ w'))
            (runs size (length bs) (finish_frame size (with_piece c b)) w)
    unfolding runs flatten
    last-piece c b [] w w' connected len full nothing del =
        rw (eq→== (u32 (c.buffer_index + length b)) size (omega arith)) (
          record {
            waits = omega arith;
            frame =
                sym (
                  take_all (c.buffer_index + length b) (patch c.buffer_index b c.buffer)
                    (omega (arith, length-patch c.buffer_index b c.buffer (omega arith))))
                ∙ take-patch c.buffer_index b c.buffer (omega arith)
                ∙ ap (λ t. take c.buffer_index c.buffer ++ t) (sym (append-nil b));
            from_start = refl;
            next_header = refl;
          },
          sym del,
        )
    last-piece c b (x ∷ bs) w w' connected len full nothing del = absurd (omega arith)

    with_piece-IsValid :
        (c : Client) (b : List ℕ)
        → IsValid size c
        → c.curr_state ≡ 3
        → c.buffer_index + length b < size
        → IsValid size (with_piece c b)
    with_piece-IsValid c b v connected fits = ground (arith, length-patch c.buffer_index b c.buffer)

    -- For frames of less than 2 ^ 31 bytes: when `recv` delivers the pixels that are missing of a
    -- frame in pieces, none of them empty, a valid connected client that has the header makes a
    -- frame of exactly the pixels that it has and those that come, in order, with one call for each
    -- piece, and the next header is read from its start.
    pub frame_of_pieces :
        (c : Client) (bs : List (List ℕ)) (w w' : World)
        → IsValid size c
        → c.curr_state ≡ 3
        → c.header_index ≡ camera_buf_header_size
        → Delivers c.socket_fd (size - c.buffer_index) w bs w'
        → c.buffer_index + pieces_length bs ≡ size
        → Returns
            (λ (c', w''). Holds (take c.buffer_index c.buffer ++ flatten bs) c' × (w'' ≡ w'))
            (runs size (length bs) c w)
    unfolding runs
    frame_of_pieces c [] w w' v connected whole del total = absurd (omega arith)
    frame_of_pieces c (b ∷ bs) w w' v connected whole (e, some_bytes, del) total =
        rw (run-piece c b w connected whole e (omega arith))
          (elim (ℕ_discrete (c.buffer_index + length b) size) [
            | yes full ↦ last-piece c b bs _ w' connected v.pixels full (omega arith) del
            | no part ↦
                rw (ne→== (u32 (c.buffer_index + length b)) size (λ f. part (omega arith))) (
                  rw (front-piece c b bs (omega arith) v.pixels) at (
                    frame_of_pieces (with_piece c b) bs
                      (os.recv c.socket_fd (size - c.buffer_index) w).1 w'
                      (with_piece-IsValid c b v connected (omega arith)) connected whole
                      (subst
                        (λ r.
                          Delivers c.socket_fd r (os.recv c.socket_fd (size - c.buffer_index) w).1
                            bs w')
                        (omega arith) del)
                      (omega arith)))
          ])
