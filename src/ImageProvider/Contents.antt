-- ===== src/ImageProvider/Contents.antt =====
-- What holds of all bytes of a frame holds where the provider stores it and hands it on.
use pi_vision.Base.{ℕ, All, Keeps, Keeps-bind_if, Keeps-blit, blit}
use pi_vision.Client as Client
use pi_vision.Client.{Client}
use pi_vision.Client.Contents.{receive-Keeps}
use pi_vision.ImageProvider.{ImageProvider, run}

module _ (P : ℕ → Type 0) where
  pub run-Keeps :
      (size : ℕ) (p : ImageProvider) (c : Client)
      → All P p.rec_buffer
      → All P c.buffer
      → Keeps (λ (p', c'). All P p'.rec_buffer × All P c'.buffer) (run size p c)
  unfolding run
  run-Keeps size p c hp hc =
      Keeps-bind_if (λ (bytes, c'). All P bytes × All P c'.buffer)
        (λ (p', c'). All P p'.rec_buffer × All P c'.buffer) (Client.receive size c) _
        (receive-Keeps P size c hc)
        λ (bytes, c') (hb, hc').
          Keeps-bind_if (All P) (λ (p', c'). All P p'.rec_buffer × All P c'.buffer)
            (blit 0 bytes p.rec_buffer) _ (Keeps-blit P 0 bytes p.rec_buffer hb hp)
            λ buf h. (h, hc')
