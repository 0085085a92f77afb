-- ===== src/Tests/Tcp.antt =====
-- Witnesses for the properties of the TCP transport: one packet of three bytes, read in four
-- chunks, and two packets sent in five rounds.
use ovpn_dco.Base.{ℕ, List, [], ◌∷◌, ◌++◌, ◌≡◌, refl, arith, Errno}
use ovpn_dco.Tcp.{rx_init, rx_one, rx_work, want, frame}
use ovpn_dco.Tcp.Chunks.{Fits, arrivals, one_by_one, stream, chunks_irrelevant}
use ovpn_dco.Tcp.Frames.{Reads, frames, rx_work-frames}
use ovpn_dco.Tcp.Send.{Sent, tx_work, tx_work-stream}

abbrev chunks : List (List ℕ)
chunks = (0 ∷ []) ∷ (3 ∷ []) ∷ (5 ∷ 6 ∷ []) ∷ (7 ∷ []) ∷ []

abbrev packets : List (List ℕ)
packets = (5 ∷ 6 ∷ 7 ∷ []) ∷ []

chunks-Fits : Fits rx_init chunks
unfolding rx_init rx_one want
chunks-Fits = (
  omega arith,
  omega arith,
  (omega arith, omega arith, (omega arith, omega arith, (omega arith, omega arith, tt))),
)

chunks_irrelevant_example :
    rx_work rx_init (arrivals chunks) ≡ rx_work rx_init (one_by_one (stream chunks))
unfolding rx_init
chunks_irrelevant_example = chunks_irrelevant rx_init chunks (omega arith) chunks-Fits

rx_work-frames_example : Reads packets (rx_work rx_init (arrivals chunks))
unfolding stream frames frame
rx_work-frames_example =
    rx_work-frames packets chunks (omega arith, omega arith, tt) refl chunks-Fits

abbrev ring : List (List ℕ)
ring = (0 ∷ 1 ∷ 9 ∷ []) ∷ (0 ∷ 1 ∷ 8 ∷ []) ∷ []

abbrev rounds : List Sent
rounds = Sent.sent 2 ∷ Sent.failed Errno.eagain ∷ Sent.sent 1 ∷ Sent.sent 1 ∷ Sent.not_linear ∷ []

tx_work-stream_example : (tx_work ring rounds).0 ++ stream (tx_work ring rounds).1 ≡ stream ring
tx_work-stream_example = tx_work-stream ring rounds
