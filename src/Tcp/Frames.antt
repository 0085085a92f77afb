-- ===== src/Tcp/Frames.antt =====
-- Packets that are framed by the sender come out of the reader as they were.
use mathlib.Core.Path.{subst}
use mathlib.Core.List.{append_assoc}
use ovpn_dco.Base.{
  ℕ, ◌+◌, ◌%◌, ◌/◌, ◌*◌, ◌^◌, ◌≤◌, ◌<◌, List, [], ◌∷◌, ◌++◌, true, false, none, some, ◌==◌, length,
  Result, ok, err, eagain, ◌≡◌, refl, sym, ap, arith,
}
use ovpn_dco.Tcp.{TcpRx, rx_init, rx_one, rx_work, follow, frame}
use ovpn_dco.Tcp.Chunks.{
  got_bytes, Fits, arrivals, one_by_one, stream, rx_work-step, chunks_irrelevant,
}

-- between two packets
abbrev pub idle : ℕ × ℕ → TcpRx
idle raw = record { raw_len = raw; skb = none; offset = 0; data_len = 0 }

-- the rest of a packet
payload_read :
    (raw : ℕ × ℕ) (buf : List ℕ) (o d b : ℕ) (cs more : List ℕ)
    → d < 2 ^ 16
    → o + 1 + length cs ≡ d
    → let t : TcpRx = record { raw_len = raw; skb = some buf; offset = o; data_len = d } in
      rx_work t (one_by_one (b ∷ (cs ++ more)))
      ≡ follow (ok 1) (some (buf ++ (b ∷ cs))) (idle raw) (rx_work (idle raw) (one_by_one more))
unfolding one_by_one rx_one
payload_read raw buf o d b [] more small ends =
    let t : TcpRx = record { raw_len = raw; skb = some buf; offset = o; data_len = d } in
    let last : ((o + 1) % 2 ^ 16 == d) ≡ true = ground arith in
    rx_work-step t (idle raw) (got_bytes (b ∷ [])) (one_by_one more) (ok 1) (some (buf ++ (b ∷ [])))
      (rw last refl)
payload_read raw buf o d b (c ∷ cs) more small ends =
    let t : TcpRx = record { raw_len = raw; skb = some buf; offset = o; data_len = d } in
    let t1 : TcpRx = record {
      raw_len = raw;
      skb = some (buf ++ (b ∷ []));
      offset = o + 1;
      data_len = d;
    } in
    let later : ((o + 1) % 2 ^ 16 == d) ≡ false = ground arith in
    let one : (o + 1) % 2 ^ 16 ≡ o + 1 = omega arith in
    let step =
      rx_work-step t t1 (got_bytes (b ∷ [])) (one_by_one (c ∷ (cs ++ more))) (ok 1) none
        (rw (later, one) refl) in
    let rest = payload_read raw (buf ++ (b ∷ [])) (o + 1) d c cs more small (omega arith) in
    let join : (buf ++ (b ∷ [])) ++ (c ∷ cs) ≡ buf ++ (b ∷ c ∷ cs) =
      append_assoc buf (b ∷ []) (c ∷ cs) in
    rw (step, rest, join) refl

-- the stream of framed packets
unfoldable pub frames : List (List ℕ) → List ℕ
unfolding frame
frames [] = []
frames (p ∷ ps) = frame p ++ frames ps

-- what the length field can hold, and not empty
abbrev pub Sizes : List (List ℕ) → Type 0
Sizes [] = Unit {0}
Sizes (p ∷ ps) = (1 ≤ length p) × (length p < 2 ^ 16) × Sizes ps

one_frame :
    (raw : ℕ × ℕ) (b : ℕ) (cs more : List ℕ)
    → length (b ∷ cs) < 2 ^ 16
    → let n = length (b ∷ cs) in
      rx_work (idle raw) (one_by_one (frame (b ∷ cs) ++ more))
      ≡ follow
          (ok 1)
          (some (b ∷ cs))
          (idle (n / 256, n % 256))
          (rx_work (idle (n / 256, n % 256)) (one_by_one more))
unfolding one_by_one frame rx_one
one_frame raw b cs more small =
    let n = length (b ∷ cs) in
    let whole : n % 2 ^ 16 ≡ n = omega arith in
    let hi = n / 256 in
    let lo = n % 256 in
    let back : (hi * 256 + lo) % 2 ^ 16 ≡ n = omega arith in
    let some_bytes : (n == 0) ≡ false = ground arith in
    let t1 : TcpRx = record { raw_len = (hi, raw.1); skb = none; offset = 1; data_len = 0 } in
    let t2 : TcpRx = record { raw_len = (hi, lo); skb = some []; offset = 0; data_len = n } in
    let first =
      rx_work-step (idle raw) t1 (got_bytes (hi ∷ [])) (one_by_one (lo ∷ b ∷ (cs ++ more))) (ok 1)
        none refl in
    let second =
      rx_work-step t1 t2 (got_bytes (lo ∷ [])) (one_by_one (b ∷ (cs ++ more))) (ok 1) none
        (rw (back, some_bytes) refl) in
    let third = payload_read (hi, lo) [] 0 n b cs more small (omega arith) in
    rw (whole, first, second, third) refl

-- the result of a run that hands on the packets and is ready for the next one
abbrev pub Reads : List (List ℕ) → Result ℕ × List (List ℕ) × TcpRx → Type 0
Reads ps r = (r.0 ≡ err eagain) × (r.1 ≡ ps) × (r.2.skb ≡ none) × (r.2.offset ≡ 0)

nothing_left : (raw : ℕ × ℕ) → Reads [] (rx_work (idle raw) (one_by_one []))
unfolding rx_work one_by_one
nothing_left raw = (refl, refl, refl, refl)

one_by_one-frames :
    (raw : ℕ × ℕ) (ps : List (List ℕ))
    → Sizes ps
    → Reads ps (rx_work (idle raw) (one_by_one (frames ps)))
unfolding frames
one_by_one-frames raw [] sizes = nothing_left raw
one_by_one-frames raw ([] ∷ ps) sizes = absurd (omega (arith, sizes.0))
one_by_one-frames raw ((b ∷ cs) ∷ ps) sizes =
    let n = length (b ∷ cs) in
    let (ret, packets, left, start) = one_by_one-frames (n / 256, n % 256) ps sizes.2 in
    subst (Reads ((b ∷ cs) ∷ ps)) (sym (one_frame raw b cs (frames ps) sizes.1))
      (ret, ap (λ l. (b ∷ cs) ∷ l) packets, left, start)

-- The reader is given the stream that the sender makes of packets of 1 to 65535 bytes, cut into
-- chunks in any way that gives each call at least one byte and at most what it asks for, and every
-- skb can be allocated. Then it
-- hands on exactly those packets in order, is ready for the next one and ends for want of data.
pub rx_work-frames :
    (ps chunks : List (List ℕ))
    → Sizes ps
    → stream chunks ≡ frames ps
    → Fits rx_init chunks
    → Reads ps (rx_work rx_init (arrivals chunks))
unfolding rx_init
rx_work-frames ps chunks sizes same fits =
    rw (chunks_irrelevant (idle (0, 0)) chunks (omega arith) fits, same)
      (one_by_one-frames (0, 0) ps sizes)
