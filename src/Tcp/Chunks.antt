-- ===== src/Tcp/Chunks.antt =====
-- How the stream was cut into chunks does not matter to the reader.
use ovpn_dco.Base.{
  ℕ, suc, ◌+◌, ◌-◌, ◌%◌, ◌^◌, ◌≤◌, ◌<◌, List, [], ◌∷◌, ◌++◌, Bool, true, false, Option, none, some,
  ◌==◌, length, Result, ok, err, einval, ◌≡◌, refl, sym, ap, ◌∙◌, arith, inl, inr, Bool-cases,
  Option-cases,
}
use mathlib.Core.List.{append_assoc}
use ovpn_dco.Tcp.{TcpRx, Received, rx_one, rx_work, want, follow, ntohs}

-- Each call gets at least one byte, and no more than it asks for.
abbrev pub Fits : TcpRx → List (List ℕ) → Type 0
Fits t [] = Unit {0}
Fits t (c ∷ cs) =
    (1 ≤ length c) × (length c ≤ want t) × Fits (rx_one true t (Received.bytes c)).2 cs

-- a call that gives some bytes, where an skb can be allocated
abbrev pub got_bytes : List ℕ → Bool × Received
got_bytes c = (true, Received.bytes c)

unfoldable pub arrivals : List (List ℕ) → List (Bool × Received)
arrivals [] = []
arrivals (c ∷ cs) = got_bytes c ∷ arrivals cs

-- the same bytes, one to a call
unfoldable pub one_by_one : List ℕ → List (Bool × Received)
one_by_one [] = []
one_by_one (b ∷ bs) = got_bytes (b ∷ []) ∷ one_by_one bs

pub rx_work-step :
    (t t' : TcpRx) (r : Bool × Received) (rs : List (Bool × Received)) (ret : Result ℕ)
    (packet : Option (List ℕ))
    → rx_one r.0 t r.1 ≡ (ret, packet, t')
    → rx_work t (r ∷ rs) ≡ follow ret packet t' (rx_work t' rs)
unfolding rx_work
rx_work-step t t' r rs ret packet e = rw (rx_work, e) refl

-- how many bytes a call gave does not matter, if there were any
pub rx_work-proceed :
    (t t' : TcpRx) (r : Bool × Received) (rs : List (Bool × Received)) (n : ℕ)
    (packet : Option (List ℕ))
    → rx_one r.0 t r.1 ≡ (ok (suc n), packet, t')
    → rx_work t (r ∷ rs) ≡ follow (ok 1) packet t' (rx_work t' rs)
unfolding rx_work
rx_work-proceed t t' r rs n packet e =
    let some_bytes : (suc n == 0) ≡ false = ground arith in rw (rx_work, e, some_bytes) refl

prefix_split :
    (x y d b c : ℕ) (rest : List (Bool × Received))
    → let t : TcpRx = record { raw_len = (x, y); skb = none; offset = 0; data_len = d } in
      rx_work t (got_bytes (b ∷ c ∷ []) ∷ rest)
      ≡ rx_work t (got_bytes (b ∷ []) ∷ got_bytes (c ∷ []) ∷ rest)
unfolding rx_one
prefix_split x y d b c rest =
    let t : TcpRx = record { raw_len = (x, y); skb = none; offset = 0; data_len = d } in
    let t1 : TcpRx = record { raw_len = (b, y); skb = none; offset = 1; data_len = d } in
    let first =
      rx_work-step t t1 (got_bytes (b ∷ [])) (got_bytes (c ∷ []) ∷ rest) (ok 1) none refl in
    let len = ntohs (b, c) in
    elim (Bool-cases (len == 0)) [
      | inl e ↦
          let t2 : TcpRx = record { raw_len = (b, c); skb = none; offset = 2; data_len = d } in
          rw
            (
              first,
              rx_work-step t1 t2 (got_bytes (c ∷ [])) rest (err einval) none (rw e refl),
              rx_work-step t t2 (got_bytes (b ∷ c ∷ [])) rest (err einval) none (rw e refl),
            )
            refl
      | inr e ↦
          let t2 : TcpRx = record { raw_len = (b, c); skb = some []; offset = 0; data_len = len } in
          rw
            (
              first,
              rx_work-step t1 t2 (got_bytes (c ∷ [])) rest (ok 1) none (rw e refl),
              rx_work-step t t2 (got_bytes (b ∷ c ∷ [])) rest (ok 2) none (rw e refl),
            )
            refl
    ]

data_split :
    (raw : ℕ × ℕ) (buf : List ℕ) (o d b c : ℕ) (cs : List ℕ) (rest : List (Bool × Received))
    → d < 2 ^ 16
    → o + 2 + length cs ≤ d
    → let t : TcpRx = record { raw_len = raw; skb = some buf; offset = o; data_len = d } in
      rx_work t (got_bytes (b ∷ c ∷ cs) ∷ rest)
      ≡ rx_work t (got_bytes (b ∷ []) ∷ got_bytes (c ∷ cs) ∷ rest)
unfolding rx_one
data_split raw buf o d b c cs rest small fits =
    let more : ((o + 1) % 2 ^ 16 == d) ≡ false = ground arith in
    let one : (o + 1) % 2 ^ 16 ≡ o + 1 = omega arith in
    let whole : (o + suc (suc (length cs))) % 2 ^ 16 ≡ o + 2 + length cs = omega arith in
    let others : (o + 1 + suc (length cs)) % 2 ^ 16 ≡ o + 2 + length cs = omega arith in
    let join : (buf ++ (b ∷ [])) ++ (c ∷ cs) ≡ buf ++ (b ∷ c ∷ cs) =
      append_assoc buf (b ∷ []) (c ∷ cs) in
    let t : TcpRx = record { raw_len = raw; skb = some buf; offset = o; data_len = d } in
    let t1 : TcpRx = record {
      raw_len = raw;
      skb = some (buf ++ (b ∷ []));
      offset = o + 1;
      data_len = d;
    } in
    let first =
      rx_work-step t t1 (got_bytes (b ∷ [])) (got_bytes (c ∷ cs) ∷ rest) (ok 1) none
        (rw (more, one) refl) in
    let got = buf ++ (b ∷ c ∷ cs) in
    let n = length cs in
    elim (Bool-cases (o + 2 + length cs == d)) [
      | inl e ↦
          let t2 : TcpRx = record { raw_len = raw; skb = none; offset = 0; data_len = 0 } in
          rw
            (
              first,
              rx_work-proceed t1 t2 (got_bytes (c ∷ cs)) rest n (some got)
                  (rw (others, e, join) refl),
              rx_work-proceed t t2 (got_bytes (b ∷ c ∷ cs)) rest (suc n) (some got)
                  (rw (whole, e) refl),
            )
            refl
      | inr e ↦
          let t2 : TcpRx = record {
            raw_len = raw;
            skb = some got;
            offset = o + 2 + n;
            data_len = d;
          } in
          rw
            (
              first,
              rx_work-proceed t1 t2 (got_bytes (c ∷ cs)) rest n none (rw (others, e, join) refl),
              rx_work-proceed t t2 (got_bytes (b ∷ c ∷ cs)) rest (suc n) none (rw (whole, e) refl),
            )
            refl
    ]

-- A chunk of several bytes is its first byte and then the others.
rx_one-split :
    (t : TcpRx) (b c : ℕ) (cs : List ℕ) (rest : List (Bool × Received))
    → t.data_len < 2 ^ 16
    → length (b ∷ c ∷ cs) ≤ want t
    → rx_work t (got_bytes (b ∷ c ∷ cs) ∷ rest)
      ≡ rx_work t (got_bytes (b ∷ []) ∷ got_bytes (c ∷ cs) ∷ rest)
unfolding want
rx_one-split t b c [] rest small fits = elim (Option-cases t.skb) [
  | inl e ↦
      let fits' : 2 ≤ 2 - t.offset = rw (e, want) at fits in
      let start : t.offset ≡ 0 = omega arith in
      rw (e, start) (prefix_split t.raw_len.0 t.raw_len.1 t.data_len b c rest)
  | inr (buf, e) ↦
      let fits' : 2 ≤ t.data_len - t.offset = rw (e, want) at fits in
      rw e (data_split t.raw_len buf t.offset t.data_len b c [] rest small (omega arith))
]
rx_one-split t b c (d ∷ cs) rest small fits = elim (Option-cases t.skb) [
  | inl e ↦
      let fits' : suc (suc (suc (length cs))) ≤ 2 - t.offset = rw (e, want) at fits in
      absurd (omega arith)
  | inr (buf, e) ↦
      let fits' : suc (suc (suc (length cs))) ≤ t.data_len - t.offset = rw (e, want) at fits in
      rw e (data_split t.raw_len buf t.offset t.data_len b c (d ∷ cs) rest small (omega arith))
]

-- the state stays one with a 16-bit length
rx_one-small :
    (t : TcpRx) (r : Received) → t.data_len < 2 ^ 16 → (rx_one true t r).2.data_len < 2 ^ 16
unfolding rx_one
rx_one-small t Received.closed small = small
rx_one-small t (Received.failed e) small = small
rx_one-small t (Received.bytes got) small = ground arith

want-after :
    (t : TcpRx) (b : ℕ)
    → t.data_len < 2 ^ 16
    → 2 ≤ want t
    → want (rx_one true t (Received.bytes (b ∷ []))).2 ≡ want t - 1
unfolding rx_one want
want-after t b small two = elim (Option-cases t.skb) [
  | inl e ↦
      let fits : 2 ≤ 2 - t.offset = rw (e, want) at two in
      let start : t.offset ≡ 0 = omega arith in rw (e, start) refl
  | inr (buf, e) ↦
      let fits : 2 ≤ t.data_len - t.offset = rw (e, want) at two in
      let more : ((t.offset + 1) % 2 ^ 16 == t.data_len) ≡ false = ground arith in
      rw (e, more) (omega arith)
]

-- what a call leaves to be read may be replaced by what has the same effect
rx_work-rest :
    (t : TcpRx) (r : Bool × Received) (rs rs' : List (Bool × Received))
    → rx_work (rx_one r.0 t r.1).2 rs ≡ rx_work (rx_one r.0 t r.1).2 rs'
    → rx_work t (r ∷ rs) ≡ rx_work t (r ∷ rs')
unfolding rx_work
rx_work-rest t r rs rs' same = rw (rx_work, same) refl

-- One chunk is as good as its bytes one by one.
one_chunk :
    (t : TcpRx) (b : ℕ) (cs : List ℕ) (rest : List (Bool × Received))
    → t.data_len < 2 ^ 16
    → length (b ∷ cs) ≤ want t
    → rx_work t (got_bytes (b ∷ cs) ∷ rest) ≡ rx_work t (one_by_one (b ∷ cs) ++ rest)
unfolding one_by_one
one_chunk t b [] rest small fits = refl
one_chunk t b (c ∷ cs) rest small fits =
    let t1 = (rx_one true t (Received.bytes (b ∷ []))).2 in
    let left = want-after t b small (omega arith) in
    rx_one-split t b c cs rest small fits
    ∙ rx_work-rest t (got_bytes (b ∷ [])) (got_bytes (c ∷ cs) ∷ rest) (one_by_one (c ∷ cs) ++ rest)
        (one_chunk t1 c cs rest (rx_one-small t (Received.bytes (b ∷ [])) small)
          (omega (arith, left)))

one_by_one-append : (xs ys : List ℕ) → one_by_one (xs ++ ys) ≡ one_by_one xs ++ one_by_one ys
unfolding one_by_one
one_by_one-append [] ys = refl
one_by_one-append (x ∷ xs) ys = rw (one_by_one-append xs ys) refl

-- the bytes of a run of chunks
unfoldable pub stream : List (List ℕ) → List ℕ
stream [] = []
stream (c ∷ cs) = c ++ stream cs

-- Where every skb can be allocated: however the bytes of the stream are cut into chunks, each of at
-- least one byte and at most what the call asks for, the reader returns the same, hands on the same
-- packets and ends in the same state as when every call gets a single byte.
pub chunks_irrelevant :
    (t : TcpRx) (chunks : List (List ℕ))
    → t.data_len < 2 ^ 16
    → Fits t chunks
    → rx_work t (arrivals chunks) ≡ rx_work t (one_by_one (stream chunks))
unfolding arrivals one_by_one stream
chunks_irrelevant t [] small fits = refl
chunks_irrelevant t ([] ∷ chunks) small fits = absurd (omega (arith, fits.0))
chunks_irrelevant t ((b ∷ cs) ∷ chunks) small fits =
    let t1 = (rx_one true t (Received.bytes (b ∷ cs))).2 in
    let later =
      chunks_irrelevant t1 chunks (rx_one-small t (Received.bytes (b ∷ cs)) small) fits.2 in
    rx_work-rest t (got_bytes (b ∷ cs)) (arrivals chunks) (one_by_one (stream chunks)) later
    ∙ one_chunk t b cs (one_by_one (stream chunks)) small fits.1
    ∙ ap (rx_work t) (sym (one_by_one-append (b ∷ cs) (stream chunks)))
