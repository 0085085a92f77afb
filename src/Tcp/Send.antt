-- ===== src/Tcp/Send.antt =====
-- The sending side of tcp.c and tcp.h: the ring of framed packets and `ovpn_tcp_tx_work`. What a
-- round of the loop meets is the data type `Sent`; `kernel_sendmsg` takes at most what it is given.
use mathlib.Core.List.{append_assoc}
use ovpn_dco.Base.{
  ℕ, zero, suc, List, [], ◌∷◌, ◌++◌, Bool, true, false, ◌==◌, leb, if◌then◌else◌, length, take,
  drop, Errno, ok, err, Status, enomem, ◌≡◌, refl, sym, ap, ◌∙◌, inl, inr, Bool-cases, arith,
}
use ovpn_dco.Tcp.{frame}
use ovpn_dco.Tcp.Chunks.{stream}

abbrev pub queue_len : ℕ
queue_len = 1024

-- `skb_linearize` fails, or `kernel_sendmsg` returns a count or an error
pub data Sent : Type 0 where
  not_linear : Sent
  sent : ℕ → Sent
  failed : Errno → Sent

-- `ovpn_tcp_send_one`: its value, the bytes that went out and the skb after them
unfoldable pub send_one : List ℕ → Sent → Status × List ℕ × List ℕ
send_one skb Sent.not_linear = (err enomem, [], skb)
send_one skb (Sent.failed e) = (err e, [], skb)
send_one skb (Sent.sent n) = (ok tt, take n skb, drop n skb)

-- the errors that end the loop
abbrev pub fatal : Status → Bool
fatal (ok _) = false
fatal (err Errno.eagain) = false
fatal (err _) = true

-- `ovpn_tcp_tx_work` over the given rounds: the bytes that went out, the ring and whether the peer
-- is deleted for a transport error.
unfoldable pub tx_work : List (List ℕ) → List Sent → List ℕ × List (List ℕ) × Bool
unfolding send_one
tx_work ring [] = ([], ring, false)
tx_work [] (r ∷ rs) = ([], [], false)
tx_work (skb ∷ ring) (r ∷ rs) =
    let (ret, out, skb') = send_one skb r in
    let (next_out, next_ring, next_failed) = tx_work ring rs in
    let (same_out, same_ring, same_failed) = tx_work (skb' ∷ ring) rs in
    if fatal ret
    then (out, skb' ∷ ring, true)
    else (if length skb' == 0
        then (out ++ next_out, next_ring, next_failed)
        else (out ++ same_out, same_ring, same_failed))

-- `ovpn_queue_tcp_skb`: a full ring drops the packet
unfoldable pub queue_tcp_skb : List (List ℕ) → List ℕ → List (List ℕ)
queue_tcp_skb ring skb = if leb queue_len (length ring) then ring else ring ++ (skb ∷ [])

-- `ovpn_tcp_send_skb`
unfoldable pub tcp_send_skb : List (List ℕ) → List ℕ → List (List ℕ)
unfolding queue_tcp_skb frame
tcp_send_skb ring skb = queue_tcp_skb ring (frame skb)

take-drop : (n : ℕ) (xs : List ℕ) → take n xs ++ drop n xs ≡ xs
take-drop zero xs = refl
take-drop (suc n) [] = refl
take-drop (suc n) (x ∷ xs) = rw (take-drop n xs) refl

send_one_whole : (skb : List ℕ) (r : Sent) → (send_one skb r).1 ++ (send_one skb r).2 ≡ skb
unfolding send_one
send_one_whole skb Sent.not_linear = refl
send_one_whole skb (Sent.failed e) = refl
send_one_whole skb (Sent.sent n) = take-drop n skb

append_empty : (xs ys : List ℕ) → (length ys == 0) ≡ true → xs ++ ys ≡ xs
append_empty [] [] e = refl
append_empty [] (y ∷ ys) e = absurd (ground arith)
append_empty (x ∷ xs) ys e = rw (append_empty xs ys e) refl

send_one_all :
    (skb : List ℕ) (r : Sent) → (length (send_one skb r).2 == 0) ≡ true → (send_one skb r).1 ≡ skb
send_one_all skb r e =
    sym (append_empty (send_one skb r).1 (send_one skb r).2 e) ∙ send_one_whole skb r

-- Whatever the rounds meet, what went out followed by what is left in the ring is the ring at the
-- start: no byte is lost, repeated or moved, also after partial sends and errors.
pub tx_work-stream :
    (ring : List (List ℕ)) (rounds : List Sent)
    → (tx_work ring rounds).0 ++ stream (tx_work ring rounds).1 ≡ stream ring
unfolding tx_work stream
tx_work-stream ring [] = refl
tx_work-stream [] (r ∷ rs) = refl
tx_work-stream (skb ∷ ring) (r ∷ rs) =
    let skb' = (send_one skb r).2 in
    let out = (send_one skb r).1 in
    let next = tx_work-stream ring rs in
    let same = tx_work-stream (skb' ∷ ring) rs in
    let kept =
      sym (append_assoc out skb' (stream ring))
      ∙ ap (λ x. x ++ stream ring) (send_one_whole skb r) in
    elim (Bool-cases (fatal (send_one skb r).0)) [
      | inl f ↦ rw (tx_work, f) kept
      | inr f ↦ elim (Bool-cases (length skb' == 0)) [
        | inl z ↦
            rw (tx_work, f, z)
              (append_assoc out (tx_work ring rs).0 (stream (tx_work ring rs).1)
                ∙ ap (λ x. out ++ x) next
                ∙ ap (λ x. x ++ stream ring) (send_one_all skb r z))
        | inr z ↦
            rw (tx_work, f, z)
              (append_assoc out (tx_work (skb' ∷ ring) rs).0 (stream (tx_work (skb' ∷ ring) rs).1)
                ∙ ap (λ x. out ++ x) same
                ∙ kept)
      ]
    ]
