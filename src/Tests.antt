-- ===== src/Tests.antt =====
-- Concrete data for the tests: a cipher that copies its input, buffers that suffice, a key slot,
-- packets, peers and an interface.
mod Link
mod Keys
mod Peers
mod Data
mod Netlink
mod Worker
mod Sock
mod Tcp
mod Readers
mod Table
mod Device
use ovpn_dco.Base.{ℕ, List, [], ◌∷◌, true, none, ◌==◌, if◌then◌else◌, ok, err, einval}
use ovpn_dco.Pktid.{recv_init, xmit_init}
use ovpn_dco.KeySlot.{KeySlot}
use ovpn_dco.Aead.{CryptoApi, Buffers}
use ovpn_dco.Addr.{Bind, SockAddr, Packet, af_inet, eth_p_ip}
use ovpn_dco.Peer.{Peer, Ovpn, peer_create, mode_mp}
use ovpn_dco.Peer.Lookup.{Key}

abbrev sevens : List ℕ
sevens = 7 ∷ 7 ∷ 7 ∷ 7 ∷ 7 ∷ 7 ∷ 7 ∷ 7 ∷ 7 ∷ 7 ∷ 7 ∷ 7 ∷ 7 ∷ 7 ∷ 7 ∷ 7 ∷ []

-- a cipher that leaves the text as it is, with a tag of 16 sevens
abbrev toy : CryptoApi
toy = record {
  alloc_slot = true;
  alloc_aead = λ _. ok 1;
  setkey = λ aead _. ok aead;
  setauthsize = λ aead _. ok aead;
  ivsize = λ _. 12;
  authsize = λ _. 16;
  seal = λ _ _ _ text. ok (text, sevens);
  unseal = λ _ _ _ text tag. elim tag [
    | [] ↦ err einval
    | t ∷ ts ↦ if t == 7 then ok text else err einval
  ];
}

abbrev room : Buffers
room = record {
  cow_head = true;
  cow_data = ok 1;
  to_sgvec = 1;
  request_alloc = true;
  may_pull = true;
  sg_size = 19;
}

abbrev tail : List ℕ
tail = 1 ∷ 2 ∷ 3 ∷ 4 ∷ 5 ∷ 6 ∷ 7 ∷ 8 ∷ []

abbrev slot : KeySlot
slot = record {
  key_id = 2;
  encrypt = 1;
  decrypt = 1;
  nonce_tail_xmit = tail;
  nonce_tail_recv = tail;
  pid_recv = recv_init;
  pid_xmit = xmit_init;
  refcount = 1;
}

abbrev payload : List ℕ
payload = 69 ∷ 0 ∷ 0 ∷ 20 ∷ []

-- what `slot` makes of `payload` for the peer 5
abbrev wire : List ℕ
wire =
    74 ∷ 0 ∷ 0 ∷ 5 ∷ 0 ∷ 0 ∷ 0 ∷ 1 ∷ 7 ∷ 7 ∷ 7 ∷ 7 ∷ 7 ∷ 7 ∷ 7 ∷ 7 ∷ 7 ∷ 7 ∷ 7 ∷ 7 ∷ 7 ∷ 7 ∷ 7 ∷ 7
    ∷ 69 ∷ 0 ∷ 0 ∷ 20 ∷ []

-- the same with a wrong tag
abbrev forged : List ℕ
forged =
    74 ∷ 0 ∷ 0 ∷ 5 ∷ 0 ∷ 0 ∷ 0 ∷ 1 ∷ 8 ∷ 7 ∷ 7 ∷ 7 ∷ 7 ∷ 7 ∷ 7 ∷ 7 ∷ 7 ∷ 7 ∷ 7 ∷ 7 ∷ 7 ∷ 7 ∷ 7 ∷ 7
    ∷ 69 ∷ 0 ∷ 0 ∷ 20 ∷ []
