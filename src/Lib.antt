-- ===== src/Lib.antt =====
-- ovpn-dco: the OpenVPN data channel offload driver, drivers/net/ovpn-dco, as definitions over
-- explicit state, with the theorems on them.
--
-- A network interface (`struct ovpn_struct`) has peers. In MP mode they stand in three hash tables,
-- by peer id, by transport address and by VPN address; in P2P mode there is one. Each peer has a
-- binding to its remote endpoint, keepalive timers and two key slots; each key slot has a cipher
-- for either direction, a counter for the packets sent and a window of the packet ids received. A
-- packet that is sent takes the primary key slot, one that is received takes the slot with the key
-- id of its header; ciphertext and header are made and taken apart in crypto_aead.c.
--
-- The modules, with the files under drivers/net/ovpn-dco that each one is about:
--   Base      Shared helpers: Boolean tests, lists, function maps and the kernel's error codes.
--   Proto     proto.h. The 32-bit op word: opcode, key id and peer id. `htonl` gives the four bytes
--             of a word in network order.
--   Pktid     pktid.h, pktid.c. `xmit_next` is ovpn_pktid_xmit_next, `recv` is ovpn_pktid_recv, whose
--             parts are functions of their own (`next_id`, `jump_within`, `jump_past`, `backtrack`).
--             Window has the bits of the ring, Steps the invariant over each part, Replay the
--             verdict on one call, Runs whole runs of calls, Xmit the transmit side.
--   KeySlot   The structures of crypto.h.
--   Crypto    crypto.h, crypto.c. A heap of key slots with reference counts; a fault (a dereference
--             of NULL or of freed memory, a count below 0) is the result `none`. Refs has the
--             invariant, Ops and Slots one operation each, Runs all runs, Keys the teardown, Release
--             the end of the slots and their memory. Readers has the same functions access by access,
--             with readers that take no lock.
--   Aead      crypto_aead.c: `aead_encrypt`, `aead_decrypt` and `key_slot_new`. Header has the
--             layout, Replay the round trip and the replay check in place.
--   Addr      addr.h, bind.h, bind.c: socket addresses and bindings.
--   Peer      peer.h, peer.c, ovpnstruct.h, stats.h. Timer has the keepalive timers, Endpoint the
--             float and the local address, Parts the memory, rings and NAPI of a peer, Lookup the
--             three look-ups, Table the additions and deletions with the invariant of the table by
--             id, in any order (Runs) and when the interface goes (Teardown), and the one peer of P2P
--             mode (Single).
--   Tcp       tcp.c, tcp.h: `rx_one` and `rx_work` read packets from the stream, `send_one` and
--             `tx_work` (in Send) send the ring. Chunks has the cuts of the stream, Frames the round
--             trip.
--   Udp       udp.c and ovpn.c: `encap_recv` and `ovpn_recv`, from the socket to the ring of a peer.
--             References has the count of references on every path, Output the way out.
--   Data      ovpn.c, skb.h: a packet between the transport and the network device. Receive has
--             `decrypt_one` and the work around it, Transmit `encrypt_one`, the queueing and
--             `net_xmit`. Keys and Refine have what a packet does to the key slots, RoundTrip the two
--             ends together, Filter and Decrypt which packets are delivered, References the counts.
--             Worker has a ring with its work item as a step relation, Poll the hand-over to the
--             network stack.
--   Sock      sock.c, sock.h, and the attachment of sockets in udp.c and tcp.c. Files has the
--             references to the files of the sockets, Tcp the callbacks of a TCP socket, Release the
--             end of a peer (peer.c).
--   Netlink   netlink.c: the attributes and checks of the commands. Commands has those on keys and
--             the keepalive, Peers those that show and delete peers, Packets the control packets
--             and the listener. Changes and Sessions have what commands leave alone, Dump and
--             DumpCalls the dump of the peers, Listener who gets and sends packets. NewPeer adds a
--             peer, with ovpn_peer_new of peer.c; Sockets and Creation follow its exits. Policy has
--             the attributes of include/uapi/linux/ovpn_dco.h and the policies.
--   Resource  What is acquired from the kernel and given back, as the list of what is held.
--   Device    main.c: the MTU of an interface and its removal. Creation has `newlink` with
--             ovpn_struct_init of ovpn.c and what they allocate, Setup the settings of the network
--             device, Module the loading and unloading of the module.
--   Tests     Concrete data, and each theorem applied to it.
--
-- What is a parameter: the crypto API (`CryptoApi`) and the socket buffer calls (`Buffers`,
-- `Arrival`, `Handling`, `Queueing`, `Creating`, `Routing`), the hash of the tables (`jhash`), what
-- each call on a TCP socket returns, the routing tables, HZ, jiffies (`now`) and msecs_to_jiffies. A
-- packet is the list of its bytes, each below 256. Machine integers are natural numbers, and where
-- the code can wrap around the remainder is written out. Functions that run under a lock, or that
-- read under RCU, are one step each, so that a run is a sequence of such steps; two steps of different
-- threads do not overlap, but in Crypto.Readers and Data.Worker, where a step is one access. Loops are
-- structural recursion on the list or on the number of rounds that are left: the bits between two
-- packet ids (fewer than 2048) and the 4096 buckets of a table. A worker on a TCP socket runs over
-- the list of what its calls return. No function needs fuel beyond that.
--
-- Not modelled: the fields of a packet that are reset on its way (tun_netdev_write), the strings of
-- ovpn_get_drvinfo, the number of queues, timer.h, which no file uses, the assertion of rcu.h, and
-- the glue for kernel versions.
pub mod Base
pub mod Resource
pub mod Proto
pub mod Pktid
pub mod KeySlot
pub mod Aead
pub mod Crypto
pub mod Addr
pub mod Peer
pub mod Tcp
pub mod Udp
pub mod Data
pub mod Sock
pub mod Netlink
pub mod Device
pub mod Tests
