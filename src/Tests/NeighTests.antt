-- ===== src/Tests/NeighTests.antt =====
-- demos/neigh/neigh_arp.c: a run with a signal and a timeout before the reply.
use os_kernel_from_scratch.Common.{
  ◌≡◌, refl, none, some, List, [], ◌∷◌, ◌++◌, ℕ, true, false, arith, replicate,
}
use os_kernel_from_scratch.Neigh.{
  ArpHeader, EthFrame, packet_of, Event, interrupted, timeout, received, found, wait_reply, Setup,
  main,
}
use os_kernel_from_scratch.Neigh.Replies.{Fits}
use os_kernel_from_scratch.Neigh.Waiting.{IsReady, request_frame, request_header, main_lem}

abbrev own_mac : List ℕ
own_mac = 0 ∷ 17 ∷ 34 ∷ 51 ∷ 68 ∷ 85 ∷ []

abbrev own_ip : List ℕ
own_ip = 192 ∷ 168 ∷ 1 ∷ 100 ∷ []

abbrev router_mac : List ℕ
router_mac = 2 ∷ 0 ∷ 0 ∷ 0 ∷ 0 ∷ 1 ∷ []

abbrev router_ip : List ℕ
router_ip = 192 ∷ 168 ∷ 1 ∷ 1 ∷ []

abbrev setup : Setup
setup = record {
  argc = 5;
  target_ip = some router_ip;
  sender_ip = some own_ip;
  sender_mac = some own_mac;
  socket = true;
  ioctl = true;
  bind = true;
  sendto = true;
}

abbrev reply_frame : EthFrame
reply_frame = record { dest_mac = own_mac; src_mac = router_mac; ether_type = 0x0806 }

abbrev reply_header : ArpHeader
reply_header = record {
  hw_type = 1;
  proto_type = 0x0800;
  hw_size = 6;
  proto_size = 4;
  opcode = 2;
  sender_mac = router_mac;
  sender_ip = router_ip;
  target_mac = own_mac;
  target_ip = own_ip;
}

abbrev before : List Event
before = interrupted ∷ timeout ∷ []

setup-IsReady : IsReady setup router_ip own_ip own_mac
setup-IsReady = record {
  argc = refl;
  target = refl;
  ip = refl;
  mac = refl;
  socket = refl;
  ioctl = refl;
  bind = refl;
  sendto = refl;
}

request-Fits : Fits (request_frame own_mac) (request_header own_mac own_ip router_ip)
request-Fits = record {
  dest_mac = refl;
  src_mac = refl;
  sender_mac = refl;
  sender_ip = refl;
  target_mac = refl;
  target_ip = refl;
}

reply-Fits : Fits reply_frame reply_header
reply-Fits = record {
  dest_mac = refl;
  src_mac = refl;
  sender_mac = refl;
  sender_ip = refl;
  target_mac = refl;
  target_ip = refl;
}

main_lem_example :
    let request = packet_of (request_frame own_mac) (request_header own_mac own_ip router_ip) in
    let reply = received (packet_of reply_frame reply_header ++ replicate 18 0) in
    (main setup before
      ≡ record { result = none; opened = true; closed = false; sent = some request })
    × (main setup (before ++ received request ∷ [])
        ≡ record { result = none; opened = true; closed = false; sent = some request })
    × (wait_reply router_ip (before ++ reply ∷ []) ≡ found router_mac)
    × (main setup (before ++ reply ∷ [])
        ≡ record { result = some 0; opened = true; closed = true; sent = some request })
main_lem_example =
    main_lem setup router_ip own_ip own_mac before [] reply_frame reply_header (replicate 18 0)
      setup-IsReady request-Fits tt reply-Fits refl refl refl (omega arith)
