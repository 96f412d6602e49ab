-- ===== src/Neigh/Waiting.antt =====
-- demos/neigh/neigh_arp.c: how a run of main waits and ends.
use os_kernel_from_scratch.Common.{
  ℕ, ◌≤◌, ◌≡◌, refl, sym, ap, ◌∙◌, none, some, List, [], ◌∷◌, ◌++◌, true, false, arith, length,
  replicate,
}
use mathlib.Core.List.{append-nil}
use os_kernel_from_scratch.Common.Nodes.{same_refl}
use os_kernel_from_scratch.Neigh.{
  ArpHeader, EthFrame, packet_of, send_arp_request, reply_mac, Event, interrupted, select_failed,
  timeout, recv_failed, received, waiting, found, wait_reply, recv_arp_response, Setup, Run, finish,
  resolve, main,
}
use os_kernel_from_scratch.Neigh.Replies.{Fits, reply_mac-packet_of}

-- Rounds that the loop passes over: interrupted ones, those without a packet, and packets that are
-- not the reply.
abbrev pub Quiet : List ℕ → List Event → Type 0
Quiet ip [] = Unit {0}
Quiet ip (interrupted ∷ events) = Quiet ip events
Quiet ip (select_failed ∷ events) = ⊥
Quiet ip (timeout ∷ events) = Quiet ip events
Quiet ip (recv_failed ∷ events) = Quiet ip events
Quiet ip (received bytes ∷ events) = (reply_mac ip bytes ≡ none) × Quiet ip events

wait_reply-Quiet :
    (ip : List ℕ) (before events : List Event)
    → Quiet ip before
    → wait_reply ip (before ++ events) ≡ wait_reply ip events
unfolding wait_reply
wait_reply-Quiet ip [] events q = refl
wait_reply-Quiet ip (interrupted ∷ before) events q = wait_reply-Quiet ip before events q
wait_reply-Quiet ip (select_failed ∷ before) events q = absurd q
wait_reply-Quiet ip (timeout ∷ before) events q = wait_reply-Quiet ip before events q
wait_reply-Quiet ip (recv_failed ∷ before) events q = wait_reply-Quiet ip before events q
wait_reply-Quiet ip (received bytes ∷ before) events q =
    rw (wait_reply, q.0) (wait_reply-Quiet ip before events q.1)

wait_reply-waiting :
    (ip : List ℕ) (before : List Event) → Quiet ip before → wait_reply ip before ≡ waiting
unfolding wait_reply
wait_reply-waiting ip [] q = refl
wait_reply-waiting ip (interrupted ∷ before) q = wait_reply-waiting ip before q
wait_reply-waiting ip (select_failed ∷ before) q = absurd q
wait_reply-waiting ip (timeout ∷ before) q = wait_reply-waiting ip before q
wait_reply-waiting ip (recv_failed ∷ before) q = wait_reply-waiting ip before q
wait_reply-waiting ip (received bytes ∷ before) q =
    rw (wait_reply, q.0) (wait_reply-waiting ip before q.1)

-- The frame and the header of the request.
abbrev pub request_frame : List ℕ → EthFrame
request_frame mac = record { dest_mac = replicate 6 0xff; src_mac = mac; ether_type = 0x0806 }

abbrev pub request_header : List ℕ → List ℕ → List ℕ → ArpHeader
request_header mac ip target_ip = record {
  hw_type = 1;
  proto_type = 0x0800;
  hw_size = 6;
  proto_size = 4;
  opcode = 1;
  sender_mac = mac;
  sender_ip = ip;
  target_mac = replicate 6 0;
  target_ip = target_ip;
}

-- Arguments that can be read, and calls of the system that succeed.
pub record IsReady (s : Setup) (target_ip sender_ip sender_mac : List ℕ) : Type 0 where
  pub argc : s.argc ≡ 5
  pub target : s.target_ip ≡ some target_ip
  pub ip : s.sender_ip ≡ some sender_ip
  pub mac : s.sender_mac ≡ some sender_mac
  pub socket : s.socket ≡ true
  pub ioctl : s.ioctl ≡ true
  pub bind : s.bind ≡ true
  pub sendto : s.sendto ≡ true

main-IsReady :
    (s : Setup) (events : List Event) (target_ip sender_ip sender_mac : List ℕ)
    → IsReady s target_ip sender_ip sender_mac
    → main s events
      ≡ finish
          (packet_of (request_frame sender_mac) (request_header sender_mac sender_ip target_ip))
          (wait_reply target_ip events)
unfolding main resolve send_arp_request recv_arp_response
main-IsReady s events target_ip sender_ip sender_mac r =
    rw (main, r.argc, r.target) (rw r.ip (rw r.mac (rw (r.socket, r.ioctl, r.bind, r.sendto) refl)))

-- A run of `main` with readable arguments, where the calls that set up the socket succeed and the
-- addresses have their lengths. As long as the rounds are quiet, signals of the alarm included, the
-- run has sent its request and waits, with the socket open: no number of signals or timeouts ends
-- it. The request itself, when it comes back, is passed over. The first packet that is an ARP response
-- of the address asked for, with anything behind it that fits the buffer, ends the run with 0
-- and the socket closed, whatever comes after it.
pub main_lem :
    (s : Setup) (target_ip sender_ip sender_mac : List ℕ) (before after : List Event)
    (eth : EthFrame) (arp : ArpHeader) (rest : List ℕ)
    → IsReady s target_ip sender_ip sender_mac
    → Fits (request_frame sender_mac) (request_header sender_mac sender_ip target_ip)
    → Quiet target_ip before
    → Fits eth arp
    → eth.ether_type ≡ 0x0806
    → arp.opcode ≡ 2
    → arp.sender_ip ≡ target_ip
    → length rest ≤ 982
    → let request =
        packet_of (request_frame sender_mac) (request_header sender_mac sender_ip target_ip) in
      let waits : Run = record {
        result = none;
        opened = true;
        closed = false;
        sent = some request;
      } in
      (main s before ≡ waits)
      × (main s (before ++ received request ∷ []) ≡ waits)
      × (wait_reply target_ip (before ++ received (packet_of eth arp ++ rest) ∷ after)
          ≡ found arp.sender_mac)
      × (main s (before ++ received (packet_of eth arp ++ rest) ∷ after)
          ≡ record { result = some 0; opened = true; closed = true; sent = some request })
unfolding finish wait_reply
main_lem s target_ip sender_ip sender_mac before after eth arp rest r own quiet fits kind response
      asked room =
    (
      main-IsReady s before target_ip sender_ip sender_mac r
          ∙ ap (finish request) (wait_reply-waiting target_ip before quiet),
      main-IsReady s (before ++ received request ∷ []) target_ip sender_ip sender_mac r
          ∙ ap (finish request)
              (wait_reply-Quiet target_ip before (received request ∷ []) quiet ∙ back),
      hit,
      main-IsReady s _ target_ip sender_ip sender_mac r ∙ ap (finish request) hit,
    )
  where
    request : List ℕ
    request = packet_of (request_frame sender_mac) (request_header sender_mac sender_ip target_ip)

    passed : reply_mac target_ip request ≡ none
    passed =
        ap (reply_mac target_ip) (sym (append-nil request))
        ∙ reply_mac-packet_of (request_frame sender_mac)
            (request_header sender_mac sender_ip target_ip) own [] target_ip (omega arith)

    back : wait_reply target_ip (received request ∷ []) ≡ waiting
    back = rw (wait_reply, passed)

    answer : reply_mac target_ip (packet_of eth arp ++ rest) ≡ some arp.sender_mac
    answer =
        reply_mac-packet_of eth arp fits rest target_ip room
        ∙ rw (kind, response, asked, same_refl target_ip) refl

    hit :
        wait_reply target_ip (before ++ received (packet_of eth arp ++ rest) ∷ after)
        ≡ found arp.sender_mac
    hit = wait_reply-Quiet target_ip before _ quiet ∙ rw (wait_reply, answer)
