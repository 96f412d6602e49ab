-- ===== src/Neigh.antt =====
-- demos/neigh/neigh_arp.c: the request that send_arp_request builds, the loop of recv_arp_response and
-- main. Addresses are their bytes in network order. What select, recvfrom and the other calls of the
-- system return is given: the parsed arguments and whether a call succeeds as a Setup, and the rounds
-- of the loop as a list of events.
pub mod Replies
pub mod Waiting
use os_kernel_from_scratch.Common.{
  ℕ, ◌+◌, ◌*◌, ◌/◌, ◌%◌, ◌^◌, ◌-◌, Option, none, some, List, [], ◌∷◌, ◌++◌, Bool, true, false, ltb,
  ◌==◌, ◌&&◌, if◌then◌else◌, length, get_or, take, drop, replicate,
}
use os_kernel_from_scratch.Common.Nodes.{same}

pub record ArpHeader : Type 0 where
  pub hw_type : ℕ
  pub proto_type : ℕ
  pub hw_size : ℕ
  pub proto_size : ℕ
  pub opcode : ℕ
  pub sender_mac : List ℕ
  pub sender_ip : List ℕ
  pub target_mac : List ℕ
  pub target_ip : List ℕ

pub record EthFrame : Type 0 where
  pub dest_mac : List ℕ
  pub src_mac : List ℕ
  pub ether_type : ℕ

-- What `htons` leaves in memory.
unfoldable pub htons : ℕ → List ℕ
htons n = (n / 256) ∷ (n % 256) ∷ []

-- The packed structures in memory, one behind the other.
unfoldable pub packet_of : EthFrame → ArpHeader → List ℕ
unfolding htons
packet_of eth arp =
    eth.dest_mac
    ++ eth.src_mac
    ++ htons eth.ether_type
    ++ htons arp.hw_type
    ++ htons arp.proto_type
    ++ (arp.hw_size ∷ arp.proto_size ∷ [])
    ++ htons arp.opcode
    ++ arp.sender_mac
    ++ arp.sender_ip
    ++ arp.target_mac
    ++ arp.target_ip

abbrev pub arp_request : ℕ
arp_request = 1

abbrev pub arp_response : ℕ
arp_response = 2

-- The packet that is sent, or -1 if sendto fails.
unfoldable pub send_arp_request : Bool → List ℕ → List ℕ → List ℕ → Option (List ℕ)
unfolding packet_of
send_arp_request sendto sender_mac sender_ip target_ip =
    let eth : EthFrame = record {
      dest_mac = replicate 6 0xff;
      src_mac = sender_mac;
      ether_type = 0x0806;
    } in
    let arp : ArpHeader = record {
      hw_type = 1;
      proto_type = 0x0800;
      hw_size = 6;
      proto_size = 4;
      opcode = arp_request;
      sender_mac = sender_mac;
      sender_ip = sender_ip;
      target_mac = replicate 6 0;
      target_ip = target_ip;
    } in
    if sendto then some (packet_of eth arp) else none

-- `ntohs` of the two bytes at an offset, and `n` bytes from an offset on.
unfoldable pub ntohs : List ℕ → ℕ → ℕ
ntohs buf o = get_or buf o 0 * 256 + get_or buf (o + 1) 0

unfoldable pub field : List ℕ → ℕ → ℕ → List ℕ
field buf o n = take n (drop o buf)

-- The sender's hardware address in a packet that the loop accepts. recvfrom keeps 1024 bytes of it.
unfoldable pub reply_mac : List ℕ → List ℕ → Option (List ℕ)
unfolding ntohs field same
reply_mac expected_ip packet =
    let buf = take 1024 packet in
    if ltb (length buf) 42
    then none
    else if ntohs buf 12 == 0x0806
    then if ntohs buf 20 == arp_response
      then if same (field buf 28 4) expected_ip then some (field buf 22 6) else none
      else none
    else none

-- One round of the loop: select is interrupted, fails or times out, or recvfrom fails or brings a packet.
pub data Event : Type 0 where
  interrupted select_failed timeout recv_failed : Event
  received : List ℕ → Event

pub data Reply : Type 0 where
  waiting failed : Reply
  found : List ℕ → Reply

-- `waiting` where the rounds that are given do not end the loop.
unfoldable pub wait_reply : List ℕ → List Event → Reply
wait_reply ip [] = waiting
wait_reply ip (interrupted ∷ events) = wait_reply ip events
wait_reply ip (select_failed ∷ events) = failed
wait_reply ip (timeout ∷ events) = wait_reply ip events
wait_reply ip (recv_failed ∷ events) = wait_reply ip events
wait_reply ip (received packet ∷ events) =
    let rest = wait_reply ip events in
    elim (reply_mac ip packet) [ none ↦ rest | some mac ↦ found mac ]

unfoldable pub recv_arp_response : Bool → List ℕ → List Event → Reply
unfolding wait_reply
recv_arp_response got_response expected_ip events =
    if got_response then failed else wait_reply expected_ip events

-- What the arguments say and whether the calls of the system succeed.
pub record Setup : Type 0 where
  pub argc : ℕ
  pub target_ip : Option (List ℕ)
  pub sender_ip : Option (List ℕ)
  pub sender_mac : Option (List ℕ)
  pub socket : Bool
  pub ioctl : Bool
  pub bind : Bool
  pub sendto : Bool

-- What a run of the program has done: its result, `none` while it waits, whether it has opened and
-- closed the socket, and the packet that it has sent.
pub record Run : Type 0 where
  pub result : Option ℕ
  pub opened : Bool
  pub closed : Bool
  pub sent : Option (List ℕ)

abbrev pub usage : Run
usage = record { result = some 1; opened = false; closed = false; sent = none }

-- An error after the socket has been opened.
abbrev pub given_up : Run
given_up = record { result = some 1; opened = true; closed = true; sent = none }

-- `ret` is 0 or -1, which is 2 ^ 32 - 1 in 32 bits.
unfoldable pub finish : List ℕ → Reply → Run
finish packet waiting = record { result = none; opened = true; closed = false; sent = some packet }
finish packet failed = record {
  result = some (2 ^ 32 - 1);
  opened = true;
  closed = true;
  sent = some packet;
}
finish packet (found mac) = record {
  result = some 0;
  opened = true;
  closed = true;
  sent = some packet;
}

unfoldable pub resolve : Setup → List Event → List ℕ → List ℕ → List ℕ → Run
unfolding send_arp_request recv_arp_response finish
resolve s events target_ip sender_ip sender_mac =
    let waited = λ (packet : List ℕ). finish packet (recv_arp_response false target_ip events) in
    if s.socket
    then if s.ioctl && s.bind
      then elim (send_arp_request s.sendto sender_mac sender_ip target_ip) [
        | none ↦ given_up
        | some packet ↦ waited packet
      ]
      else given_up
    else usage

unfoldable pub main : Setup → List Event → Run
unfolding resolve
main s events =
    if s.argc == 5
    then elim s.target_ip [
      | none ↦ usage
      | some target_ip ↦ elim s.sender_ip [
        | none ↦ usage
        | some sender_ip ↦ elim s.sender_mac [
          | none ↦ usage
          | some sender_mac ↦ resolve s events target_ip sender_ip sender_mac
        ]
      ]
    ]
    else usage
