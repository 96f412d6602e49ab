-- ===== src/Neigh/Replies.antt =====
-- demos/neigh/neigh_arp.c: which packets the loop of recv_arp_response takes for the reply.
use os_kernel_from_scratch.Common.{
  ℕ, zero, suc, ◌+◌, ◌*◌, ◌/◌, ◌%◌, ◌≤◌, ◌≡◌, refl, ap, ap₂, ◌∙◌, none, some, List, [], ◌∷◌, ◌++◌,
  false, arith, ltb, ◌==◌, if◌then◌else◌, length, length-append, get_or, take, drop,
}
use mathlib.Core.List.{append_assoc}
use os_kernel_from_scratch.Common.Nodes.{same}
use os_kernel_from_scratch.Neigh.{ArpHeader, EthFrame, htons, packet_of, ntohs, field, reply_mac}

get_or-append :
    (xs ys : List ℕ) (i k : ℕ) → i ≡ k + length xs → get_or (xs ++ ys) i 0 ≡ get_or ys k 0
get_or-append [] ys i k e = ap (λ j. get_or ys j 0) (omega arith)
get_or-append (x ∷ xs) ys zero k e = absurd (omega arith)
get_or-append (x ∷ xs) ys (suc i) k e = get_or-append xs ys i k (omega arith)

ntohs-append : (xs ys : List ℕ) (i k : ℕ) → i ≡ k + length xs → ntohs (xs ++ ys) i ≡ ntohs ys k
unfolding ntohs
ntohs-append xs ys i k e =
    ap₂ (λ a b. a * 256 + b) (get_or-append xs ys i k e)
      (get_or-append xs ys (i + 1) (k + 1) (omega arith))

field-append :
    (xs ys : List ℕ) (i k m : ℕ) → i ≡ k + length xs → field (xs ++ ys) i m ≡ field ys k m
unfolding field
field-append [] ys i k m e = ap (λ j. take m (drop j ys)) (omega arith)
field-append (x ∷ xs) ys zero k m e = absurd (omega arith)
field-append (x ∷ xs) ys (suc i) k m e = field-append xs ys i k m (omega arith)

field_first : (xs ys : List ℕ) (m : ℕ) → length xs ≡ m → field (xs ++ ys) 0 m ≡ xs
unfolding field
field_first [] ys zero e = refl
field_first [] ys (suc m) e = absurd (omega arith)
field_first (x ∷ xs) ys zero e = absurd (omega arith)
field_first (x ∷ xs) ys (suc m) e = ap (λ zs. x ∷ zs) (field_first xs ys m (omega arith))

take_whole : (n : ℕ) (xs : List ℕ) → length xs ≤ n → take n xs ≡ xs
take_whole zero [] h = refl
take_whole zero (x ∷ xs) h = absurd (omega arith)
take_whole (suc n) [] h = refl
take_whole (suc n) (x ∷ xs) h = ap (λ zs. x ∷ zs) (take_whole n xs (omega arith))

not_below : (a b : ℕ) → b ≤ a → ltb a b ≡ false
not_below a b h = ground arith

-- Addresses of the lengths that the packed structures have.
pub record Fits (eth : EthFrame) (arp : ArpHeader) : Type 0 where
  pub dest_mac : length eth.dest_mac ≡ 6
  pub src_mac : length eth.src_mac ≡ 6
  pub sender_mac : length arp.sender_mac ≡ 6
  pub sender_ip : length arp.sender_ip ≡ 4
  pub target_mac : length arp.target_mac ≡ 6
  pub target_ip : length arp.target_ip ≡ 4

-- A packet, with anything behind it.
module _ (eth : EthFrame) (arp : ArpHeader) (fits : Fits eth arp) (rest : List ℕ) where
  -- What stands behind the hardware address of the sender, and behind the addresses of the frame.
  after_mac : List ℕ
  after_mac = arp.sender_ip ++ (arp.target_mac ++ (arp.target_ip ++ rest))

  payload : List ℕ
  unfolding htons
  payload =
      (eth.ether_type / 256)
      ∷ (eth.ether_type % 256)
      ∷ (arp.hw_type / 256)
      ∷ (arp.hw_type % 256)
      ∷ (arp.proto_type / 256)
      ∷ (arp.proto_type % 256)
      ∷ arp.hw_size
      ∷ arp.proto_size
      ∷ (arp.opcode / 256)
      ∷ (arp.opcode % 256)
      ∷ (arp.sender_mac ++ after_mac)

  packet : List ℕ
  packet = eth.dest_mac ++ (eth.src_mac ++ payload)

  packet_of-packet : packet_of eth arp ++ rest ≡ packet
  unfolding packet_of htons packet payload after_mac
  packet_of-packet = simp append_assoc refl

  length-packet : length packet ≡ 42 + length rest
  unfolding packet payload after_mac
  length-packet = omega (
    arith,
    fits.dest_mac,
    fits.src_mac,
    fits.sender_mac,
    fits.sender_ip,
    fits.target_mac,
    fits.target_ip,
    length-append eth.dest_mac (eth.src_mac ++ payload),
    length-append eth.src_mac payload,
    length-append arp.sender_mac after_mac,
    length-append arp.sender_ip (arp.target_mac ++ (arp.target_ip ++ rest)),
    length-append arp.target_mac (arp.target_ip ++ rest),
    length-append arp.target_ip rest,
  )

  packet-ether_type : ntohs packet 12 ≡ eth.ether_type
  unfolding ntohs packet payload
  packet-ether_type =
      ntohs-append eth.dest_mac (eth.src_mac ++ payload) 12 6 (omega (arith, fits.dest_mac))
      ∙ ntohs-append eth.src_mac payload 6 0 (omega (arith, fits.src_mac))
      ∙ omega arith

  packet-opcode : ntohs packet 20 ≡ arp.opcode
  unfolding ntohs packet payload
  packet-opcode =
      ntohs-append eth.dest_mac (eth.src_mac ++ payload) 20 14 (omega (arith, fits.dest_mac))
      ∙ ntohs-append eth.src_mac payload 14 8 (omega (arith, fits.src_mac))
      ∙ omega arith

  packet-sender_mac : field packet 22 6 ≡ arp.sender_mac
  unfolding field packet payload
  packet-sender_mac =
      field-append eth.dest_mac (eth.src_mac ++ payload) 22 16 6 (omega (arith, fits.dest_mac))
      ∙ field-append eth.src_mac payload 16 10 6 (omega (arith, fits.src_mac))
      ∙ field_first arp.sender_mac after_mac 6 fits.sender_mac

  packet-sender_ip : field packet 28 4 ≡ arp.sender_ip
  unfolding field packet payload after_mac
  packet-sender_ip =
      field-append eth.dest_mac (eth.src_mac ++ payload) 28 22 4 (omega (arith, fits.dest_mac))
      ∙ field-append eth.src_mac payload 22 16 4 (omega (arith, fits.src_mac))
      ∙ field-append arp.sender_mac after_mac 6 0 4 (omega (arith, fits.sender_mac))
      ∙ field_first arp.sender_ip (arp.target_mac ++ (arp.target_ip ++ rest)) 4 fits.sender_ip

  -- Of a packet with room for it in the buffer the loop takes the sender's hardware address, if it is an
  -- ARP response of the address that is asked for, and nothing of any other.
  pub reply_mac-packet_of :
      (ip : List ℕ)
      → length rest ≤ 982
      → reply_mac ip (packet_of eth arp ++ rest) ≡ (
          if eth.ether_type == 0x0806
          then if arp.opcode == 2
            then if same arp.sender_ip ip then some arp.sender_mac else none
            else none
          else none)
  unfolding reply_mac
  reply_mac-packet_of ip room =
      let whole : take 1024 (packet_of eth arp ++ rest) ≡ packet =
        ap (take 1024) packet_of-packet
        ∙ take_whole 1024 packet (omega (arith, room, length-packet)) in
      let long : ltb (length packet) 42 ≡ false =
        not_below (length packet) 42 (omega (arith, length-packet)) in
      rw (reply_mac, whole)
        (rw (long, packet-ether_type, packet-opcode, packet-sender_mac, packet-sender_ip) refl)
