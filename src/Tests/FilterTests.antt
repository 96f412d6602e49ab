-- ===== src/Tests/FilterTests.antt =====
-- demos/netfilter/netfilter.c at concrete packets.
use os_kernel_from_scratch.Common.{◌≡◌, refl}
use os_kernel_from_scratch.Common.{not}
use os_kernel_from_scratch.Common.{[]}
use os_kernel_from_scratch.Netfilter.{Packet, packet_create, rules, Netfilter, process_packet}
use os_kernel_from_scratch.Netfilter.Policy.{is_open, process_policy}

-- A request for a web page of another host.
abbrev request : Packet
request = packet_create 3232235786 134744072 6 40000 80

-- A name lookup.
abbrev question : Packet
question = packet_create 3232235786 134744072 17 40001 53

abbrev netfilter : Netfilter
netfilter = record { rule_table = rules; conn_table = [] }

process_policy_example : (process_packet netfilter request).0.dropped ≡ not (is_open [] request)
process_policy_example = process_policy netfilter request refl
