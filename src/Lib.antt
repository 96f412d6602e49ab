-- ===== src/Lib.antt =====
-- Verification of os-kernel-from-scratch: small C models of kernel subsystems, each a program of its
-- own under demos/. They share no code and no state; what they have in common here, bitmaps of
-- 64-bit words, bit operations and lists, is in Common.
--
-- Parts, and the files that model them:
--
-- * demos/lvm/lvm.c. Lvm/Pv.antt has `struct pv` with pv_create, pv_alloc and pv_free, Lvm/Vg.antt
--   `struct vg` with vg_add_pv and vg_alloc_pe, which calls pv_alloc, and Lvm/Lv.antt `struct lv` with
--   lv_create, lv_extend, lv_map_sector, lv_create_snapshot and snapshot_write, which call
--   vg_alloc_pe. A result -1 is `none`, and the state afterwards is returned.
-- * demos/iosched/iosched.c and iosched.h. Iosched/Request.antt has `struct request` and its merge,
--   Iosched/Queue.antt the linked lists, Iosched/Noop.antt, Iosched/Deadline.antt and Iosched/Cfq.antt
--   the three schedulers, Iosched/Switch.antt the one in use and the calls that go to it. get_jiffies
--   and kmalloc are not in the repository: the results of each call are arguments, and jiffies_to_msecs is a
--   parameter.
-- * demos/conntrack/conntrack.c. Conntrack.antt has the hash table with conn_lookup and conn_create,
--   Conntrack/Machine.antt the state machine tcp_step.
-- * demos/route/route.c. Route.antt has lookup_route and route_packet.
-- * demos/iptables/iptables.c. Iptables.antt has match_packet, add_rule, eval_chain, the tables of
--   build_iptables, and process, which translates ports, evaluates a filter chain and keeps its count.
-- * demos/netfilter/netfilter.c. Netfilter.antt has the rules, the connection table, traverse_hooks
--   and process_packet, which routes a packet, runs it through hooks and enters its connection.
-- * demos/raid/raid.c. Raid.antt has the maps from sectors to disks, the parities, and disk_read with the
--   rebuilding of a block. A mock disk holds no data, and disk_read leaves the buffer of a healthy disk as
--   it was, so that what stands in the buffers is an argument.
-- * demos/tcp-congestion-control/congestion.c. Congestion.antt has the congestion window, its events
--   and the loops of the simulation.
-- * demos/bio/bio.c and bio.h. Bio.antt has `struct bio` with bio_add_page, bio_advance, bio_endio,
--   bio_clone and bio_split, Bio/Pool.antt the pool with bio_alloc and bio_free, and Bio/Queues.antt
--   `struct request_queue` with blk_alloc_queue, blk_queue_make_request and submit_bio, whose driver's
--   function is a parameter.
-- * demos/futex/futex_v1_spinlock.c to futex_v4_final.c. Futex.antt has the worker, the memory and the
--   interleavings of any number of threads over an interface LockCode, and Futex/Versions.antt the four
--   lock and unlock functions as its instances. A step is one access to the memory; the kernel's
--   decision to sleep is a parameter with the law of futex(2).
-- * demos/writeback/wb_sim.c and wb_sim.h. Writeback.antt has pages, inodes and the counts, with
--   mark_page_dirty, unmark_page_dirty, writeback_inode, writeback_all_inodes, fsync_inode and the rounds
--   of flush_thread_entry. writeback_inode is cut where other threads can come between: at take_page,
--   which it does under the lock, at device_write, and at settle_page, which changes the flags and the
--   count. Writeback/Races.antt and Writeback/Lost.antt put other threads there.
-- * demos/vfs/vfs.h, vfs.c and ext4_ops.c. Vfs.antt has the structures and the memory they stand in: an
--   inode is an index into the table, a directory entry, a super block or the data of ext4 a cell that
--   kmalloc fills and kfree empties. Vfs/Inodes.antt has vfs_new_inode and vfs_put_inode,
--   Vfs/Dentries.antt vfs_new_dentry and vfs_put_dentry, which call them, and Vfs/Files.antt
--   register_filesystem, vfs_mount, vfs_open, vfs_read, vfs_write and vfs_close, which call the
--   functions of a file system, the record FileSystem. Vfs/Ext4.antt is the one that ext4_ops.c
--   fills, and ext4_mount. Whether a kmalloc succeeds is an argument, and the memory that data
--   blocks are read from a parameter. A pointer that leads nowhere gives `none`. ext4_file_operations
--   and the tables of directories are taken by their addresses, which two assignments leave out.
-- * demos/multiboot/main.c. Console.antt has vga_putchar, print_str, print_hex and print_int, and
--   Console/Boot.antt kernel_main up to its endless `hlt`. What the boot loader left in memory is a
--   parameter; what the Multiboot specification says of it is the hypothesis IsLoaded.
-- * demos/neigh/neigh_arp.c. Neigh.antt has send_arp_request, recv_arp_response and main. What the
--   arguments say and which calls of the system succeed is a Setup, and the rounds of the loop are a
--   list of events, the outcomes of select and recvfrom.
--
-- Numbers: unsigned C types wrap where the code can make them wrap, written `% 2 ^ w`; an `int` that
-- only counts is a natural number, and the products and casts of `int` in lvm.c that can overflow
-- are written out. Division by zero and reads outside a map give `none`.
--
-- Loops are recursion on a list or on a count that the source fixes. Some need fuel: prefix_len, 32
-- rounds for the 32 bits of a mask, and Route/Longest.antt has the lemma that more change nothing; the
-- wait of fsync_inode, where one round is enough if nobody else is at the inode; the loop over the
-- memory map in kernel_main, mmap_length + 1 rounds, where each entry takes at least 4 bytes; and the
-- digits of print_int, 16 for its buffer, of which a number of 32 bits takes 10.
--
-- Not modelled: the socket, eBPF, brk and mmap demos, which only call the operating system; race.c, a
-- counter under a mutex of pthread; submit_bio_wait, which waits for a driver, and the counters of
-- bio.c; the locks of vfs.c and bio.c; printing everywhere but on the boot console; find_chain of
-- iptables, whose chains are fields here; the freeing of requests in iosched.
--
-- Each file Tests/*.antt applies the theorems to concrete inputs.
pub mod Common
pub mod Lvm
pub mod Iosched
pub mod Congestion
pub mod Conntrack
pub mod Route
pub mod Raid
pub mod Iptables
pub mod Netfilter
pub mod Bio
pub mod Futex
pub mod Writeback
pub mod Vfs
pub mod Console
pub mod Neigh
mod Tests
