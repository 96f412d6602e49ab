-- ===== src/Lvm.antt =====
-- demos/lvm/lvm.c: physical volumes, volume groups, logical volumes and snapshots.
pub mod Pv
pub mod Vg
pub mod Lv
