-- ===== src/Inode/Get.antt =====
-- What `iget` of fs/inode.c gives.
use kanaos.Prelude.{ℕ, ◌+◌, ◌%◌, ◌^◌, ◌∷◌, update}
use kanaos.Device.Request.{DiskDriver}
use kanaos.Buffer.Invariant.{Blocks}
use kanaos.FsMap.{Super}
use kanaos.Inode.{Fs}

module _ {Disk : Type 0} (driver : DiskDriver Disk) (blocks : Blocks Disk) where
  -- The state behind `new_inode`.
  abbrev pub opened : Fs Disk → Super → ℕ → ℕ → ℕ → Fs Disk
  opened s sb dev nr i = record s {
    inode_table = update s.inode_table i (record (s.inode_table i) {
      dev = dev;
      nr = nr;
      count = ((s.inode_table i).count + 1) % 2 ^ 32;
    });
    inode_list = update s.inode_list sb.dev (i ∷ s.inode_list sb.dev);
  }
