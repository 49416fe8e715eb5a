-- ===== src/FsMap/Tests.antt =====
-- A small file system, and what its maps go through.
use kanaos.Prelude.{
  ℕ, List, ◌-◌, ◌%◌, ◌≡◌, refl, true, false, [], ◌∷◌, ◌==◌, if◌then◌else◌, arith, ok, halted,
  holds_below, holds_below_lem,
}
use kanaos.Strings.{Memory}
use kanaos.Bitmap.{bitmap_scan_check, bitmap_make, test_bit}
use kanaos.Bitmap.Scan.{FirstVacant, AllTaken}
use kanaos.Bitmap.Change.{ByteMemory, BitWritten}
use kanaos.Buffer.{Cache}
use kanaos.Device.Request.{DiskDriver}
use kanaos.FsMap.{Super, get_super, balloc, bfree, ialloc, ifree, eof}
use kanaos.FsMap.Alloc.{
  zones_map, inodes_map, stored, balloc-FirstVacant, balloc-full, ialloc-FirstVacant,
}
use kanaos.Device.{Device, device_get, device_ioctl, device_write, do_request}
use kanaos.Device.Request.{dev_block, request_place, request_write}
use kanaos.FsMap.Find.{Puts}
use kanaos.FsMap.Free.{bfree-BitWritten, bfree-balloc-halted}
use kanaos.FsMap.Roundtrip.{ifree-ialloc}

abbrev super_at : ℕ → Super
super_at dev = record {
  dev = dev;
  inodes = 64;
  zones = 100;
  imap_blocks = 1;
  zmap_blocks = 1;
  firstdatazone = 10;
  imaps = λ i. if i == 0 then 9 else 0;
  zmaps = λ i. if i == 0 then 7 else 0;
}

-- Device 3 is the second in the table.
abbrev table : ℕ → Super
table i = if i == 1 then super_at 3 else super_at eof

-- Two zones are taken and three inodes.
abbrev bytes : Memory
bytes a = if a == 100 then 3 else (if a == 5000 then 7 else 0)

-- Disks as the sectors that were written, the last first.
abbrev Writes : Type 0
Writes = List ℕ

-- Device 3 is a block device of its own.
abbrev disk_3 : ℕ → Device
disk_3 dev = record {
  name = [];
  dev_type = dev_block;
  subtype = 0;
  dev = dev;
  parent = 0;
  ptr = 0;
  direct = true;
  ioctl = 16;
  read = 32;
  write = 48;
}

abbrev writes : DiskDriver Writes
writes = record {
  devices = disk_3;
  sector_start = λ fn ptr. 0;
  read_sectors = λ d fn ptr idx i. 0;
  write_sectors = λ d fn ptr idx f. idx ∷ d;
}

-- The buffers 7 and 9 are for the blocks 3 and 2.
abbrev put_zones : Writes → (ℕ → ℕ) → Writes
put_zones d f = 6 ∷ d

abbrev put_inodes : Writes → (ℕ → ℕ) → Writes
put_inodes d f = 4 ∷ d

abbrev buffers : Cache Writes
buffers = record {
  mem = bytes;
  bf_data = λ bf. if bf == 7 then 100 else 5000;
  dirty = λ bf. false;
  valid = λ bf. true;
  buffer_ptr = 0;
  buffer_data = 0;
  free_list = [];
  hash_table = λ i. [];
  dev = λ bf. 3;
  block = λ bf. if bf == 9 then 2 else 3;
  count = λ bf. 1;
  disk = [];
}

-- The same with every zone taken.
abbrev full_buffers : Cache Writes
full_buffers = record buffers { mem = λ a. 255 }

zones-Puts : Puts writes put_zones buffers 7
unfolding request_write request_place device_get device_ioctl device_write do_request
zones-Puts d f = refl

inodes-Puts : Puts writes put_inodes buffers 9
unfolding request_write request_place device_get device_ioctl device_write do_request
inodes-Puts d f = refl

bytes-ByteMemory : ByteMemory bytes
bytes-ByteMemory a = ground arith

mounted : get_super 16 table 3 0 ≡ ok (super_at 3)
unfolding get_super
mounted = refl

zone_2-FirstVacant : FirstVacant bytes (zones_map (super_at 3) buffers) 0 2
unfolding holds_below bitmap_scan_check test_bit bitmap_make
zone_2-FirstVacant = (
  λ i lo hi.
      holds_below_lem (bitmap_scan_check bytes (zones_map (super_at 3) buffers)) {n = 2} i refl hi,
  refl,
)

inode_3-FirstVacant : FirstVacant bytes (inodes_map (super_at 3) buffers) 0 3
unfolding holds_below bitmap_scan_check test_bit bitmap_make
inode_3-FirstVacant = (
  λ i lo hi.
      holds_below_lem (bitmap_scan_check bytes (inodes_map (super_at 3) buffers)) {n = 3} i refl hi,
  refl,
)

balloc-FirstVacant_example :
    (n : Memory) × (balloc writes table buffers 3 ≡ ok (stored writes put_zones buffers n 7, 2))
    × BitWritten (zones_map (super_at 3) buffers) bytes 2 true n
balloc-FirstVacant_example =
    balloc-FirstVacant writes put_zones table buffers 3 2 (super_at 3) (mounted, omega arith)
      zones-Puts bytes-ByteMemory zone_2-FirstVacant (omega arith) (omega arith)

bfree-balloc-halted_example :
    (s' : Cache Writes) × (balloc writes table buffers 3 ≡ ok (s', 2))
    × (bfree writes table s' 3 2 ≡ halted)
bfree-balloc-halted_example =
    bfree-balloc-halted writes put_zones table buffers 3 2 (super_at 3) (mounted, omega arith)
      zones-Puts bytes-ByteMemory zone_2-FirstVacant (omega arith) (omega arith) (omega arith)
      (omega arith)

zone_10_taken : bitmap_scan_check bytes (zones_map (super_at 3) buffers) (10 - (10 - 1)) ≡ true
unfolding bitmap_scan_check test_bit bitmap_make
zone_10_taken = refl

-- Zone 10 is bit 1, and bit 10 is cleared.
bfree-BitWritten_example :
    (n : Memory) × (bfree writes table buffers 3 10 ≡ ok (stored writes put_zones buffers n 7))
    × BitWritten (zones_map (super_at 3) buffers) bytes 10 false n
bfree-BitWritten_example =
    bfree-BitWritten writes put_zones table buffers 3 10 (super_at 3) (mounted, omega arith)
      zones-Puts bytes-ByteMemory (omega arith) (omega arith) (omega arith) (omega arith)
      (omega arith) zone_10_taken

ialloc-FirstVacant_run :
    (n : Memory) × (ialloc writes table buffers 3 ≡ ok (stored writes put_inodes buffers n 9, 3))
    × BitWritten (inodes_map (super_at 3) buffers) bytes 3 true n
ialloc-FirstVacant_run =
    ialloc-FirstVacant writes put_inodes table buffers 3 3 (super_at 3) (mounted, omega arith)
      inodes-Puts bytes-ByteMemory inode_3-FirstVacant (omega arith) (omega arith)

ifree-ialloc_example :
    (s' : Cache Writes) × (s'' : Cache Writes) × (ialloc writes table buffers 3 ≡ ok (s', 3))
    × (ifree writes table s' 3 3 ≡ ok s'')
    × ((j : ℕ)
        → bitmap_scan_check s''.mem (inodes_map (super_at 3) buffers) j
          ≡ bitmap_scan_check bytes (inodes_map (super_at 3) buffers) j)
    × (s''.disk ≡ 4 ∷ (4 ∷ []))
ifree-ialloc_example =
    ifree-ialloc writes put_inodes table buffers 3 3 (super_at 3) (mounted, omega arith) inodes-Puts
      bytes-ByteMemory inode_3-FirstVacant (omega arith) (omega arith)

all_taken : AllTaken (λ a. 255) (zones_map (super_at 3) full_buffers) 0 8192
unfolding bitmap_scan_check test_bit holds_below
all_taken i lo hi = holds_below_lem (test_bit 255) {n = 8} (i % 8) refl (omega arith)

balloc-full_run : balloc writes table full_buffers 3 ≡ halted
balloc-full_run =
    balloc-full writes put_zones table full_buffers 3 (super_at 3) (mounted, omega arith) all_taken
