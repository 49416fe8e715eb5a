-- ===== src/Inode/Tests.antt =====
-- Inodes of a small file system. About fs/inode.c.
use kanaos.Prelude.{
  ℕ, ◌+◌, ◌≡◌, refl, ◌==◌, if◌then◌else◌, List, [], ◌∷◌, ◌>>=◌, Option, some, none, ok, arith,
}
use kanaos.List.Walk.{member}
use kanaos.Buffer.{
  buffer_init, brelse, let_go, bread, bwrite, getblk, get_from_hash_table, find_in, hash,
  get_free_buffer, get_new_buffer, take_buffer, hash_locate, fill, remove_one, filled,
}
use kanaos.Buffer.Samples.{Disks, sectors, one}
use kanaos.Device.{device_get, device_ioctl, device_read, device_write, do_request}
use kanaos.Device.Request.{request_place, request_read, request_write}
use kanaos.FsMap.{Super, eof}
use kanaos.Bmap.{Inode, bmap, reckon, new_zone}
use kanaos.Strings.{memcpy}
use kanaos.Inode.{Fs}
use kanaos.Inode.File.{inode_read, read_loop, write_loop}
use kanaos.Inode.File.Bounds.{read_loop-enough, write_loop-enough}

abbrev super_1 : Super
super_1 = record {
  dev = 1;
  inodes = 64;
  zones = 100;
  imap_blocks = 1;
  zmap_blocks = 1;
  firstdatazone = 10;
  imaps = λ _. 0;
  zmaps = λ _. 0;
}

abbrev supers : ℕ → Super
supers i = super_1

abbrev file : Inode
file = record { desc = 0x4ffc00; buf = 0x100000; dev = 1; nr = 1; count = 1; atime = 0; ctime = 0 }

-- A file of 3000 bytes in the blocks 9 and 11.
abbrev descriptor : ℕ → ℕ
descriptor a =
    if a == 0x4ffc01
    then 128
    else (if a == 0x4ffc04
        then 184
        else (if a == 0x4ffc05
            then 11
            else (if a == 0x4ffc0e then 9 else (if a == 0x4ffc10 then 11 else 0))))

abbrev open_files : Fs Disks
open_files = record {
  cache = record one { mem = descriptor };
  inode_table = λ _. file;
  inode_list = λ _. [];
  now = 7;
}

-- No inode is in use.
abbrev empty : Fs Disks
empty = record {
  cache = one;
  inode_table = λ _. record file { dev = eof };
  inode_list = λ _. [];
  now = 7;
}

read_loop-enough_run :
    read_loop sectors supers 9 open_files.cache file 64 4 1022
    ≡ read_loop sectors supers 5 open_files.cache file 64 4 1022
read_loop-enough_run =
    read_loop-enough sectors supers 9 5 open_files.cache file 64 4 1022 (omega arith) (omega arith)
      (omega arith)

write_loop-enough_run :
    write_loop sectors supers 9 open_files.cache file 64 4 1022
    ≡ write_loop sectors supers 5 open_files.cache file 64 4 1022
write_loop-enough_run =
    write_loop-enough sectors supers 9 5 open_files.cache file 64 4 1022 (omega arith) (omega arith)
      (omega arith)

-- What stands at an address, and what the call returned.
abbrev read_of : ℕ → Option (Fs Disks × ℕ) → List ℕ
read_of a none = []
read_of a (some (s, n)) =
    n ∷ (s.cache.mem a ∷ (s.cache.mem (a + 1) ∷ (s.cache.mem (a + 2) ∷ (s.cache.mem (a + 3) ∷ []))))

-- Four bytes across the end of the first block.
inode_read_run :
    (inode_read sectors supers open_files 3 64 4 1022 >>= λ got. ok (read_of 64 got))
    ≡ ok (4 ∷ (1041 ∷ (1042 ∷ (23 ∷ (24 ∷ [])))))
unfolding inode_read read_loop bmap reckon new_zone brelse buffer_init let_go bread getblk
    get_from_hash_table find_in hash get_free_buffer get_new_buffer take_buffer hash_locate member
    fill remove_one memcpy bwrite filled device_get device_ioctl device_read device_write do_request
    request_place request_read request_write
inode_read_run = refl
