-- ===== src/Buffer/Tests.antt =====
-- The cache at concrete disks. About kernel/buffer.c.
use kanaos.Prelude.{
  ℕ, ◌+◌, ◌-◌, ◌*◌, ◌%◌, ◌≡◌, ◌≢◌, ◌⊎◌, inl, refl, true, false, [], ◌∷◌, update, Option, some, none,
  ok, arith, ◌>>=◌,
}
use kanaos.List.Walk.{member}
use kanaos.List.Members.{In}
use kanaos.Buffer.{
  Cache, buffer_init, getblk, bread, bwrite, brelse, let_go, fill, get_from_hash_table, find_in,
  get_free_buffer, get_new_buffer, take_buffer, hash_locate, hash, filled,
}
use kanaos.Device.{device_get, device_ioctl, device_read, device_write, do_request}
use kanaos.Device.Request.{request_place, request_read, request_write}
use kanaos.Buffer.Invariant.{Held, Keeps, Agrees, IsCache, Shows, SameBlocks}
use kanaos.Buffer.Getblk.{Gives, getblk-IsCache}
use kanaos.Buffer.Read.{Reads, bread-Reads}
use kanaos.Buffer.Write.{Untouched, bwrite-IsCache}
use kanaos.Buffer.Release.{brelse-IsCache}
use kanaos.Buffer.Samples.{
  Disks, sectors, parts, sectors-IsDisk, cold, start, one, one-IsCache, one-Held,
}
use kanaos.Buffer.Start.{buffer_init-IsCache}

-- What byte `i` of the buffer is.
abbrev byte_of : ℕ → Option (Cache Disks × ℕ) → Option ℕ
byte_of i none = none
byte_of i (some (s, b)) = some (s.mem (s.bf_data b + i))

bread_run : (bread sectors start 1 5 >>= λ got. ok (byte_of 7 got)) ≡ ok (some 18)
unfolding bread getblk fill buffer_init get_from_hash_table find_in get_free_buffer get_new_buffer
    take_buffer hash_locate hash member filled device_get device_ioctl device_read do_request
    request_place request_read
bread_run = refl

bwrite_run :
    (bwrite sectors (record one { dirty = λ _. true; mem = λ a. a % 256 }) 0x100000 >>= λ s.
    ok (s.disk (512 * (10 + 100) + 3)))
    ≡ ok 3
unfolding bwrite buffer_init hash device_get device_ioctl device_write do_request request_place
    request_write
bwrite_run = refl

brelse_run : (brelse sectors one 0x100000 >>= λ s. ok (s.free_list)) ≡ ok (0x100000 ∷ [])
unfolding brelse bwrite let_go buffer_init hash member
brelse_run = refl

buffer_init-IsCache_example :
    IsCache parts (buffer_init 0x100000 cold)
    × ((dev block i : ℕ)
        → Shows parts
            (buffer_init 0x100000 cold)
            dev
            block
            i
            (parts.byte_on cold.disk dev (block * 2) i))
buffer_init-IsCache_example = buffer_init-IsCache parts cold 0x100000 (omega arith)

getblk-IsCache_example :
    ((getblk one 1 6 ≡ ok none)
      × (one.free_list ≡ [])
      × ((b : ℕ) → Held one b → ¬ ((one.dev b ≡ 1) × (one.block b ≡ 6))))
    ⊎ ((t : Cache Disks) × (b : ℕ) × (getblk one 1 6 ≡ ok (some (t, b))) × Gives parts one 1 6 t b)
getblk-IsCache_example = getblk-IsCache parts one 1 6 one-IsCache (inl refl, omega arith)

bread-Reads_example :
    ((bread sectors one 1 5 ≡ ok none)
      × (one.free_list ≡ [])
      × ((b : ℕ) → Held one b → ¬ ((one.dev b ≡ 1) × (one.block b ≡ 5))))
    ⊎ ((t : Cache Disks) × (b : ℕ) × (bread sectors one 1 5 ≡ ok (some (t, b)))
        × Reads sectors parts one 1 5 t b)
bread-Reads_example =
    bread-Reads sectors parts one 1 5 sectors-IsDisk one-IsCache (inl refl, omega arith)

bwrite-IsCache_example :
    (t : Cache Disks) × (bwrite sectors one 0x100000 ≡ ok t)
    × IsCache parts t
    × (t.dirty 0x100000 ≡ false)
    × (one.valid 0x100000 ≡ true → Agrees parts t 0x100000)
    × Untouched sectors parts one t
    × SameBlocks parts one t
    × (one.dirty 0x100000 ≡ false → t ≡ one)
bwrite-IsCache_example =
    bwrite-IsCache sectors parts sectors-IsDisk one 0x100000 one-IsCache one-Held

brelse-IsCache_example :
    (t : Cache Disks) × (brelse sectors one 0x100000 ≡ ok t)
    × IsCache parts t
    × (t.count 0x100000 ≡ one.count 0x100000 - 1)
    × (t.dirty 0x100000 ≡ false)
    × ((In 0x100000 t.free_list → one.count 0x100000 ≡ 1)
        × (one.count 0x100000 ≡ 1 → In 0x100000 t.free_list))
    × SameBlocks parts one t
    × (t.mem ≡ one.mem)
    × Keeps one t (update one.count 0x100000 (one.count 0x100000 - 1))
    × (one.count 0x100000 ≢ 1 → t.free_list ≡ one.free_list)
unfolding buffer_init
brelse-IsCache_example =
    brelse-IsCache sectors parts one 0x100000 sectors-IsDisk one-IsCache one-Held (omega arith)
