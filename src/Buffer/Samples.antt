-- ===== src/Buffer/Samples.antt =====
-- Concrete disks and caches for the tests. About kernel/buffer.c.
use kanaos.Prelude.{
  ℕ, ◌+◌, ◌-◌, ◌*◌, ◌/◌, ◌%◌, ◌^◌, ◌<◌, ◌≤◌, ◌≡◌, ◌≢◌, ◌⊎◌, inl, inr, refl, ap, ◌∙◌, true, false,
  ◌==◌, ◌&&◌, ◌||◌, if◌then◌else◌, [], arith, Bool-cases, leb, ltb, lt→ltb, ok,
}
use kanaos.Device.{Device, device_get, device_ioctl, device_read, device_write, do_request}
use kanaos.Device.Request.{DiskDriver, dev_block, request_place, request_read, request_write}
use kanaos.Buffer.{Cache, buffer_init}
use kanaos.Buffer.Invariant.{Blocks, IsDisk, Held, IsCache}
use kanaos.Buffer.Fresh.{grown, grown-IsCache, grown-Loose}
use kanaos.Buffer.Take.{given, given-IsCache, given_one-Held}
use kanaos.Buffer.Start.{buffer_init-IsCache}

-- A disk as its bytes.
abbrev pub Disks : Type 0
Disks = ℕ → ℕ

-- The two sectors from `idx` on with new bytes.
abbrev overwrite : Disks → ℕ → (ℕ → ℕ) → Disks
overwrite d idx f a =
    if leb (512 * idx) a && ltb a (512 * idx + 1024) then f (a - 512 * idx) else d a

-- The first sector of a partition.
abbrev begin : ℕ → ℕ
begin part = if part == 1 then 100 else 300

abbrev table : ℕ → Device
table dev = record {
  name = [];
  dev_type = if dev == 1 || (dev == 2 || dev == 4) then dev_block else 0;
  subtype = 0;
  dev = dev;
  parent = if dev == 4 then 0 else 4;
  ptr = dev;
  direct = true;
  ioctl = 16;
  read = 32;
  write = 48;
}

-- The devices 1 and 2 are partitions of the disk 4.
abbrev pub sectors : DiskDriver Disks
sectors = record {
  devices = table;
  sector_start = λ fn ptr. begin ptr;
  read_sectors = λ d fn ptr idx i. d (512 * idx + i);
  write_sectors = λ d fn ptr idx f. overwrite d idx f;
}

-- The blocks of both, 100 each.
abbrev pub parts : Blocks Disks
parts = record {
  Serves = λ dev block. ((dev ≡ 1) ⊎ (dev ≡ 2)) × (block < 100);
  byte_on = λ d dev sector i. d (512 * (sector + begin dev) + i);
  put_on = λ d dev sector f. overwrite d (sector + begin dev) f;
}

sum_small :
    (block start : ℕ) → block < 100 → start < 400 → (block * 2 + start) % 2 ^ 32 ≡ block * 2 + start
sum_small block start l l' = omega (arith, l, l')

place :
    (dev idx : ℕ)
    → (dev ≡ 1) ⊎ (dev ≡ 2)
    → request_place sectors dev idx ≡ ok (4, (idx + begin dev) % 2 ^ 32)
unfolding request_place device_get device_ioctl
place dev idx (inl e) = rw e refl
place dev idx (inr e) = rw e refl

begin_small : (dev : ℕ) → begin dev < 400
begin_small dev = elim (Bool-cases (dev == 1)) [
  | inl e ↦ rw e (omega arith)
  | inr e ↦ rw e (omega arith)
]

placed :
    (dev block : ℕ)
    → parts.Serves dev block
    → request_place sectors dev (block * 2) ≡ ok (4, block * 2 + begin dev)
placed dev block (is, l) =
    place dev (block * 2) is ∙ rw (sum_small block (begin dev) l (begin_small dev)) refl

overwritten :
    (d : Disks) (idx : ℕ) (f : ℕ → ℕ) (i : ℕ) → i < 1024 → overwrite d idx f (512 * idx + i) ≡ f i
overwritten d idx f i l =
    rw
      (
        leb_of_le (512 * idx) (512 * idx + i) (omega arith),
        lt→ltb (512 * idx + i) (512 * idx + 1024) (omega (arith, l)),
      )
      (ap f (omega arith))
  where
    leb_of_le : (a b : ℕ) → a ≤ b → leb a b ≡ true
    leb_of_le a b h = ground arith

not_overwritten :
    (d : Disks) (idx : ℕ) (f : ℕ → ℕ) (a : ℕ)
    → (a < 512 * idx) ⊎ (512 * idx + 1024 ≤ a)
    → overwrite d idx f a ≡ d a
not_overwritten d idx f a off = elim (Bool-cases (leb (512 * idx) a && ltb a (512 * idx + 1024))) [
  | inl e ↦ absurd (ground arith)
  | inr e ↦ rw e refl
]

-- Where two blocks stand.
apart :
    (dev block dev' block' i : ℕ)
    → parts.Serves dev block
    → parts.Serves dev' block'
    → i < 1024
    → (dev' ≢ dev) ⊎ (block' ≢ block)
    → (512 * (block' * 2 + begin dev') + i < 512 * (block * 2 + begin dev))
      ⊎ (512 * (block * 2 + begin dev) + 1024 ≤ 512 * (block' * 2 + begin dev') + i)
apart dev block dev' block' i (inl e, l) (inl e', l') m off =
    rw (e, e') (ground (arith, l, l', m, e, e', off))
apart dev block dev' block' i (inl e, l) (inr e', l') m off =
    rw (e, e') (inr (omega (arith, l, l', m)))
apart dev block dev' block' i (inr e, l) (inl e', l') m off =
    rw (e, e') (inl (omega (arith, l, l', m)))
apart dev block dev' block' i (inr e, l) (inr e', l') m off =
    rw (e, e') (ground (arith, l, l', m, e, e', off))

pub sectors-IsDisk : IsDisk sectors parts
unfolding request_read request_write do_request device_read device_write device_get
sectors-IsDisk = record {
  small = λ dev block there. omega (arith, there.1);
  reads = λ d dev block old there.
      ((λ i. d (512 * (block * 2 + begin dev) + i)), rw (placed dev block there) refl, λ i l. refl);
  writes = λ d dev block f there. rw (placed dev block there) refl;
  same_block = λ d dev block f i there l. overwritten d (block * 2 + begin dev) f i l;
  other_block = λ d dev block dev' block' f i there there' l off.
      not_overwritten d (block * 2 + begin dev) f (512 * (block' * 2 + begin dev') + i)
        (apart dev block dev' block' i there there' l off);
}

abbrev pub cold : Cache Disks
cold = record {
  buffer_ptr = 0;
  buffer_data = 0;
  free_list = [];
  hash_table = λ _. [];
  bf_data = λ _. 0;
  dev = λ _. 0;
  block = λ _. 0;
  count = λ _. 0;
  dirty = λ _. false;
  valid = λ _. false;
  mem = λ a. if a == 0x4ffc1c then 9 else 0;
  disk = λ a. 1 + (a - 51200) / 1024 * 2 + (a - 51200) % 1024;
}

abbrev pub start : Cache Disks
start = buffer_init 0x100000 cold

pub start-IsCache : IsCache parts start
start-IsCache = (buffer_init-IsCache parts cold 0x100000 (omega arith)).0

-- One buffer, for block 5 of device 1.
abbrev pub one : Cache Disks
one = given (grown start) 1 5 0x100000

pub one-IsCache : IsCache parts one
unfolding buffer_init
one-IsCache =
    given-IsCache parts (grown start) 1 5 0x100000
      (grown-IsCache parts start start-IsCache (omega arith))
      (grown-Loose parts start start-IsCache (omega arith)) (inl refl, omega arith)
      (λ b h e. absurd (h.1))

pub one-Held : Held one 0x100000
one-Held = given_one-Held parts (grown start) 1 5 0x100000
