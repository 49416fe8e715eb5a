-- ===== src/Device/Request.antt =====
-- `device_request` of kernel/device.c, for a request that finds the queue of its device empty: then it
-- does not wait, and it leaves the queue empty. The table of devices is part of the state of the
-- driver; what the functions do whose pointers stand in the table is a parameter, by the pointer and
-- its first argument.
use kanaos.Prelude.{
  ℕ, ◌+◌, ◌-◌, ◌%◌, ◌^◌, ◌==◌, if◌then◌else◌, Option, none, some, Outcome, ok, assert, ◌>>=◌,
}
use kanaos.Device.{Device, device_get, device_ioctl, do_request}

abbrev pub dev_block : ℕ
dev_block = 2

pub record DiskDriver (Disk : Type 0) : Type 0 where
  pub devices : ℕ → Device
  -- What `ioctl` answers to DEV_CMD_SECTOR_START.
  pub sector_start : (fn ptr : ℕ) → ℕ
  -- What `read` and `write` of two sectors from a sector on do.
  pub read_sectors : Disk → (fn ptr idx : ℕ) → ℕ → ℕ
  pub write_sectors : Disk → (fn ptr idx : ℕ) → (ℕ → ℕ) → Disk

module _ {Disk : Type 0} (driver : DiskDriver Disk) where
  -- `device_ioctl` as an offset; without a function it is EOF.
  abbrev pub start_sector : Option (ℕ × ℕ) → ℕ
  start_sector none = 2 ^ 32 - 1
  start_sector (some (fn, ptr)) = driver.sector_start fn ptr

  -- Up to the request: the device that serves it, and the sector there.
  unfoldable pub request_place : (dev idx : ℕ) → Outcome (ℕ × ℕ)
  request_place dev idx = do
    device ← device_get driver.devices dev
    _ ← assert (device.dev_type == dev_block)
    start ← device_ioctl driver.devices device.dev
    let offset : ℕ = (idx + start_sector start) % 2 ^ 32
    (if device.parent == 0
        then ok (device.dev, offset)
        else (device_get driver.devices device.parent >>= λ parent. ok (parent.dev, offset)))

  -- A device without the function leaves the buffer, or the disk, as it was.
  abbrev pub bytes_read : Disk → (old : ℕ → ℕ) → (idx : ℕ) → Option (ℕ × ℕ) → ℕ → ℕ
  bytes_read d old idx none = old
  bytes_read d old idx (some (fn, ptr)) = driver.read_sectors d fn ptr idx

  abbrev pub disk_written : Disk → (ℕ → ℕ) → (idx : ℕ) → Option (ℕ × ℕ) → Disk
  disk_written d bytes idx none = d
  disk_written d bytes idx (some (fn, ptr)) = driver.write_sectors d fn ptr idx bytes

  -- REQ_READ of two sectors into a buffer with the bytes `old`, and REQ_WRITE of them.
  unfoldable pub request_read : Disk → (dev idx : ℕ) → (old : ℕ → ℕ) → Outcome (ℕ → ℕ)
  request_read d dev idx old = request_place dev idx >>= λ (served, offset).
      (do_request driver.devices 0 served >>= λ call. ok (bytes_read d old offset call))

  unfoldable pub request_write : Disk → (dev idx : ℕ) → (ℕ → ℕ) → Outcome Disk
  request_write d dev idx bytes = request_place dev idx >>= λ (served, offset).
      (do_request driver.devices 1 served >>= λ call. ok (disk_written d bytes offset call))
