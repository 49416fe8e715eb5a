-- ===== src/Device.antt =====
-- kernel/device.c: the table of devices and the elevator over the requests of one. A call through a
-- function pointer is its address and the pointer passed first; its other arguments are the caller's.
-- What `strncpy` leaves of a name of NAMELEN bytes is its first 15 bytes (Strings).
pub mod Table
pub mod Elevator
pub mod Request
mod Tests
use kanaos.Prelude.{
  ℕ, zero, suc, ◌+◌, ◌%◌, ◌^◌, Bool, true, false, ◌&&◌, ◌||◌, not, ltb, ◌==◌, if◌then◌else◌, List,
  [], ◌∷◌, take, Option, none, some, Outcome, ok, halted, fault, assert, update, ◌>>=◌, ◌>>◌,
}
use kanaos.List.{Nodes, tail}

abbrev pub device_nr : ℕ
device_nr = 64

abbrev pub dev_null : ℕ
dev_null = 0

pub record Device : Type 0 where
  pub name : List ℕ
  pub dev_type : ℕ
  pub subtype : ℕ
  pub dev : ℕ
  pub parent : ℕ
  pub ptr : ℕ
  pub direct : Bool
  pub ioctl : ℕ
  pub read : ℕ
  pub write : ℕ

-- The `for` of `get_null_device`, with the rounds left; a panic behind it.
unfoldable pub get_null_device : ℕ → (ℕ → Device) → ℕ → Outcome ℕ
get_null_device zero devices i = halted
get_null_device (suc left) devices i =
    let rest = get_null_device left devices (i + 1) in
    if (devices i).dev_type == dev_null then ok i else rest

-- What `device_install` is given.
pub record Driver : Type 0 where
  pub new_type : ℕ
  pub new_subtype : ℕ
  pub new_ptr : ℕ
  pub new_name : List ℕ
  pub new_parent : ℕ
  pub new_ioctl : ℕ
  pub new_read : ℕ
  pub new_write : ℕ

abbrev pub installed : Device → Driver → Device
installed d new = record d {
  ptr = new.new_ptr;
  parent = new.new_parent;
  dev_type = new.new_type;
  subtype = new.new_subtype;
  name = take 15 new.new_name;
  ioctl = new.new_ioctl;
  read = new.new_read;
  write = new.new_write;
}

unfoldable pub device_install : (ℕ → Device) → Driver → Outcome ((ℕ → Device) × ℕ)
device_install devices new = do
  i ← get_null_device 63 devices 1
  ok (update devices i (installed (devices i) new), (devices i).dev)

-- One round of the `for` of `device_init`; false is DIRECT_UP. `list_init` of the requests is that of List.
abbrev pub null_device : Device → ℕ → Device
null_device d i = record d {
  name = b'n' ∷ (b'u' ∷ (b'l' ∷ (b'l' ∷ [])));
  dev_type = dev_null;
  subtype = dev_null;
  dev = i;
  parent = 0;
  ioctl = 0;
  read = 0;
  write = 0;
  direct = false;
}

unfoldable pub device_init : ℕ → (ℕ → Device) → ℕ → ℕ → Device
device_init zero devices i = devices
device_init (suc left) devices i =
    device_init left (update devices i (null_device (devices i) i)) (i + 1)

-- The `for` of `device_find`, with the rounds left; NULL is `none`.
unfoldable pub device_find : ℕ → (ℕ → Device) → ℕ → ℕ → ℕ → ℕ → Option ℕ
device_find zero devices subtype idx i nr = none
device_find (suc left) devices subtype idx i nr =
    let skipped = device_find left devices subtype idx (i + 1) nr in
    let counted = device_find left devices subtype idx (i + 1) (nr + 1) in
    if not ((devices i).subtype == subtype)
    then skipped
    else (if nr == idx then some i else counted)

-- `dev` is an `int32`: below 0 it passes the assertion, and the read is outside the array.
unfoldable pub device_get : (ℕ → Device) → ℕ → Outcome Device
device_get devices dev =
    assert (ltb ((dev + 2 ^ 31) % 2 ^ 32) (2 ^ 31 + device_nr))
    >> (if ltb dev (2 ^ 31)
        then (assert (not ((devices dev).dev_type == dev_null)) >> ok (devices dev))
        else fault)

-- The function called and its first argument; `none` is EOF.
abbrev pub call : ℕ → ℕ → Option (ℕ × ℕ)
call fn ptr = if fn == 0 then none else some (fn, ptr)

unfoldable pub device_ioctl : (ℕ → Device) → ℕ → Outcome (Option (ℕ × ℕ))
device_ioctl devices dev = do d ← device_get devices dev; ok (call d.ioctl d.ptr)

unfoldable pub device_read : (ℕ → Device) → ℕ → Outcome (Option (ℕ × ℕ))
device_read devices dev = do d ← device_get devices dev; ok (call d.read d.ptr)

unfoldable pub device_write : (ℕ → Device) → ℕ → Outcome (Option (ℕ × ℕ))
device_write devices dev = do d ← device_get devices dev; ok (call d.write d.ptr)

-- `do_request` by the type of the request: REQ_READ is 0 and REQ_WRITE is 1.
unfoldable pub do_request : (ℕ → Device) → ℕ → ℕ → Outcome (Option (ℕ × ℕ))
do_request devices type dev =
    if type == 0
    then device_read devices dev
    else (if type == 1 then device_write devices dev else halted)

-- The direction behind `request_nextreq`, true for DIRECT_DOWN, and the next request; NULL is `none`. A
-- request is the address of its `node`.
unfoldable pub request_nextreq : Nodes → ℕ → Bool → ℕ → Bool × Option ℕ
request_nextreq h list direct req =
    let direct' =
      if not direct && h.next req == tail list
      then true
      else (if direct && h.pre req == list then false else direct) in
    let next = if direct' then h.pre req else h.next req in
    (direct', if next == list || next == tail list then none else some next)
