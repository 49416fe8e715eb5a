-- ===== src/Device/Tests.antt =====
-- A table of devices and a list of requests, and instances of the theorems about them.
use kanaos.Prelude.{
  ℕ, ◌≡◌, ◌≢◌, refl, true, false, List, [], ◌∷◌, none, some, ok, arith, ◌==◌, if◌then◌else◌,
}
use kanaos.List.{Nodes}
use kanaos.List.Chain.{IsList}
use kanaos.Device.{
  Device, Driver, device_install, device_get, device_find, installed, request_nextreq,
}
use kanaos.Device.Table.{Finds, FirstNull, device_get-device_install, device_find_lem}
use kanaos.Device.Elevator.{request_nextreq-next_stop}

abbrev blank : Device
blank = record {
  name = [];
  dev_type = 0;
  subtype = 0;
  dev = 0;
  parent = 0;
  ptr = 0;
  direct = false;
  ioctl = 0;
  read = 0;
  write = 0;
}

-- Place 1 is in use, by an IDE disk.
abbrev devices : ℕ → Device
devices i =
    if i == 1 then record blank { dev_type = 2; subtype = 4; dev = 1 } else record blank { dev = i }

abbrev partition : Driver
partition = record {
  new_type = 2;
  new_subtype = 5;
  new_ptr = 4096;
  new_name = b'h' ∷ (b'd' ∷ (b'a' ∷ (b'1' ∷ [])));
  new_parent = 1;
  new_ioctl = 64;
  new_read = 128;
  new_write = 192;
}

two-FirstNull : FirstNull devices 1 2
two-FirstNull = (λ j lo hi. ground arith, refl, omega arith)

device_get-device_install_run :
    (devices' : ℕ → Device) × (device_install devices partition ≡ ok (devices', 2))
    × (device_get devices' 2 ≡ ok (installed (devices 2) partition))
    × ((j : ℕ) → j ≢ 2 → devices' j ≡ devices j)
device_get-device_install_run =
    device_get-device_install devices partition 2 (omega arith) refl two-FirstNull (omega arith)

device_find_lem_example : Finds devices 4 0 64 0 0 (device_find 64 devices 4 0 0 0)
device_find_lem_example = device_find_lem devices 4 0

find_disk : device_find 64 devices 4 0 0 0 ≡ some 1
unfolding device_find
find_disk = refl

-- The list at 100 with the requests 200, 300 and 400.
abbrev requests : Nodes
requests = record {
  pre = λ a.
      if a == 200
      then 100
      else (if a == 300 then 200 else (if a == 400 then 300 else (if a == 108 then 400 else 0)));
  next = λ a.
      if a == 100
      then 200
      else (if a == 200 then 300 else (if a == 300 then 400 else (if a == 400 then 108 else 0)));
}

requests-IsList : IsList requests 100 (200 ∷ (300 ∷ (400 ∷ [])))
requests-IsList = (
  (refl, refl, (refl, refl, (refl, refl, (refl, refl)))),
  (
    (omega arith, (omega arith, (omega arith, (omega arith, tt)))),
    (
      (omega arith, (omega arith, (omega arith, tt))),
      ((omega arith, (omega arith, tt)), ((omega arith, tt), (tt, tt))),
    ),
  ),
  (omega arith, (omega arith, (omega arith, (omega arith, (omega arith, tt))))),
  refl,
  refl,
)

abbrev two_before : List ℕ
two_before = 200 ∷ (300 ∷ [])

abbrev none_behind : List ℕ
none_behind = []

-- At the end of the list the elevator turns.
request_nextreq-next_stop_example :
    (request_nextreq requests 100 false 400 ≡ (true, some 300))
    × ((request_nextreq requests 100 false 400).1 ≡ none → (two_before ≡ []) × (none_behind ≡ []))
request_nextreq-next_stop_example =
    request_nextreq-next_stop requests 100 400 false two_before none_behind requests-IsList
