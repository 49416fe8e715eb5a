-- ===== src/Buffer.antt =====
-- kernel/buffer.c: the cache of disk blocks. A `struct buffer_t` is its address; `hash_table` and
-- `free_list` are the sequences of buffers that the calls of lib/list.c keep (List). The requests are
-- those of Device/Request, with the functions of the device table as its parameter. The lock of a
-- buffer is taken and given back within `bread` and not held in the model, and `wait_list`, which
-- nothing fills, is empty. A task that finds no buffer blocks and is not woken: `none`.
pub mod Lists
pub mod Invariant
pub mod Lookup
pub mod Fresh
pub mod Take
pub mod Evict
pub mod Keep
pub mod Getblk
pub mod Transfer
pub mod Read
pub mod Write
pub mod Release
pub mod Start
pub mod Samples
mod Tests
use kanaos.Prelude.{
  ℕ, zero, suc, ◌+◌, ◌-◌, ◌*◌, ◌/◌, ◌%◌, ◌^◌, bit_xor, Bool, true, false, ◌&&◌, not, ltb, leb, ◌==◌,
  if◌then◌else◌, List, [], ◌∷◌, Option, none, some, update, Outcome, ok, assert, ◌>>=◌, ◌>>◌,
}
use kanaos.Strings.{Memory}
use kanaos.Device.Request.{DiskDriver, request_read, request_write}
use kanaos.List.Walk.{member}

abbrev pub block_size : ℕ
block_size = 1024

abbrev pub block_secs : ℕ
block_secs = block_size / 512

abbrev pub hash_count : ℕ
hash_count = 31

abbrev pub kernel_buffer_size : ℕ
kernel_buffer_size = 0x400000

-- `sizeof(struct buffer_t)`: five words, two nodes and a lock of 28 bytes, and two flags.
abbrev pub buffer_t_size : ℕ
buffer_t_size = 64

-- -1 as an `int32`.
abbrev pub eof : ℕ
eof = 2 ^ 32 - 1

pub record Cache (Disk : Type 0) : Type 0 where
  pub buffer_ptr : ℕ
  pub buffer_data : ℕ
  pub free_list : List ℕ
  pub hash_table : ℕ → List ℕ
  pub bf_data : ℕ → ℕ
  pub dev : ℕ → ℕ
  pub block : ℕ → ℕ
  pub count : ℕ → ℕ
  pub dirty : ℕ → Bool
  pub valid : ℕ → Bool
  pub mem : Memory
  pub disk : Disk

unfoldable pub hash : ℕ → ℕ → ℕ
hash dev block = bit_xor dev block % hash_count

-- `list_remove` of one that is in the list.
unfoldable pub remove_one : ℕ → List ℕ → List ℕ
remove_one a [] = []
remove_one a (x ∷ xs) = let rest = x ∷ remove_one a xs in if x == a then xs else rest

-- `list_pop_back`: what stays, and the last; `none` for an empty list.
abbrev pub pop_back : List ℕ → Option (List ℕ × ℕ)
pop_back [] = none
pop_back (x ∷ []) = some ([], x)
pop_back (x ∷ (y ∷ ys)) = elim (pop_back (y ∷ ys)) [
  | none ↦ none
  | some (front, last) ↦ some (x ∷ front, last)
]

module _ {Disk : Type 0} where
  -- The `for` of `get_from_hash_table`.
  unfoldable pub find_in : Cache Disk → ℕ → ℕ → List ℕ → Option ℕ
  find_in s dev block [] = none
  find_in s dev block (ptr ∷ rest) =
      let next = find_in s dev block rest in
      if s.dev ptr == dev && s.block ptr == block then some ptr else next

  -- NULL is `none`.
  unfoldable pub get_from_hash_table : Cache Disk → ℕ → ℕ → Option (Cache Disk × ℕ)
  get_from_hash_table s dev block = elim (find_in s dev block (s.hash_table (hash dev block))) [
    | none ↦ none
    | some bf ↦ some (
      record s {
        free_list = if member bf s.free_list then remove_one bf s.free_list else s.free_list;
      },
      bf,
    )
  ]

  unfoldable pub hash_locate : Cache Disk → ℕ → Outcome (Cache Disk)
  hash_locate s bf =
      let idx = hash (s.dev bf) (s.block bf) in
      assert (not (member bf (s.hash_table idx)))
      >> ok (record s { hash_table = update s.hash_table idx (bf ∷ s.hash_table idx) })

  unfoldable pub hash_remove : Cache Disk → ℕ → Outcome (Cache Disk)
  hash_remove s bf =
      let idx = hash (s.dev bf) (s.block bf) in
      assert (member bf (s.hash_table idx))
      >> ok (record s { hash_table = update s.hash_table idx (remove_one bf (s.hash_table idx)) })

  unfoldable pub get_new_buffer : Cache Disk → Option (Cache Disk × ℕ)
  get_new_buffer s =
      let bf = s.buffer_ptr in
      if ltb (s.buffer_ptr + buffer_t_size) s.buffer_data
      then some (
        record s {
          bf_data = update s.bf_data bf s.buffer_data;
          dev = update s.dev bf eof;
          block = update s.block bf 0;
          count = update s.count bf 0;
          dirty = update s.dirty bf false;
          valid = update s.valid bf false;
          buffer_ptr = s.buffer_ptr + buffer_t_size;
          buffer_data = s.buffer_data - block_size;
        },
        bf,
      )
      else none

  -- The branch of `get_free_buffer` that takes the last of the free list.
  unfoldable pub reuse_buffer : Cache Disk → Outcome (Option (Cache Disk × ℕ))
  reuse_buffer s = elim (pop_back s.free_list) [
    | none ↦ ok none
    | some (front, bf) ↦
        (hash_remove (record s { free_list = front }) bf >>= λ s'.
        ok (some (record s' { valid = update s'.valid bf false }, bf)))
  ]

  unfoldable pub get_free_buffer : Cache Disk → Outcome (Option (Cache Disk × ℕ))
  get_free_buffer s = elim (get_new_buffer s) [ none ↦ reuse_buffer s | some got ↦ ok (some got) ]

  -- From the assertions of `getblk` on.
  unfoldable pub take_buffer : ℕ → ℕ → Cache Disk → ℕ → Outcome (Option (Cache Disk × ℕ))
  take_buffer dev block s bf = do
    _ ← assert (s.count bf == 0)
    _ ← assert (not (s.dirty bf))
    s' ←
        hash_locate
          (record s {
            count = update s.count bf 1;
            dev = update s.dev bf dev;
            block = update s.block bf block;
          })
          bf
    ok (some (s', bf))

  unfoldable pub getblk : Cache Disk → ℕ → ℕ → Outcome (Option (Cache Disk × ℕ))
  getblk s dev block = elim (get_from_hash_table s dev block) [
    | some (s', bf) ↦ ok (some (record s' { count = update s'.count bf (s'.count bf + 1) }, bf))
    | none ↦
        (get_free_buffer s >>= λ got. elim got [
          | none ↦ ok none
          | some (s', bf) ↦ take_buffer dev block s' bf
        ])
  ]

  -- The block as `device_request` has it: its first sector.
  abbrev pub sector : Cache Disk → ℕ → ℕ
  sector s bf = s.block bf * block_secs % 2 ^ 32

  -- From `bf->count--` on; the count is an `int32` that is not negative before.
  unfoldable pub let_go : Cache Disk → ℕ → Outcome (Cache Disk)
  let_go s bf = do
    _ ← assert (not (s.count bf == 0))
    let s' : Cache Disk = record s { count = update s.count bf (s.count bf - 1) }
    if s.count bf == 1
        then (assert (not (member bf s.free_list))
            >> ok (record s' { free_list = bf ∷ s.free_list }))
        else ok s'

  -- The buffer behind the request and the two statements under `if (!bf->valid)`.
  unfoldable pub filled : Cache Disk → ℕ → (ℕ → ℕ) → Cache Disk
  filled s bf bytes =
      let at = s.bf_data bf in
      record s {
        mem = λ a. if leb at a && ltb a (at + block_size) then bytes (a - at) else s.mem a;
        dirty = update s.dirty bf false;
        valid = update s.valid bf true;
      }

  module _ (driver : DiskDriver Disk) where
    unfoldable pub fill : Cache Disk → ℕ → Outcome (Cache Disk)
    fill s bf =
        request_read driver s.disk (s.dev bf) (sector s bf) (λ i. s.mem (s.bf_data bf + i))
        >>= λ bytes. ok (filled s bf bytes)

    unfoldable pub bread : Cache Disk → ℕ → ℕ → Outcome (Option (Cache Disk × ℕ))
    bread s dev block = getblk s dev block >>= λ got. elim got [
      | none ↦ ok none
      | some (s', bf) ↦
          (if s'.valid bf then ok (some (s', bf)) else (fill s' bf >>= λ t. ok (some (t, bf))))
    ]

    unfoldable pub bwrite : Cache Disk → ℕ → Outcome (Cache Disk)
    bwrite s bf =
        assert (not (bf == 0))
        >> (if s.dirty bf
            then (request_write driver s.disk (s.dev bf) (sector s bf)
                  (λ i. s.mem (s.bf_data bf + i))
                >>= λ d. ok (record s {
                  disk = d;
                  dirty = update s.dirty bf false;
                  valid = update s.valid bf true;
                }))
            else ok s)

    unfoldable pub brelse : Cache Disk → ℕ → Outcome (Cache Disk)
    brelse s bf =
        let release = (if s.dirty bf then bwrite s bf else ok s) >>= λ s'. let_go s' bf in
        if bf == 0 then ok s else release

  -- `malloc` gives the address; the rest of the memory is as it is. No index is beyond `hash_count`.
  unfoldable pub buffer_init : ℕ → Cache Disk → Cache Disk
  buffer_init at s = record s {
    buffer_ptr = at;
    buffer_data = at + kernel_buffer_size - block_size;
    free_list = [];
    hash_table = λ _. [];
  }
