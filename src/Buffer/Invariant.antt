-- ===== src/Buffer/Invariant.antt =====
-- What holds of the cache between two calls. About kernel/buffer.c.
use kanaos.Prelude.{
  ℕ, ◌+◌, ◌*◌, ◌^◌, ◌<◌, ◌≤◌, ◌≡◌, ◌≢◌, ◌⊎◌, inl, inr, ok, refl, true, false, ◌==◌, update,
  ==_of_ne, ==_refl, ==_iff, Bool-cases, arith,
}
use kanaos.List.Chain.{Distinct}
use kanaos.List.Members.{In}
use kanaos.Device.Request.{DiskDriver, request_read, request_write}
use kanaos.Buffer.{Cache, hash}

-- The disks as the users of the cache see them: which blocks there are, byte `i` of the block from a
-- sector on, and what a write of it makes of the disk.
pub record Blocks (Disk : Type 0) : Type 1 where
  pub Serves : (dev block : ℕ) → Type 0
  pub byte_on : Disk → (dev sector i : ℕ) → ℕ
  pub put_on : Disk → (dev sector : ℕ) → (ℕ → ℕ) → Disk

-- The requests for these blocks return. Each reads as it was written last, and a write leaves the
-- others as they were, so that none of the blocks stands where another does. A block is two sectors.
pub record IsDisk {Disk : Type 0} (driver : DiskDriver Disk) (blocks : Blocks Disk) : Type 0 where
  pub small : (dev block : ℕ) → blocks.Serves dev block → block < 2 ^ 31
  pub reads :
      (d : Disk) (dev block : ℕ) (old : ℕ → ℕ)
      → blocks.Serves dev block
      → (f : ℕ → ℕ) × (request_read driver d dev (block * 2) old ≡ ok f)
        × ((i : ℕ) → i < 1024 → f i ≡ blocks.byte_on d dev (block * 2) i)
  pub writes :
      (d : Disk) (dev block : ℕ) (f : ℕ → ℕ)
      → blocks.Serves dev block
      → request_write driver d dev (block * 2) f ≡ ok (blocks.put_on d dev (block * 2) f)
  pub same_block :
      (d : Disk) (dev block : ℕ) (f : ℕ → ℕ) (i : ℕ)
      → blocks.Serves dev block
      → i < 1024
      → blocks.byte_on (blocks.put_on d dev (block * 2) f) dev (block * 2) i ≡ f i
  pub other_block :
      (d : Disk) (dev block dev' block' : ℕ) (f : ℕ → ℕ) (i : ℕ)
      → blocks.Serves dev block
      → blocks.Serves dev' block'
      → i < 1024
      → (dev' ≢ dev) ⊎ (block' ≢ block)
      → blocks.byte_on (blocks.put_on d dev (block * 2) f) dev' (block' * 2) i
        ≡ blocks.byte_on d dev' (block' * 2) i

module _ {Disk : Type 0} where
  -- The buffer is in a chain of the table.
  abbrev pub Held : Cache Disk → ℕ → Type 0
  Held s bf = (i : ℕ) × In bf (s.hash_table i)

  -- The buffer is the `k`-th before `buffer_ptr`, and its bytes the `k`-th block behind `buffer_data`.
  abbrev pub Placed : Cache Disk → ℕ → Type 0
  Placed s bf =
      (k : ℕ) × (bf + 64 * k ≡ s.buffer_ptr)
      × (0 < k)
      × (s.bf_data bf ≡ s.buffer_data + 1024 * k)
      × (bf ≢ 0)

  -- The buffers with users stay where they are and for the blocks that they are for; `n` tells how many users
  -- they have then.
  abbrev pub Keeps : Cache Disk → Cache Disk → (ℕ → ℕ) → Type 0
  Keeps s t n =
      (c : ℕ)
      → Held s c
      → 0 < s.count c
      → Held t c
        × (t.bf_data c ≡ s.bf_data c)
        × (t.dev c ≡ s.dev c)
        × (t.block c ≡ s.block c)
        × (s.valid c ≡ true → t.valid c ≡ true)
        × (t.count c ≡ n c)

  module _ (blocks : Blocks Disk) where
    -- The bytes of the buffer are those of its block on the disk.
    abbrev pub Agrees : Cache Disk → ℕ → Type 0
    Agrees s bf =
        (i : ℕ)
        → i < 1024
        → s.mem (s.bf_data bf + i) ≡ blocks.byte_on s.disk (s.dev bf) (s.block bf * 2) i

    pub record IsCache (s : Cache Disk) : Type 0 where
      pub in_chain : (i bf : ℕ) → In bf (s.hash_table i) → i ≡ hash (s.dev bf) (s.block bf)
      pub chains : (i : ℕ) → Distinct (s.hash_table i)
      -- No two buffers are for one block.
      pub alone :
          (b c : ℕ) → Held s b → Held s c → s.dev b ≡ s.dev c → s.block b ≡ s.block c → b ≡ c
      pub places : (b : ℕ) → Held s b → Placed s b
      pub on_disk : (b : ℕ) → Held s b → blocks.Serves (s.dev b) (s.block b)
      -- The free buffers are those without users, and they are not dirty.
      pub idle : (b : ℕ) → In b s.free_list → Held s b × (s.count b ≡ 0) × (s.dirty b ≡ false)
      pub idle_distinct : Distinct s.free_list
      pub idle_listed : (b : ℕ) → Held s b → s.count b ≡ 0 → In b s.free_list
      pub whole : (b : ℕ) → Held s b → s.dirty b ≡ true → s.valid b ≡ true
      pub clean : (b : ℕ) → Held s b → s.valid b ≡ true → s.dirty b ≡ false → Agrees s b
      pub room : 1024 ≤ s.buffer_ptr

    -- Byte `i` of a block as its users see it: that of the buffer that holds the block, or else that on
    -- the disk.
    abbrev pub Shows : Cache Disk → ℕ → ℕ → ℕ → ℕ → Type 0
    Shows s dev block i v =
        ((b : ℕ) × Held s b
          × (s.dev b ≡ dev)
          × (s.block b ≡ block)
          × (s.valid b ≡ true)
          × (v ≡ s.mem (s.bf_data b + i)))
        ⊎ (((b : ℕ) → Held s b → s.dev b ≡ dev → s.block b ≡ block → s.valid b ≡ false)
            × (v ≡ blocks.byte_on s.disk dev (block * 2) i))

    -- Every block shows the same bytes as before.
    abbrev pub SameBlocks : Cache Disk → Cache Disk → Type 0
    SameBlocks s t =
        (dev block i v : ℕ)
        → blocks.Serves dev block
        → i < 1024
        → Shows s dev block i v
        → Shows t dev block i v

-- Reads of an updated array.
pub updated {ℓ} : {A : Type ℓ} (f : ℕ → A) (i : ℕ) (v : A) → update f i v i ≡ v
updated f i v = rw (==_refl i) refl

pub kept {ℓ} : {A : Type ℓ} (f : ℕ → A) (i : ℕ) (v : A) (j : ℕ) → j ≢ i → update f i v j ≡ f j
kept f i v j ne = rw (==_of_ne j i ne) refl

pub eq_or_ne : (a b : ℕ) → (a ≡ b) ⊎ (a ≢ b)
eq_or_ne a b = elim (Bool-cases (a == b)) [
  | inl e ↦ inl ((==_iff a b).0 e)
  | inr e ↦ inr (λ h. ground arith)
]
