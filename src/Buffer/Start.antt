-- ===== src/Buffer/Start.antt =====
-- The cache at the start. About `buffer_init` of kernel/buffer.c.
use kanaos.Prelude.{ℕ, ◌*◌, ◌≤◌, inr, refl}
use kanaos.Buffer.{Cache, buffer_init}
use kanaos.Buffer.Invariant.{Blocks, IsCache, Shows}

module _ {Disk : Type 0} (blocks : Blocks Disk) where
  -- Whatever the cache was before, `buffer_init` with memory at or behind address 1024 leaves one that
  -- satisfies `IsCache`, and in which each byte of each block is that on the disk.
  pub buffer_init-IsCache :
      (s : Cache Disk) (at : ℕ)
      → 1024 ≤ at
      → IsCache blocks (buffer_init at s)
        × ((dev block i : ℕ)
            → Shows blocks (buffer_init at s) dev block i (blocks.byte_on s.disk dev (block * 2) i))
  unfolding buffer_init
  buffer_init-IsCache s at l = (
    record {
      in_chain = λ i b k. absurd k;
      chains = λ i. tt;
      alone = λ b c h h' e e'. absurd (h.1);
      places = λ b h. absurd (h.1);
      on_disk = λ b h. absurd (h.1);
      idle = λ b i. absurd i;
      idle_distinct = tt;
      idle_listed = λ b h e. absurd (h.1);
      whole = λ b h e. absurd (h.1);
      clean = λ b h e e'. absurd (h.1);
      room = l;
    },
    λ dev block i. inr (λ b h e e'. absurd (h.1), refl),
  )
