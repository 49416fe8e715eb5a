-- ===== src/Inode/File/Bounds.antt =====
-- The loops of `inode_read` and `inode_write` of fs/inode.c end.
use kanaos.Prelude.{
  ℕ, zero, suc, ◌+◌, ◌-◌, ◌%◌, ◌^◌, ◌<◌, ◌≤◌, ◌≡◌, ◌≢◌, inl, inr, refl, ap, fun_ext, true, false,
  not, ◌==◌, arith, Option, Outcome, assert, ◌>>=◌, ◌>>◌, Bool-cases,
}
use kanaos.Strings.{memcpy}
use kanaos.Buffer.{Cache, bread, brelse}
use kanaos.Device.Request.{DiskDriver}
use kanaos.FsMap.{Super}
use kanaos.Bmap.{Inode, when_found, bmap}
use kanaos.Inode.{block_of, start_of, chars_of}
use kanaos.Inode.File.{read_loop, write_loop, put_chars}

-- A round takes some bytes, and no more than there are.
pub chars_of-bounds :
    (offset left : ℕ)
    → offset < 2 ^ 32
    → left ≢ 0
    → (0 < chars_of (start_of offset) left) × (chars_of (start_of offset) left ≤ left)
chars_of-bounds offset left l ne = (ground arith, ground arith)

when_found-same :
    {A : Type 0} {B : Type 0} (call : Outcome (Option A)) (f g : A → Outcome (Option B))
    → ((x : A) → f x ≡ g x)
    → when_found call f ≡ when_found call g
when_found-same call f g same = ap (when_found call) (fun_ext same)

module _ {Disk : Type 0} (driver : DiskDriver Disk) (super_table : ℕ → Super) where
  -- Every number of rounds above the number of bytes that are left makes `inode_read` do the same: one
  -- more round than there are bytes is enough.
  pub read_loop-enough :
      (fuel fuel' : ℕ) (s : Cache Disk) (inode : Inode) (buf left offset : ℕ)
      → offset < 2 ^ 32
      → left < fuel
      → left < fuel'
      → read_loop driver super_table fuel s inode buf left offset
        ≡ read_loop driver super_table fuel' s inode buf left offset
  unfolding read_loop
  read_loop-enough zero fuel' s inode buf left offset l h h' = absurd (omega (arith, h))
  read_loop-enough (suc fuel) zero s inode buf left offset l h h' = absurd (omega (arith, h'))
  read_loop-enough (suc fuel) (suc fuel') s inode buf left offset l h h' =
      elim (Bool-cases (left == 0)) [
        | inl e ↦ rw e refl
        | inr e ↦
            let b = chars_of-bounds offset left l (λ z. some_left left e z) in
            rw e (
              when_found-same (bmap driver super_table s inode (block_of offset) false) _ _ (λ x.
                ap (λ z. assert (not (x.1 == 0)) >> z)
                  (when_found-same (bread driver (x.0) inode.dev (x.1)) _ _ (λ y.
                    ap
                      (λ k.
                        brelse driver
                          (record (y.0) {
                            mem =
                                memcpy (y.0).mem buf
                                  (((y.0).bf_data (y.1) + start_of offset) % 2 ^ 32)
                                  (chars_of (start_of offset) left);
                          })
                          (y.1)
                        >>= k)
                      (fun_ext (λ t.
                        read_loop-enough fuel fuel' t inode (buf + chars_of (start_of offset) left)
                          (left - chars_of (start_of offset) left)
                          ((offset + chars_of (start_of offset) left) % 2 ^ 32) (omega arith)
                          (omega (arith, b, h)) (omega (arith, b, h'))))))))
      ]
    where
      some_left : (n : ℕ) → (n == 0) ≡ false → n ≡ 0 → ⊥
      some_left n e z = ground arith

  -- Every number of rounds above the number of bytes that are left makes `inode_write` do the same: one
  -- more round than there are bytes is enough.
  pub write_loop-enough :
      (fuel fuel' : ℕ) (s : Cache Disk) (inode : Inode) (buf left offset : ℕ)
      → offset < 2 ^ 32
      → left < fuel
      → left < fuel'
      → write_loop driver super_table fuel s inode buf left offset
        ≡ write_loop driver super_table fuel' s inode buf left offset
  unfolding write_loop
  write_loop-enough zero fuel' s inode buf left offset l h h' = absurd (omega (arith, h))
  write_loop-enough (suc fuel) zero s inode buf left offset l h h' = absurd (omega (arith, h'))
  write_loop-enough (suc fuel) (suc fuel') s inode buf left offset l h h' =
      elim (Bool-cases (left == 0)) [
        | inl e ↦ rw e refl
        | inr e ↦
            let b = chars_of-bounds offset left l (λ z. some_left left e z) in
            rw e (
              when_found-same (bmap driver super_table s inode (block_of offset) true) _ _ (λ x.
                ap (λ z. assert (not (x.1 == 0)) >> z)
                  (when_found-same (bread driver (x.0) inode.dev (x.1)) _ _ (λ y.
                    ap
                      (λ k.
                        brelse driver
                          (put_chars (y.0) inode (y.1) buf (start_of offset)
                            (chars_of (start_of offset) left)
                            ((offset + chars_of (start_of offset) left) % 2 ^ 32))
                          (y.1)
                        >>= k)
                      (fun_ext (λ t.
                        write_loop-enough fuel fuel' t inode (buf + chars_of (start_of offset) left)
                          (left - chars_of (start_of offset) left)
                          ((offset + chars_of (start_of offset) left) % 2 ^ 32) (omega arith)
                          (omega (arith, b, h)) (omega (arith, b, h'))))))))
      ]
    where
      some_left : (n : ℕ) → (n == 0) ≡ false → n ≡ 0 → ⊥
      some_left n e z = ground arith
