-- ===== src/Buffer/Keep.antt =====
-- The buffers in use stay. About `get_free_buffer` and the end of `getblk` of kernel/buffer.c.
use kanaos.Prelude.{
  ℕ, ◌+◌, ◌≡◌, ◌≢◌, inl, inr, refl, sym, ap, ◌∙◌, List, [], ◌∷◌, ◌++◌, arith, subst, true, update,
  ==_of_ne,
}
use kanaos.List.Members.{In, In-right}
use kanaos.Buffer.{Cache, filled}
use kanaos.Buffer.Invariant.{Blocks, Keeps, IsCache, updated, kept, eq_or_ne}
use kanaos.Buffer.Fresh.{Loose, grown, old_apart}
use kanaos.Buffer.Take.{given, Held-given, Loose-apart}
use kanaos.Buffer.Evict.{evicted, Held-evicted}

module _ {Disk : Type 0} (blocks : Blocks Disk) where
  pub grown-Keeps : (s : Cache Disk) → IsCache blocks s → Keeps s (grown s) s.count
  grown-Keeps s inv c h l =
      let ne = ==_of_ne c s.buffer_ptr (old_apart blocks s c inv h) in
      (h, rw ne refl, rw ne refl, rw ne refl, λ v. rw ne v, rw ne refl)

  pub evicted-Keeps :
      (s : Cache Disk) (front : List ℕ) (b : ℕ)
      → IsCache blocks s
      → s.free_list ≡ front ++ (b ∷ [])
      → Keeps s (evicted s front b) s.count
  evicted-Keeps s front b inv e c h l =
      let was = inv.idle b (subst (In b) (sym e) (In-right b front (b ∷ []) (inl refl))) in
      let ne : c ≢ b = λ is. omega (arith, ap s.count is, was.1, l) in
      (Held-evicted blocks s front b c ne h, refl, refl, refl, λ v. rw (==_of_ne c b ne) v, refl)

  pub given-Keeps :
      (s t : Cache Disk) (dev block b : ℕ)
      → Loose t b
      → Keeps s t s.count
      → Keeps s (given t dev block b) (update s.count b (s.count b + 1))
  given-Keeps s t dev block b loose keeps c h l =
      let (h', at, e, e', v, n) = keeps c h l in
      let ne = ==_of_ne c b (Loose-apart blocks t b c loose h') in
      (Held-given blocks t dev block b c h', at, rw ne e, rw ne e', v, rw ne n)

  -- The fields that `filled` writes are not those of `Keeps`, but for `valid`.
  pub filled-Keeps :
      (s t : Cache Disk) (b : ℕ) (bytes n : ℕ → ℕ) → Keeps s t n → Keeps s (filled t b bytes) n
  unfolding filled
  filled-Keeps s t b bytes n keeps c h l =
      let (h', at, e, e', v, m) = keeps c h l in
      (
        h',
        at,
        e,
        e',
        λ good. elim (eq_or_ne c b) [
          | inl is ↦ ap (update t.valid b true) is ∙ updated t.valid b true
          | inr ne ↦ kept t.valid b true c ne ∙ v good
        ],
        m,
      )
