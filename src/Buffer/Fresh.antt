-- ===== src/Buffer/Fresh.antt =====
-- A buffer that is in no chain, and how it comes into one. About `get_new_buffer` and the end of `getblk` of
-- kernel/buffer.c.
use kanaos.Prelude.{
  ℕ, ◌+◌, ◌-◌, ◌<◌, ◌≡◌, ◌≢◌, ◌⊎◌, inl, inr, refl, sym, ◌∙◌, false, update, ==_of_ne, Bool-cases,
  arith, none, some, ltb, ltb→lt,
}
use kanaos.List.Members.{In}
use kanaos.Buffer.{Cache, get_new_buffer, eof}
use kanaos.Buffer.Invariant.{Blocks, Held, Placed, IsCache, SameBlocks, updated, kept}

module _ {Disk : Type 0} where
  -- A buffer without users and in no chain.
  abbrev pub Loose : Cache Disk → ℕ → Type 0
  Loose s bf =
      ((i : ℕ) → ¬ (In bf (s.hash_table i)))
      × (s.count bf ≡ 0)
      × (s.dirty bf ≡ false)
      × (s.valid bf ≡ false)
      × Placed s bf

  -- The state behind `get_new_buffer`.
  abbrev pub grown : Cache Disk → Cache Disk
  grown s =
      let bf = s.buffer_ptr in
      record s {
        bf_data = update s.bf_data bf s.buffer_data;
        dev = update s.dev bf eof;
        block = update s.block bf 0;
        count = update s.count bf 0;
        dirty = update s.dirty bf false;
        valid = update s.valid bf false;
        buffer_ptr = s.buffer_ptr + 64;
        buffer_data = s.buffer_data - 1024;
      }

  pub get_new_buffer-cases :
      (s : Cache Disk)
      → (get_new_buffer s ≡ none)
        ⊎ ((get_new_buffer s ≡ some (grown s, s.buffer_ptr)) × (s.buffer_ptr + 64 < s.buffer_data))
  unfolding get_new_buffer
  get_new_buffer-cases s = elim (Bool-cases (ltb (s.buffer_ptr + 64) s.buffer_data)) [
    | inl e ↦ inr (rw e refl, ltb→lt (s.buffer_ptr + 64) s.buffer_data e)
    | inr e ↦ inl (rw e refl)
  ]

  module _ (blocks : Blocks Disk) where
    -- A buffer in a chain is none that is still to come.
    pub old_apart : (s : Cache Disk) (b : ℕ) → IsCache blocks s → Held s b → b ≢ s.buffer_ptr
    old_apart s b c h = let p = c.places b h in λ e. omega (arith, p.1, p.2, e)

    pub grown-IsCache :
        (s : Cache Disk)
        → IsCache blocks s
        → s.buffer_ptr + 64 < s.buffer_data
        → IsCache blocks (grown s)
    grown-IsCache s c more = record {
      in_chain = λ i b h. rw (==_of_ne b s.buffer_ptr (old_apart s b c (i, h))) (c.in_chain i b h);
      chains = c.chains;
      alone = λ b b' h h' e e'.
          c.alone b b' h h'
            (sym (kept s.dev s.buffer_ptr eof b (old_apart s b c h))
              ∙ e
              ∙ kept s.dev s.buffer_ptr eof b' (old_apart s b' c h'))
            (sym (kept s.block s.buffer_ptr 0 b (old_apart s b c h))
              ∙ e'
              ∙ kept s.block s.buffer_ptr 0 b' (old_apart s b' c h'));
      places = λ b h.
          let p = c.places b h in
          (
            p.0 + 1,
            omega (arith, p.1),
            omega arith,
            kept s.bf_data s.buffer_ptr s.buffer_data b (old_apart s b c h)
                ∙ omega (arith, p.3, c.room),
            p.4,
          );
      on_disk = λ b h. rw (==_of_ne b s.buffer_ptr (old_apart s b c h)) (c.on_disk b h);
      idle = λ b i.
          let was = c.idle b i in
          let ne = old_apart s b c (was.0) in
          (
            was.0,
            kept s.count s.buffer_ptr 0 b ne ∙ was.1,
            kept s.dirty s.buffer_ptr false b ne ∙ was.2,
          );
      idle_distinct = c.idle_distinct;
      idle_listed =
          λ b h e. c.idle_listed b h (sym (kept s.count s.buffer_ptr 0 b (old_apart s b c h)) ∙ e);
      whole = λ b h e.
          let ne = old_apart s b c h in
          kept s.valid s.buffer_ptr false b ne
          ∙ c.whole b h (sym (kept s.dirty s.buffer_ptr false b ne) ∙ e);
      clean = λ b h e e'.
          let ne = old_apart s b c h in
          λ i l. rw (==_of_ne b s.buffer_ptr ne) (
            c.clean b h (sym (kept s.valid s.buffer_ptr false b ne) ∙ e)
              (sym (kept s.dirty s.buffer_ptr false b ne) ∙ e') i l);
      room = omega (arith, c.room);
    }

    pub grown-Loose :
        (s : Cache Disk)
        → IsCache blocks s
        → s.buffer_ptr + 64 < s.buffer_data
        → Loose (grown s) s.buffer_ptr
    grown-Loose s c more = (
      λ i h. old_apart s s.buffer_ptr c (i, h) refl,
      updated s.count s.buffer_ptr 0,
      updated s.dirty s.buffer_ptr false,
      updated s.valid s.buffer_ptr false,
      (
        1,
        omega arith,
        omega arith,
        updated s.bf_data s.buffer_ptr s.buffer_data ∙ omega (arith, c.room),
        omega (arith, c.room),
      ),
    )

    pub grown-SameBlocks : (s : Cache Disk) → IsCache blocks s → SameBlocks blocks s (grown s)
    grown-SameBlocks s c dev block i v small l (inl (b, h, e, e', ok', w)) =
        let ne = ==_of_ne b s.buffer_ptr (old_apart s b c h) in
        inl (b, h, rw ne e, rw ne e', rw ne ok', rw ne w)
    grown-SameBlocks s c dev block i v small l (inr (out, w)) = inr (
      λ b h e e'.
          let ne = old_apart s b c h in
          kept s.valid s.buffer_ptr false b ne
          ∙ out b h (sym (kept s.dev s.buffer_ptr eof b ne) ∙ e)
              (sym (kept s.block s.buffer_ptr 0 b ne) ∙ e'),
      w,
    )
