-- ===== src/Bmap/Lookup.antt =====
-- `bmap` of fs/bmap.c when it makes no block.
use kanaos.Prelude.{
  ℕ, suc, ◌+◌, ◌*◌, ◌/◌, ◌%◌, ◌^◌, ◌<◌, ◌≡◌, ◌≢◌, ◌⊎◌, inl, inr, refl, sym, ap, ◌∙◌, List, [],
  subst, false, ◌==◌, arith, Option, none, some, Outcome, ok, ==_of_ne, Bool-cases,
}
use kanaos.Buffer.{Cache}
use kanaos.Device.Request.{DiskDriver}
use kanaos.Buffer.Invariant.{Blocks, IsDisk, Held, IsCache, Shows, SameBlocks, updated}
use kanaos.Buffer.Read.{Reads, bread-Reads}
use kanaos.List.Members.{In, member_none}
use kanaos.Buffer.Lookup.{without, hit-IsCache}
use kanaos.Buffer.Release.{brelse-IsCache}
use kanaos.FsMap.{Super}
use kanaos.Bmap.{entry, new_zone, reckon}
use kanaos.Bmap.Keep.{more, less, Stays, Keeps-Stays, Stays-back, Stays-then}
use kanaos.Bmap.Zones.{ShowsWord}

module _ {Disk : Type 0} (driver : DiskDriver Disk) (blocks : Blocks Disk)
    (super_table : ℕ → Super) where
  -- A cache as it should be, with a buffer that has a user.
  abbrev pub InUse : Cache Disk → ℕ → Type 0
  InUse s b = IsCache blocks s × Held s b × (0 < s.count b)

  -- The call waits, and then no buffer was free and `b` has other users; or it returns `r` and gives
  -- back a user of `b`, and every block shows what it showed.
  abbrev pub Answers : Cache Disk → ℕ → Outcome (Option (Cache Disk × ℕ)) → ℕ → Type 0
  Answers s b call r =
      ((call ≡ ok none) × (s.free_list ≡ []) × (s.count b ≢ 1))
      ⊎ ((t : Cache Disk) × (call ≡ ok (some (t, r)))
          × IsCache blocks t
          × SameBlocks blocks s t
          × Stays s t (less s.count b))

  new_zone-none :
      (s : Cache Disk) (dev array buf index : ℕ)
      → new_zone driver super_table s dev false array buf index ≡ ok s
  unfolding new_zone
  new_zone-none s dev array buf index = elim (Bool-cases (entry s array index == 0)) [
    | inl e ↦ rw e refl
    | inr e ↦ rw e refl
  ]

  -- The last round.
  pub last_round :
      (s : Cache Disk) (dev array b index block divider : ℕ)
      → IsDisk driver blocks
      → InUse s b
      → Answers s b
          (reckon driver super_table 0 s dev false array b index block divider)
          (entry s array index)
  unfolding reckon
  last_round s dev array b index block divider is_disk (inv, h, l) =
      let (t, e, inv', _, _, _, same, bytes, keeps, _) =
        brelse-IsCache driver blocks s b is_disk inv h l in
      inr (
        t,
        rw (reckon, new_zone-none s dev array b index)
            (rw e (
              ap (λ m. ok (some (t, m (array + 2 * index) + 256 * m (array + 2 * index + 1))))
                bytes)),
        inv',
        same,
        Keeps-Stays s t (less s.count b) keeps,
      )

  -- A round before it, with no block of indexes.
  pub no_block :
      (level : ℕ) (s : Cache Disk) (dev array b index block divider : ℕ)
      → IsDisk driver blocks
      → InUse s b
      → entry s array index ≡ 0
      → Answers s b
          (reckon driver super_table (suc level) s dev false array b index block divider)
          0
  unfolding reckon
  no_block level s dev array b index block divider is_disk (inv, h, l) empty =
      let (t, e, inv', _, _, _, same, bytes, keeps, _) =
        brelse-IsCache driver blocks s b is_disk inv h l in
      let at : entry t array index ≡ 0 =
        ap (λ m. m (array + 2 * index) + 256 * m (array + 2 * index + 1)) bytes ∙ empty in
      inr (
        t,
        rw (reckon, new_zone-none s dev array b index) (rw e (rw at refl)),
        inv',
        same,
        Keeps-Stays s t (less s.count b) keeps,
      )

  -- `bread` shows the entries of a block of indexes.
  Reads-entry :
      (s t : Cache Disk) (dev z i b r : ℕ)
      → Reads driver blocks s dev z t b
      → i < 512
      → ShowsWord blocks s dev z (2 * i) r
      → entry t (t.bf_data b) i ≡ r
  Reads-entry s t dev z i b r (_, _, reads) l (lo, hi, sh, sh', e) =
      let low = reads (2 * i) lo (omega (arith, l)) sh in
      let high : t.mem (t.bf_data b + 2 * i + 1) ≡ hi =
        ap t.mem (after (t.bf_data b) (2 * i)) ∙ reads (2 * i + 1) hi (omega (arith, l)) sh' in
      omega (arith, low, high, e)
    where
      after : (a n : ℕ) → a + n + 1 ≡ a + (n + 1)
      after a n = omega arith

  -- When no buffer is free behind `brelse`, none was before, and it did not free its buffer.
  all_taken :
      (s t : Cache Disk) (b : ℕ)
      → (s.count b ≡ 1 → In b t.free_list)
      → (s.count b ≢ 1 → t.free_list ≡ s.free_list)
      → t.free_list ≡ []
      → (s.free_list ≡ []) × (s.count b ≢ 1)
  all_taken s t b last others empty =
      let ne : s.count b ≢ 1 = λ one. subst (λ l. In b l) empty (last one) in
      (sym (others ne) ∙ empty, ne)

  still : {a b : List ℕ} {n : ℕ} → (n ≡ 1) ⊎ (a ≡ b) → n ≢ 1 → a ≡ [] → b ≡ []
  still (inl one) ne empty = absurd (ne one)
  still (inr same) ne empty = sym same ∙ empty

  -- A round with a block of indexes, from what the next rounds answer.
  pub next_round :
      (level : ℕ) (s : Cache Disk) (dev array b index block divider z w r : ℕ)
      → IsDisk driver blocks
      → InUse s b
      → entry s array index ≡ z
      → z ≢ 0
      → blocks.Serves dev z
      → block / divider % 2 ^ 16 < 512
      → ShowsWord blocks s dev z (2 * (block / divider % 2 ^ 16)) w
      → ((t : Cache Disk) (c : ℕ)
          → InUse t c
          → SameBlocks blocks s t
          → entry t (t.bf_data c) (block / divider % 2 ^ 16) ≡ w
          → Answers t c
              (reckon driver super_table level t dev false
                (t.bf_data c)
                c
                (block / divider % 2 ^ 16)
                (block % divider)
                (divider / 512))
              r)
      → Answers s b
          (reckon driver super_table (suc level) s dev false array b index block divider)
          r
  unfolding reckon
  next_round level s dev array b index block divider z w r is_disk (inv, h, l) at ne small inside sh
        next =
      let i = block / divider % 2 ^ 16 in
      let (t, e, inv', _, _, last, same, bytes, keeps, others) =
        brelse-IsCache driver blocks s b is_disk inv h l in
      let full : t.free_list ≡ [] → (s.free_list ≡ []) × (s.count b ≢ 1) =
        λ empty. all_taken s t b (last.1) others empty in
      let at' : entry t array index ≡ z =
        ap (λ m. m (array + 2 * index) + 256 * m (array + 2 * index + 1)) bytes ∙ at in
      let (lo, hi, low, high, word) = sh in
      let sh' : ShowsWord blocks t dev z (2 * i) w = (
        lo,
        hi,
        same dev z (2 * i) lo small (omega (arith, inside)) low,
        same dev z (2 * i + 1) hi small (omega (arith, inside)) high,
        word,
      ) in
      elim (bread-Reads driver blocks t dev z is_disk inv' small) [
        | inl (waits, empty, _) ↦ inl (
          rw (reckon, new_zone-none s dev array b index)
              (rw e (rw (at', ==_of_ne z 0 ne) (rw waits refl))),
          (full empty).0,
          (full empty).1,
        )
        | inr (u, c, reads, (gives, valid, shown)) ↦
            let (inv'', h', _, _, used, same', keeps', listed) = gives in
            let back : (dev' block' i' v : ℕ)
                → blocks.Serves dev' block'
                → i' < 1024
                → Shows blocks s dev' block' i' v
                → Shows blocks u dev' block' i' v =
              λ dev' block' i' v m m' shows.
                same' dev' block' i' v m m' (same dev' block' i' v m m' shows) in
            elim (next u c (inv'', h', used) back
              (Reads-entry t u dev z i c w (gives, valid, shown) inside sh')) [
                | inl (stop, empty, ne_one) ↦ inl (
                  rw (reckon, new_zone-none s dev array b index)
                      (rw e (rw (at', ==_of_ne z 0 ne) (rw reads stop))),
                  (full (still listed ne_one empty)).0,
                  (full (still listed ne_one empty)).1,
                )
                | inr (v, done, inv3, same3, stays) ↦ inr (
                  v,
                  rw (reckon, new_zone-none s dev array b index)
                      (rw e (rw (at', ==_of_ne z 0 ne) (rw reads done))),
                  inv3,
                  λ dev' block' i' x m m' shows.
                      same3 dev' block' i' x m m' (back dev' block' i' x m m' shows),
                  Stays-then s t v (less s.count b) (Keeps-Stays s t (less s.count b) keeps)
                      (Stays-back t u v c (Keeps-Stays t u (more t.count c) keeps') stays),
                )
              ]
      ]

  -- The inode's own buffer, with the user that `bmap` adds.
  pub more-InUse :
      (s : Cache Disk) (b : ℕ) → InUse s b → InUse (record s { count = more s.count b }) b
  more-InUse s b (inv, h, l) = (
    subst (λ f. IsCache blocks (record s { free_list = f; count = more s.count b }))
        (not_free s b inv l) (hit-IsCache blocks s b inv h),
    h,
    omega (arith, updated s.count b (s.count b + 1)),
  )
    where
      not_free :
          (s : Cache Disk) (b : ℕ)
          → IsCache blocks s
          → 0 < s.count b
          → without b s.free_list ≡ s.free_list
      not_free s b inv l =
          rw (member_none b s.free_list (λ i. omega (arith, (inv.idle b i).1, l))) refl

  -- Its effect is given back at the end.
  pub restored :
      (s : Cache Disk) (b r : ℕ) (call : Outcome (Option (Cache Disk × ℕ)))
      → Answers (record s { count = more s.count b }) b call r
      → ((call ≡ ok none) × (s.free_list ≡ []))
        ⊎ ((t : Cache Disk) × (call ≡ ok (some (t, r)))
            × IsCache blocks t
            × SameBlocks blocks s t
            × Stays s t s.count)
  restored s b r call (inl (e, empty, _)) = inl (e, empty)
  restored s b r call (inr (t, e, inv, same, stays)) = inr (
    t,
    e,
    inv,
    same,
    Stays-back s (record s { count = more s.count b }) t b
        (λ c h l _. (h, refl, refl, refl, λ v. v, refl)) stays,
  )
