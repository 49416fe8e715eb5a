-- ===== src/Fifo/Refine.antt =====
-- The ring of lib/fifo.c as the queue of the bytes that it holds, oldest first.
use kanaos.Prelude.{
  ℕ, zero, suc, ◌+◌, ◌-◌, ◌%◌, ◌<◌, ◌≡◌, refl, sym, ap, ◌∙◌, true, false, List, [], ◌∷◌, ◌++◌,
  arith, ◌==◌, ==_refl, if◌then◌else◌, update, length, ◌^◌, ok, halted,
}
use native.Mathlib.Decide.{dec_lt}
use kanaos.Fifo.{
  Fifo, fifo_size, fifo_next, fifo_init, fifo_full, fifo_empty, fifo_get, make_room, fifo_put,
}

pub record IsValid (f : Fifo) : Type 0 where
  pub head_in : f.head < fifo_size
  pub tail_in : f.tail < fifo_size

-- How many bytes wait.
abbrev pub size : Fifo → ℕ
size f = (f.head + fifo_size - f.tail) % fifo_size

-- The n bytes from index i on, round the end of the array.
abbrev pub bytes_from : (ℕ → ℕ) → ℕ → ℕ → List ℕ
bytes_from buf i zero = []
bytes_from buf i (suc n) = buf i ∷ bytes_from buf ((i + 1) % fifo_size) n

abbrev pub contents : Fifo → List ℕ
contents f = bytes_from f.buf f.tail (size f)

pub length-bytes_from : (buf : ℕ → ℕ) (i n : ℕ) → length (bytes_from buf i n) ≡ n
length-bytes_from buf i zero = refl
length-bytes_from buf i (suc n) = ap suc (length-bytes_from buf ((i + 1) % fifo_size) n)

cons_path : (x y : ℕ) (xs ys : List ℕ) → x ≡ y → xs ≡ ys → x ∷ xs ≡ y ∷ ys
cons_path x y xs ys p q = cc

bytes_from-path :
    (buf : ℕ → ℕ) (i j m n : ℕ) → i ≡ j → m ≡ n → bytes_from buf i m ≡ bytes_from buf j n
bytes_from-path buf i j m n p q = cc

-- A write behind the bytes appends one.
bytes_from-update :
    (buf : ℕ → ℕ) (i n v w : ℕ)
    → n < fifo_size
    → i < fifo_size
    → w ≡ (i + n) % fifo_size
    → bytes_from (update buf w v) i (suc n) ≡ bytes_from buf i n ++ (v ∷ [])
bytes_from-update buf i zero v w h k e = cons_path _ _ _ _ (ground arith) refl
bytes_from-update buf i (suc n) v w h k e =
    cons_path _ _ _ _ (ground arith)
      (bytes_from-update buf ((i + 1) % fifo_size) n v w (omega arith) (omega arith) (omega arith))

-- What a queue of at most 127 bytes becomes when a byte is put: the oldest is dropped if 127 wait.
abbrev pub put : List ℕ → ℕ → List ℕ
put [] v = v ∷ []
put (x ∷ q) v = if length (x ∷ q) == 127 then q ++ (v ∷ []) else (x ∷ q) ++ (v ∷ [])

-- A ring just initialised is valid and holds nothing.
pub contents-fifo_init : (f : Fifo) → IsValid (fifo_init f) × (contents (fifo_init f) ≡ [])
unfolding fifo_init
contents-fifo_init f = (omega arith, refl)

-- What `fifo_get` does to a ring with the given queue.
abbrev pub Gets : Fifo → List ℕ → Type 0
Gets f [] = fifo_get f ≡ halted
Gets f (x ∷ q) = (f' : Fifo) × (fifo_get f ≡ ok (x, f')) × IsValid f' × (contents f' ≡ q)

get_lem : (f : Fifo) (n : ℕ) → IsValid f → size f ≡ n → Gets f (bytes_from f.buf f.tail n)
unfolding fifo_get fifo_empty fifo_next
get_lem f zero v e = let h : f.head ≡ f.tail = omega (arith, v) in rw h (rw (==_refl f.tail))
get_lem f (suc n) v e =
    let h : (f.head == f.tail) ≡ false = ground (arith, v) in
    (
      record f { tail = (f.tail + 1) % 2 ^ 32 % fifo_size },
      rw h,
      omega (arith, v),
      bytes_from-path _ _ _ _ _ (omega (arith, v)) (omega (arith, v)),
    )

-- `fifo_get` of a valid ring takes the oldest byte of the queue, and leaves a valid ring with the
-- rest; on an empty queue its assertion fails.
pub fifo_get-contents : (f : Fifo) → IsValid f → Gets f (contents f)
fifo_get-contents f v = get_lem f (size f) v refl

put-short : (q : List ℕ) (v : ℕ) → length q < 127 → put q v ≡ q ++ (v ∷ [])
put-short [] v h = refl
put-short (x ∷ q) v h = ground arith

put-full : (q : List ℕ) (x v : ℕ) → length q ≡ 126 → put (x ∷ q) v ≡ q ++ (v ∷ [])
put-full q x v h = rw h

-- The ring after the two last statements of `fifo_put`.
abbrev stored : Fifo → ℕ → Fifo
stored r v = record r { buf = update r.buf r.head v; head = (r.head + 1) % 2 ^ 32 % fifo_size }

stored-contents :
    (r : Fifo) (v : ℕ)
    → IsValid r
    → size r < 127
    → IsValid (stored r v) × (contents (stored r v) ≡ contents r ++ (v ∷ []))
stored-contents r v valid room = (
  omega (arith, valid),
  bytes_from-path _ _ _ _ (suc (size r)) refl (omega (arith, valid))
      ∙ bytes_from-update r.buf r.tail (size r) v r.head (omega arith) valid.tail_in
          (omega (arith, valid)),
)

fifo_full-size : (f : Fifo) → IsValid f → fifo_full f ≡ (size f == 127)
unfolding fifo_full fifo_next
fifo_full-size f v = ground (arith, v)

make_room-short : (fuel : ℕ) (f : Fifo) → IsValid f → size f < 127 → make_room (suc fuel) f ≡ ok f
unfolding make_room
make_room-short fuel f v h =
    let e : fifo_full f ≡ false = rw (fifo_full-size f v) (ground arith) in rw (e, make_room)

put_after_room :
    (fuel : ℕ) (f r : Fifo) (v : ℕ) → make_room fuel f ≡ ok r → fifo_put fuel f v ≡ ok (stored r v)
unfolding fifo_put fifo_next
put_after_room fuel f r v e = rw e

make_room-full :
    (fuel : ℕ) (f f' : Fifo) (x : ℕ)
    → IsValid f
    → size f ≡ 127
    → fifo_get f ≡ ok (x, f')
    → make_room (suc fuel) f ≡ make_room fuel f'
unfolding make_room
make_room-full fuel f f' x v full e =
    let t : fifo_full f ≡ true = rw (fifo_full-size f v) (rw full) in rw (t, make_room) (rw e)

abbrev Puts : ℕ → Fifo → ℕ → Type 0
Puts fuel f v =
    (f' : Fifo) × (fifo_put fuel f v ≡ ok f') × IsValid f' × (contents f' ≡ put (contents f) v)

put_short : (fuel : ℕ) (f : Fifo) (v : ℕ) → IsValid f → size f < 127 → Puts (suc fuel) f v
put_short fuel f v valid room =
    let (valid', same) = stored-contents f v valid room in
    (
      stored f v,
      put_after_room (suc fuel) f f v (make_room-short fuel f valid room),
      valid',
      same
          ∙ sym (put-short (contents f) v (omega (arith, length-bytes_from f.buf f.tail (size f)))),
    )

put_full :
    (fuel : ℕ) (f : Fifo) (v n : ℕ)
    → IsValid f
    → size f ≡ suc n
    → n ≡ 126
    → Puts (suc (suc fuel)) f v
put_full fuel f v n valid full e =
    let (f', got, valid', rest) = get_lem f (suc n) valid full in
    let left = length-bytes_from f.buf ((f.tail + 1) % fifo_size) n in
    let short : size f' ≡ 126 =
      omega (arith, ap length rest, left, length-bytes_from f'.buf f'.tail (size f')) in
    let (valid'', same) = stored-contents f' v valid' (omega arith) in
    (
      stored f' v,
      put_after_room (suc (suc fuel)) f f' v (
          make_room-full (suc fuel) f f' _ valid (omega arith) got
          ∙ make_room-short fuel f' valid' (omega arith)),
      valid'',
      same
          ∙ ap (λ q. q ++ (v ∷ [])) rest
          ∙ sym (put-full _ (f.buf f.tail) v (omega (arith, left)))
          ∙ ap (λ k. put (bytes_from f.buf f.tail k) v) (sym full),
    )

-- `fifo_put` of a valid ring ends after at most two rounds of its loop, and gives a valid ring whose
-- queue has the byte at its end; of 127 bytes before, the oldest is gone.
pub fifo_put-contents :
    (fuel : ℕ) (f : Fifo) (v : ℕ)
    → IsValid f
    → (f' : Fifo) × (fifo_put (suc (suc fuel)) f v ≡ ok f')
      × IsValid f'
      × (contents f' ≡ put (contents f) v)
fifo_put-contents fuel f v valid = elim (dec_lt (size f) 127) [
  | yes short ↦ put_short (suc fuel) f v valid short
  | no full ↦ put_full fuel f v 126 valid (omega (arith, valid)) refl
]
