-- ===== src/Fifo/Tests.antt =====
-- Runs of lib/fifo.c, and instances of the theorems about it.
use kanaos.Prelude.{◌≡◌, arith, ◌∷◌, [], ok, ◌==◌, if◌then◌else◌}
use kanaos.Fifo.{Fifo, fifo_get, fifo_put, fifo_init}
use kanaos.Fifo.Refine.{IsValid, contents, contents-fifo_init, fifo_get-contents, fifo_put-contents}

-- 7, then 9, round the end of the array.
abbrev wrapped : Fifo
wrapped = record { buf = λ i. if i == 127 then 7 else 9; head = 1; tail = 127 }

wrapped-IsValid : IsValid wrapped
wrapped-IsValid = omega arith

fifo_init_run : IsValid (fifo_init wrapped) × (contents (fifo_init wrapped) ≡ [])
fifo_init_run = contents-fifo_init wrapped

fifo_get-contents_run :
    (f : Fifo) × (fifo_get wrapped ≡ ok (7, f)) × IsValid f × (contents f ≡ 9 ∷ [])
fifo_get-contents_run = fifo_get-contents wrapped wrapped-IsValid

fifo_put-contents_example :
    (f : Fifo) × (fifo_put 2 wrapped 5 ≡ ok f) × IsValid f × (contents f ≡ 7 ∷ 9 ∷ 5 ∷ [])
fifo_put-contents_example = fifo_put-contents 0 wrapped 5 wrapped-IsValid
