-- ===== src/Kernel/Fifo/Tests.antt =====
-- The FIFO of src/kernel/fifo.c at concrete inputs.
use horizon_operating_system.Common.{◌≡◌, refl, List, [], ◌∷◌, minus_one, arith}
use horizon_operating_system.Kernel.Fifo.{Fifo, fifo_put, fifo_get, fifo_status}
use horizon_operating_system.Kernel.Fifo.Queue.{Call, put, get, status, serve_all}
use horizon_operating_system.Kernel.Fifo.Refine.{IsValid, view, call_all, call_all_refines}

abbrev wrapped : Fifo
wrapped = record { buf = 9 ∷ 7 ∷ 8 ∷ []; p = 1; q = 2; size = 3; free = 1; flags = 0 }

abbrev script : List Call
script = put 1 ∷ put 2 ∷ status ∷ get ∷ get ∷ get ∷ get ∷ put minus_one ∷ get ∷ []

wrapped-IsValid : IsValid wrapped
wrapped-IsValid = ground arith

-- The last two answers are a failure and a stored -1, which read alike.
call_all-wrapped :
    call_all wrapped script ≡ 0 ∷ minus_one ∷ 3 ∷ 8 ∷ 9 ∷ 1 ∷ minus_one ∷ 0 ∷ minus_one ∷ []
unfolding call_all fifo_put fifo_get fifo_status
call_all-wrapped = refl

call_all_refines_example : call_all wrapped script ≡ serve_all 3 (view wrapped) script
call_all_refines_example = call_all_refines wrapped script wrapped-IsValid
