-- ===== src/Kernel/Fifo/Queue.antt =====
-- What a user of the FIFO of src/kernel/fifo.c sees: a queue of at most `cap` numbers.
use horizon_operating_system.Common.{ℕ, List, [], ◌∷◌, ◌++◌, length, minus_one, ◌==◌, if◌then◌else◌}

-- The calls of a user.
pub data Call : Type 0 where
  put : ℕ → Call
  get : Call
  status : Call

-- The waiting numbers, oldest first, and whether a `put` has ever failed.
pub record Queue : Type 0 where
  pub items : List ℕ
  pub flags : ℕ

unfoldable pub take_oldest : List ℕ → List ℕ × ℕ
take_oldest [] = ([], minus_one)
take_oldest (x ∷ xs) = (xs, x)

unfoldable pub serve : ℕ → Queue → Call → Queue × ℕ
unfolding take_oldest
serve cap s (put x) =
    if length s.items == cap
    then (record s { flags = 1 }, minus_one)
    else (record s { items = s.items ++ (x ∷ []) }, 0)
serve cap s get = let (rest, r) = take_oldest s.items in (record s { items = rest }, r)
serve cap s status = (s, length s.items)

unfoldable pub serve_all : ℕ → Queue → List Call → List ℕ
unfolding serve
serve_all cap s [] = []
serve_all cap s (c ∷ cs) = let (s', r) = serve cap s c in r ∷ serve_all cap s' cs
