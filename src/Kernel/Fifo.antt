-- ===== src/Kernel/Fifo.antt =====
-- src/kernel/fifo.c: a FIFO of `int` over an array that the caller owns.
pub mod Queue
pub mod Refine
mod Tests
use horizon_operating_system.Common.{
  ℕ, List, set, get_or, bit_or, inc32, dec32, sub32, minus_one, ◌==◌, if◌then◌else◌,
}

-- `struct fifo`. All fields but `buf` are `int`s, as their bit patterns.
pub record Fifo : Type 0 where
  pub buf : List ℕ
  pub p : ℕ
  pub q : ℕ
  pub size : ℕ
  pub free : ℕ
  pub flags : ℕ

unfoldable pub fifo_init : ℕ → List ℕ → Fifo
fifo_init size buf = record { buf = buf; p = 0; q = 0; size = size; free = size; flags = 0 }

-- `i++; if (i == size) i = 0;`
abbrev pub next_index : ℕ → ℕ → ℕ
next_index size i = if inc32 i == size then 0 else inc32 i

-- The result comes after the new structure. The message that a failure prints is left out.
unfoldable pub fifo_put : Fifo → ℕ → Fifo × ℕ
fifo_put f x =
    if f.free == 0
    then (record f { flags = bit_or f.flags 1 }, minus_one)
    else (record f { buf = set f.buf f.p x; p = next_index f.size f.p; free = dec32 f.free }, 0)

-- A read out of the array, which `Fifo.IsValid` rules out, is given the value 0.
unfoldable pub fifo_get : Fifo → Fifo × ℕ
fifo_get f =
    if f.free == f.size
    then (f, minus_one)
    else (record f { q = next_index f.size f.q; free = inc32 f.free }, get_or f.buf f.q 0)

unfoldable pub fifo_status : Fifo → ℕ
fifo_status f = sub32 f.size f.free
