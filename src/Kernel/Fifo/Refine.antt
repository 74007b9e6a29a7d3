-- ===== src/Kernel/Fifo/Refine.antt =====
-- src/kernel/fifo.c behaves as the bounded queue of `Queue`.
use horizon_operating_system.Common.{
  ℕ, zero, suc, ◌+◌, ◌-◌, ◌≤◌, ◌<◌, ◌^◌, ◌≡◌, ◌≢◌, ◌⊎◌, refl, ap, ap₂, List, [], ◌∷◌, ◌++◌, length,
  set, get_or, length-set, get_or-set_self, get_or-set_ne, bit_or, arith,
}
use horizon_operating_system.Kernel.Fifo.{
  Fifo, next_index, fifo_init, fifo_put, fifo_get, fifo_status,
}
use horizon_operating_system.Kernel.Fifo.Queue.{Queue, Call, put, get, status, serve, serve_all}

-- `p` is the index `used` places after `q`, going round at `size`.
abbrev IsAfter : ℕ → ℕ → ℕ → ℕ → Type 0
IsAfter size q used p = (p ≡ q + used) ⊎ (p + size ≡ q + used)

pub record IsValid (f : Fifo) : Type 0 where
  pub small : f.size < 2 ^ 31
  pub storage : length f.buf ≡ f.size
  pub p_in : f.p < f.size
  pub q_in : f.q < f.size
  pub free_in : f.free ≤ f.size
  pub order : IsAfter f.size f.q (f.size - f.free) f.p
  pub flag : f.flags ≤ 1

-- The `n` numbers from index `i` on.
abbrev pub walk : List ℕ → ℕ → ℕ → ℕ → List ℕ
walk buf size i zero = []
walk buf size i (suc n) = get_or buf i 0 ∷ walk buf size (next_index size i) n

abbrev pub contents : Fifo → List ℕ
contents f = walk f.buf f.size f.q (f.size - f.free)

abbrev pub view : Fifo → Queue
view f = record { items = contents f; flags = f.flags }

abbrev pub call : Fifo → Call → Fifo × ℕ
call f (put x) = fifo_put f x
call f get = fifo_get f
call f status = (f, fifo_status f)

unfoldable pub call_all : Fifo → List Call → List ℕ
call_all f [] = []
call_all f (c ∷ cs) = let (f', r) = call f c in r ∷ call_all f' cs

length-walk : (buf : List ℕ) (size i n : ℕ) → length (walk buf size i n) ≡ n
length-walk buf size i zero = refl
length-walk buf size i (suc n) = ap suc (length-walk buf size (next_index size i) n)

walk_of_pos :
    (buf : List ℕ) (size i n : ℕ)
    → n ≢ 0
    → walk buf size i n ≡ get_or buf i 0 ∷ walk buf size (next_index size i) (n - 1)
walk_of_pos buf size i zero h = absurd (h refl)
walk_of_pos buf size i (suc n) h = ap (λ k. walk buf size i (suc k)) (omega arith)

next_index-lt : (size i : ℕ) → size < 2 ^ 31 → i < size → next_index size i < size
next_index-lt size i hs h = ground arith

next_index-IsAfter :
    (size q n p : ℕ)
    → size < 2 ^ 31
    → q < size
    → p < size
    → IsAfter size q (suc n) p
    → IsAfter size (next_index size q) n p
next_index-IsAfter size q n p hs hq hp h = ground arith

IsAfter-next_index :
    (size q n p : ℕ)
    → size < 2 ^ 31
    → q < size
    → p < size
    → n < size
    → IsAfter size q n p
    → IsAfter size q (n + 1) (next_index size p)
IsAfter-next_index size q n p hs hq hp hn h = ground arith

-- A write just past the walked part extends it.
walk-set :
    (buf : List ℕ) (size x n q p : ℕ)
    → size < 2 ^ 31
    → length buf ≡ size
    → q < size
    → p < size
    → n < size
    → IsAfter size q n p
    → walk (set buf p x) size q (suc n) ≡ walk buf size q n ++ (x ∷ [])
walk-set buf size x zero q p hs hb hq hp hn h =
    let e : p ≡ q = omega arith in ap (λ y. y ∷ []) (rw e (get_or-set_self buf q x 0 (omega arith)))
walk-set buf size x (suc n) q p hs hb hq hp hn h = ap₂ ◌∷◌ (get_or-set_ne buf x 0 (omega arith)) (
    walk-set buf size x n (next_index size q) p hs hb (next_index-lt size q hs hq) hp (omega arith)
      (next_index-IsAfter size q n p hs hq hp h))

pub fifo_init-IsValid :
    (size : ℕ) (buf : List ℕ)
    → 0 < size
    → size < 2 ^ 31
    → length buf ≡ size
    → IsValid (fifo_init size buf)
unfolding fifo_init
fifo_init-IsValid size buf pos small e = ground arith

bit_or-one : (n : ℕ) → n ≤ 1 → bit_or n 1 ≡ 1
bit_or-one zero h = refl
bit_or-one (suc zero) h = refl
bit_or-one (suc (suc n)) h = absurd (omega arith)

pub fifo_put-IsValid : (f : Fifo) (x : ℕ) → IsValid f → IsValid (fifo_put f x).0
unfolding fifo_put
fifo_put-IsValid f x v = ground (
  arith,
  bit_or-one f.flags v.flag,
  length-set f.buf f.p x,
  next_index-lt f.size f.p,
  IsAfter-next_index f.size f.q (f.size - f.free) f.p,
)

pub fifo_get-IsValid : (f : Fifo) → IsValid f → IsValid (fifo_get f).0
unfolding fifo_get
fifo_get-IsValid f v =
    ground
      (arith, next_index-lt f.size f.q, next_index-IsAfter f.size f.q (f.size - f.free - 1) f.p)

-- Each call keeps a valid FIFO valid.
pub call-IsValid : (f : Fifo) (c : Call) → IsValid f → IsValid (call f c).0
call-IsValid f (put x) v = fifo_put-IsValid f x v
call-IsValid f get v = fifo_get-IsValid f v
call-IsValid f status v = v

pub size-call : (f : Fifo) (c : Call) → (call f c).0.size ≡ f.size
unfolding fifo_put fifo_get
size-call f (put x) = ground arith
size-call f get = ground arith
size-call f status = refl

-- Each call answers as the queue of the stored numbers does, and leaves the queue's new contents.
pub call_refines :
    (f : Fifo) (c : Call)
    → IsValid f
    → let (f', r) = call f c in (view f', r) ≡ serve f.size (view f) c
unfolding fifo_put fifo_get fifo_status serve
call_refines f (put x) v = ground (
  arith,
  bit_or-one f.flags v.flag,
  length-walk f.buf f.size f.q (f.size - f.free),
  walk-set f.buf f.size x (f.size - f.free) f.q f.p,
)
call_refines f get v = ground (arith, walk_of_pos f.buf f.size f.q (f.size - f.free))
call_refines f status v = ground (arith, length-walk f.buf f.size f.q (f.size - f.free))

-- However it is called, a valid FIFO gives the answers of the bounded queue of its contents.
pub call_all_refines :
    (f : Fifo) (cs : List Call) → IsValid f → call_all f cs ≡ serve_all f.size (view f) cs
unfolding call_all serve_all
call_all_refines f [] v = refl
call_all_refines f (c ∷ cs) v =
    rw (call_all_refines (call f c).0 cs (call-IsValid f c v), ← call_refines f c v, size-call)
