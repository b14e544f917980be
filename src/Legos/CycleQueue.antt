-- ===== src/Legos/CycleQueue.antt =====
-- `CycleQueue` of src/legos.h.
use me_mo_tracer.Base.{ℕ, ◌-◌, ◌^◌, ◌<◌, ◌≡◌, refl, ap, ◌∙◌, List, [], ◌∷◌, get_or, set, replicate}
use me_mo_tracer.Legos.DelayLine.{bump, Holds, replicate-Holds, Holds-oldest, set-Holds}

pub record CycleQueue : Type 0 where
  pub buf : List ℕ
  pub idx : ℕ
  pub sz : ℕ

pub init : ℕ → CycleQueue
init sz = record { buf = replicate sz 0; idx = 0; sz = sz }

pub min_alloc_cycle : CycleQueue → ℕ
min_alloc_cycle q = get_or q.buf q.idx 0

pub mark_leave : CycleQueue → ℕ → CycleQueue
mark_leave q leave_cycle = record q { buf = set q.buf q.idx leave_cycle; idx = bump q.idx q.sz }

-- Leave the queue at the cycles of the list, in its order.
abbrev pub leave_all : CycleQueue → List ℕ → CycleQueue
leave_all q [] = q
leave_all q (c ∷ cs) = leave_all (mark_leave q c) cs

abbrev pub pushed : List ℕ → List ℕ → List ℕ
pushed [] hist = hist
pushed (c ∷ cs) hist = pushed cs (c ∷ hist)

leave_all-Holds :
    (q : CycleQueue) (cs hist : List ℕ)
    → Holds q.buf q.idx q.sz hist
    → Holds (leave_all q cs).buf (leave_all q cs).idx (leave_all q cs).sz (pushed cs hist)
unfolding mark_leave
leave_all-Holds q [] hist h = h
leave_all-Holds q (c ∷ cs) hist h = leave_all-Holds (mark_leave q c) cs (c ∷ hist) (set-Holds c h)

sz-leave_all : (q : CycleQueue) (cs : List ℕ) → (leave_all q cs).sz ≡ q.sz
unfolding mark_leave
sz-leave_all q [] = refl
sz-leave_all q (c ∷ cs) = sz-leave_all (mark_leave q c) cs

-- A new queue of `sz` entries lets the next uop in when the uop `sz` places before it has left, and
-- at cycle 0 while fewer than `sz` have.
pub min_alloc_cycle-leave_all :
    (sz : ℕ) (cs : List ℕ)
    → 0 < sz
    → sz < 2 ^ 32
    → min_alloc_cycle (leave_all (init sz) cs) ≡ get_or (pushed cs []) (sz - 1) 0
unfolding min_alloc_cycle init
min_alloc_cycle-leave_all sz cs pos small =
    Holds-oldest (leave_all-Holds (init sz) cs [] (replicate-Holds sz pos small))
    ∙ ap (λ n. get_or (pushed cs []) (n - 1) 0) (sz-leave_all (init sz) cs)
