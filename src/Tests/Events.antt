-- ===== src/Tests/Events.antt =====
-- A queue of four blocks with an element beyond the window.
use me_mo_tracer.Base.{
  get_or-replicate, ◌≢◌, ◌/◌, ◌-◌, ◌%◌, ◌^◌, ◌⊎◌, none, List, ℕ, ◌+◌, ◌<◌, ◌≡◌, refl, true, false,
  [], ◌∷◌, map_some, replicate, some, if◌then◌else◌, ◌==◌, ◌&&◌, set, arith, ◌>>=◌, All, ◌≤◌,
}
use me_mo_tracer.Events.PrioQueue.{
  blank, PrioQueue, init, enqueue, dequeue, first_cycle, put_near, put_in, find_block, take_out,
  pop, next_block, move_near,
}
use me_mo_tracer.Events.Multimap.{insert, IsSorted}
use me_mo_tracer.Events.EventQueue.{
  tick, tick_loop, insert_event, AdaptiveEvent, next_period, adapt,
}
use me_mo_tracer.Events.EventQueue.Tick.{due, later, call_each, tick-call_each}
use me_mo_tracer.Events.EventQueue.Adaptive.{adapt_on_time}
use me_mo_tracer.Events.EventQueue.Insert.{delay_of, insert_event-cases}
use me_mo_tracer.Events.PrioQueue.Bag.{
  put_near-IsRight, occurrences, IsValid, init-IsValid, enqueue-occurrences,
}
use me_mo_tracer.Events.PrioQueue.Least.{dequeue-least}
use me_mo_tracer.Events.PrioQueue.First.{first_cycle-dequeue}

abbrev started : PrioQueue
started = record { blocks = replicate 4 blank; size = 4; fe_map = []; cur_block = 0; elems = 0 }

started-IsValid : IsValid started
unfolding init
started-IsValid = init-IsValid 4 (omega arith) (omega arith)

started_empty : (c : ℕ) → occurrences started c 7 ≡ 0
started_empty c =
    rw (get_or-replicate 4 blank (c / 64 % 4), get_or-replicate {A = List ℕ} 64 [] (c % 64))
      (ground arith)

enqueue-occurrences_example :
    (r : PrioQueue) × (enqueue started 7 300 ≡ some r)
    × IsValid r
    × ((c : ℕ) → occurrences r c 7 ≡ (if 300 == c then 1 else 0))
    × ((c x : ℕ) → x ≢ 7 → occurrences r c x ≡ occurrences started c x)
enqueue-occurrences_example =
    enqueue-occurrences started 7 300 started-IsValid started_empty (omega arith)

-- Elements for the cycles 300 and 70, in that order.
abbrev two_elements : PrioQueue
two_elements = record {
  blocks =
      set (replicate 4 blank) 1 (record {
        array = set (replicate 64 []) 6 (9 ∷ []);
        occ = set (replicate 64 false) 6 true;
      });
  size = 4;
  fe_map = (300, 7) ∷ [];
  cur_block = 0;
  elems = 2;
}

both_in : (enqueue started 7 300 >>= λ q. enqueue q 9 70) ≡ some two_elements
unfolding enqueue put_near put_in insert
both_in = refl

two_elements-IsValid : IsValid two_elements
unfolding put_near put_in
two_elements-IsValid = record {
  large = omega arith;
  small = omega arith;
  sized = refl;
  right = put_near-IsRight started 9 70 refl (omega arith) (started-IsValid.right);
  sorted = (tt, tt);
  beyond = (omega arith, tt);
}

dequeue-least_example :
    (r : PrioQueue) × (obj : ℕ) × (cycle : ℕ) × (dequeue two_elements ≡ some (r, obj, cycle))
    × IsValid r
    × ((d y : ℕ)
        → occurrences two_elements d y
          ≡ occurrences r d y + (if cycle == d && obj == y then 1 else 0))
    × ((d y : ℕ) → d < cycle → occurrences two_elements d y ≡ 0)
dequeue-least_example =
    dequeue-least two_elements 300 7 two_elements-IsValid (omega arith) (omega arith) (omega arith)

earlier_first : map_some (λ r. r.2) (dequeue two_elements) ≡ some 70
unfolding dequeue find_block take_out pop next_block move_near
earlier_first = refl

first_cycle-dequeue_example :
    (cycle : ℕ) × (first_cycle two_elements ≡ some cycle)
    × (map_some (λ r. r.2) (dequeue two_elements) ≡ some cycle)
first_cycle-dequeue_example =
    first_cycle-dequeue two_elements 300 7 two_elements-IsValid (omega arith) (omega arith)
      (omega arith)

-- Events as numbers: a callback logs the event, and lowers its period by one.
abbrev called : ℕ → List ℕ → ℕ × List ℕ
called d log = (d - 1, d ∷ log)

abbrev agenda : List (ℕ × ℕ)
agenda = (8, 3) ∷ (8, 1) ∷ (10, 2) ∷ []

ticked : tick (λ d. d % 2 ^ 63) called 8 agenda [] ≡ some ((10, 2) ∷ (10, 2) ∷ [], 1 ∷ 3 ∷ [])
unfolding tick tick_loop insert
ticked = refl

tick-call_each_example :
    (r : List (ℕ × ℕ) × List ℕ) × (tick (λ d. d % 2 ^ 63) called 8 agenda [] ≡ some r)
    × (r ≡ call_each (λ d. d % 2 ^ 63) called 8 (due 8 agenda) (later 8 agenda) [])
    × IsSorted r.0
    × All (λ e. 8 < e.0) r.0
tick-call_each_example =
    tick-call_each (λ d. d % 2 ^ 63) called 8 agenda [] (omega arith) (λ d v. omega arith)
      ((omega arith, (omega arith, tt)), ((omega arith, tt), (tt, tt)))
      (omega arith, (omega arith, (omega arith, tt)))

abbrev waiting_event : AdaptiveEvent
waiting_event = record { period = 12; target = 130; max_rate = 8 }

adapt_on_time_example :
    ((90 < 130)
      × (adapt waiting_event 90
          ≡ some (record waiting_event { period = next_period (130 - 90) 8 }, false)))
    ⊎ ((130 ≤ 90)
        × (90 ≤ 130 + 8)
        × (adapt waiting_event 90 ≡ some (record waiting_event { period = 0 }, true)))
adapt_on_time_example = adapt_on_time waiting_event 30 90 (omega arith) refl (omega arith)

insert_event-cases_example :
    ((8 + delay_of (λ d. d) 5 2 < 2 ^ 64)
      × ((fs : List (ℕ × ℕ)) × (insert_event (λ d. d) 8 5 2 agenda ≡ some fs)
          × (fs ≡ insert (8 + delay_of (λ d. d) 5 2) 5 agenda)
          × IsSorted fs
          × All (λ e. 8 ≤ e.0) fs))
    ⊎ ((2 ^ 64 ≤ 8 + delay_of (λ d. d) 5 2) × (insert_event (λ d. d) 8 5 2 agenda ≡ none))
insert_event-cases_example =
    insert_event-cases (λ d. d) 8 5 2 agenda (omega arith) (omega arith)
      ((omega arith, (omega arith, tt)), ((omega arith, tt), (tt, tt)))
      (omega arith, (omega arith, (omega arith, tt)))
