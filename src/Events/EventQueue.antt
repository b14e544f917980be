-- ===== src/Events/EventQueue.antt =====
-- `EventQueue` and `AdaptiveEvent` of src/event_queue.h. What a callback does is a parameter: it takes
-- the event and the rest of the program's state, and gives both afterwards. The locks and the
-- deletion of one-shot events are left out.
pub mod Tick
pub mod Adaptive
pub mod Insert
use me_mo_tracer.Base.{
  ℕ, zero, suc, ◌+◌, ◌-◌, ◌/◌, ◌%◌, ◌^◌, Bool, true, false, not, List, [], ◌∷◌, Option, none, some,
  if◌then◌else◌, ltb, leb, ◌==◌, add64, length, ◌>>=◌, ◌>>◌, assert,
}
use me_mo_tracer.Events.Multimap.{insert}

module _ {E W : Type 0} (period : E → ℕ) (callback : E → W → E × W) where
  -- The loop of `tick`, with a round for each event of the queue: the queue and the state, or `none`
  -- for the panic.
  unfoldable pub tick_loop : ℕ → ℕ → List (ℕ × E) → W → Option (List (ℕ × E) × W)
  tick_loop n phase [] w = some ([], w)
  tick_loop zero phase (e ∷ es) w = if leb e.0 phase then none else some (e ∷ es, w)
  tick_loop (suc n) phase (e ∷ es) w =
      let r = callback e.1 w in
      let rest = if period r.0 == 0 then es else insert (add64 phase (period r.0)) r.0 es in
      let next = assert (e.0 == phase) >> tick_loop n phase rest r.1 in
      if leb e.0 phase then next else some (e ∷ es, w)

  unfoldable pub tick : ℕ → List (ℕ × E) → W → Option (List (ℕ × E) × W)
  unfolding tick_loop
  tick phase ev_map w = tick_loop (length ev_map) phase ev_map w

-- The delay is a signed word, -1 for the event's own period.
unfoldable pub insert_event :
    {E : Type 0} → (E → ℕ) → ℕ → E → ℕ → List (ℕ × E) → Option (List (ℕ × E))
insert_event period phase ev start_delay ev_map = do
  let event_phase =
      if start_delay == 2 ^ 64 - 1 then add64 phase (period ev) else add64 phase start_delay
  assert (leb phase event_phase)
  some (insert event_phase ev ev_map)

pub record AdaptiveEvent : Type 0 where
  pub period : ℕ
  pub target : ℕ
  pub max_rate : ℕ

-- The source divides, and traps when `max_rate` is 0, where the quotient here is 0.
abbrev pub next_period : ℕ → ℕ → ℕ
next_period distance max_rate = if distance / max_rate == 0 then 1 else distance / max_rate

unfoldable pub make : ℕ → ℕ → ℕ → Option AdaptiveEvent
make start target max_rate = do
  assert (leb start target)
  some (record {
    period = next_period (target - start) max_rate;
    target = target;
    max_rate = max_rate;
  })

-- At the progress `cur`: the event afterwards, and whether it has fired.
unfoldable pub adapt : AdaptiveEvent → ℕ → Option (AdaptiveEvent × Bool)
adapt ev cur =
    let fired =
      assert (leb (cur - ev.target) ev.max_rate) >> some (record ev { period = 0 }, true) in
    let later = some (record ev { period = next_period (ev.target - cur) ev.max_rate }, false) in
    if leb ev.target cur then fired else later
