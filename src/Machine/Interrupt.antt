-- ===== src/Machine/Interrupt.antt =====
-- machine/interrupt.cc: the simulation of hardware interrupts on the sorted list of pending ones.
-- A handler is a function pointer: `H` names the handlers, and a parameter `invoke` says what
-- `machine->DelayedLoad(0, 0)` and the call of one do. Times are ticks, never negative. `none` is
-- a failed ASSERT. The debugging messages are left out.
pub mod Due
pub mod Schedule
mod Tests
use cmps.Prelude.{ℕ, zero, suc, ◌+◌, ◌-◌, Bool, true, false, not, ◌&&◌, ◌||◌, Option, none, some}
use cmps.Prelude.{ltb, if◌then◌else◌, ◌>>=◌, ◌>>◌, assert}
use cmps.Threads.LinkedList.{
  LinkedList, ListElement, new_list, is_empty, sorted_insert, sorted_remove,
}
use cmps.Machine.State.{MachineStatus, idle_mode, system_mode, user_mode}

pub data IntStatus : Type 0 where
  int_off int_on : IntStatus

pub data IntType : Type 0 where
  timer_int disk_int console_write_int console_read_int : IntType
  network_send_int network_recv_int : IntType

pub record PendingInterrupt (H : Type 0) : Type 0 where
  pub handler : H
  pub arg : ℕ
  pub due_at : ℕ
  pub kind : IntType

-- `Interrupt`, and the counters of `stats` that it advances.
pub record Interrupt (H : Type 0) : Type 0 where
  pub level : IntStatus
  pub pending : LinkedList (PendingInterrupt H)
  pub in_handler : Bool
  pub yield_on_return : Bool
  pub status : MachineStatus
  pub total_ticks : ℕ
  pub idle_ticks : ℕ
  pub system_ticks : ℕ
  pub user_ticks : ℕ

abbrev pub is_off : IntStatus → Bool
is_off int_off = true
is_off int_on = false

abbrev pub is_idle : MachineStatus → Bool
is_idle idle_mode = true
is_idle _ = false

abbrev pub is_system : MachineStatus → Bool
is_system system_mode = true
is_system _ = false

abbrev pub is_timer : IntType → Bool
is_timer timer_int = true
is_timer _ = false

abbrev pub system_tick : ℕ
system_tick = 10

abbrev pub user_tick : ℕ
user_tick = 1

module _ {H : Type 0} where
  -- `Interrupt::Interrupt`
  unfoldable pub new_interrupt : Interrupt H
  new_interrupt = record {
    level = int_off;
    pending = new_list;
    in_handler = false;
    yield_on_return = false;
    status = system_mode;
    total_ticks = 0;
    idle_ticks = 0;
    system_ticks = 0;
    user_ticks = 0;
  }

  abbrev pub change_level : Interrupt H → IntStatus → Interrupt H
  change_level s now = record s { level = now }

  pub yield_when_done : Interrupt H → Option (Interrupt H)
  yield_when_done s = do assert s.in_handler; some (record s { yield_on_return = true })

  unfoldable pub schedule : Interrupt H → H → ℕ → ℕ → IntType → Option (Interrupt H)
  schedule s handler arg from_now kind = do
    assert (ltb 0 from_now)
    let due_at = s.total_ticks + from_now
    let to_occur : PendingInterrupt H = record {
      handler = handler;
      arg = arg;
      due_at = due_at;
      kind = kind;
    }
    some (record s { pending = sorted_insert s.pending to_occur due_at })

  -- `stats->idleTicks += (when - stats->totalTicks); stats->totalTicks = when;`
  abbrev pub advance_clock : Interrupt H → ℕ → Interrupt H
  advance_clock s due_at = record s {
    idle_ticks = s.idle_ticks + (due_at - s.total_ticks);
    total_ticks = due_at;
  }

  abbrev pub put_back : Interrupt H → ListElement (PendingInterrupt H) → Interrupt H
  put_back s e = record s { pending = sorted_insert s.pending e.item e.key }

  module _ (invoke : H → ℕ → Interrupt H → Interrupt H) where
    -- From `inHandler = TRUE` to `inHandler = FALSE`.
    pub fire : Interrupt H → PendingInterrupt H → Interrupt H
    fire s to_occur =
        let s1 = record s { in_handler = true; status = system_mode } in
        let s2 = invoke to_occur.handler to_occur.arg s1 in
        record s2 { status = s.status; in_handler = false }

    -- Once the first pending interrupt is taken off; `s` holds the others.
    pub occur : Bool → Interrupt H → ListElement (PendingInterrupt H) → Bool × Interrupt H
    unfolding fire
    occur advance s e =
        let late = ltb s.total_ticks e.key in
        let s1 = if advance && late then advance_clock s e.key else s in
        if not advance && late
        then (false, put_back s e)
        else if is_idle s.status && is_timer e.item.kind && is_empty s.pending
        then (false, put_back s1 e)
        else (true, fire s1 e.item)

    -- `CheckIfDue`: whether a handler ran.
    pub check_if_due : Bool → Interrupt H → Option (Bool × Interrupt H)
    unfolding occur
    check_if_due advance s = do
      assert (is_off s.level)
      let (taken, rest) = sorted_remove s.pending
      some (elim taken [
        | none ↦ (false, record s { pending = rest })
        | some e ↦ occur advance (record s { pending = rest }) e
      ])

    -- `while (CheckIfDue(FALSE));`, at most `fuel` times.
    pub drain : ℕ → Interrupt H → Option (Interrupt H)
    drain zero s = none
    drain (suc fuel) s = do
      (fired, s1) ← check_if_due false s
      elim fired [ true ↦ drain fuel s1 | false ↦ some s1 ]

    -- `OneTick`; `yield` is `currentThread->Yield()`.
    pub one_tick : (Interrupt H → Interrupt H) → ℕ → Interrupt H → Option (Interrupt H)
    unfolding drain
    one_tick yield fuel s = do
      let s1 =
          if is_system s.status
          then record s {
            total_ticks = s.total_ticks + system_tick;
            system_ticks = s.system_ticks + system_tick;
          }
          else record s {
            total_ticks = s.total_ticks + user_tick;
            user_ticks = s.user_ticks + user_tick;
          }
      s2 ← drain fuel (change_level s1 int_off)
      let s3 = change_level s2 int_on
      some (
          if s3.yield_on_return
          then (let s4 = yield (record s3 { yield_on_return = false; status = system_mode }) in
              record s4 { status = s.status })
          else s3)

    -- `SetLevel`: the old level.
    pub set_level :
        (Interrupt H → Interrupt H) → ℕ → Interrupt H → IntStatus → Option (IntStatus × Interrupt H)
    unfolding one_tick
    set_level yield fuel s now = do
      assert (is_off now || not s.in_handler)
      let s1 = change_level s now
      s2 ← (if not (is_off now) && is_off s.level then one_tick yield fuel s1 else some s1)
      some (s.level, s2)

    -- `Idle`: the state when it returns, or `none` inside for `Halt()`.
    pub idle : ℕ → Interrupt H → Option (Option (Interrupt H))
    unfolding drain check_if_due
    idle fuel s = do
      (fired, s1) ← check_if_due true (record s { status = idle_mode })
      elim fired [
        | false ↦ some none
        | true ↦ do
          s2 ← drain fuel s1
          some (some (record s2 { yield_on_return = false; status = system_mode }))
      ]
