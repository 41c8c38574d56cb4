-- ===== src/Userprog/Syscall/Processes.antt =====
-- userprog/exception.cc: `Join`, and the ways in which a process ends.
use cmps.Prelude.{
  ℕ, suc, ◌≤◌, ◌≡◌, refl, sym, ap, ◌∙◌, false, Option, some, length, occurs, ==_of_eq, Option-cases,
  inl, inr,
}
use mathlib.Core.Option.{some-injective}
use cmps.Prelude.{subst}
use cmps.Threads.LinkedList.Counted.{items, IsCounted}
use cmps.Threads.Scheduler.{Kernel, finish_thread}
use cmps.Threads.Scheduler.Finish.{Resumed, finish_thread-Resumed}
use cmps.Userprog.BitMap.Bits.{IsValid}
use cmps.Userprog.Paging.{PhysicalMemory}
use cmps.Userprog.AddrSpace.Frames.{AllBelow, Freed, delete_addr_space_lem}
use cmps.Machine.State.{
  ExceptionType, syscall_exception, read_only_exception, bus_error_exception,
  address_error_exception, overflow_exception, illegal_instr_exception, num_exception_types,
}
use cmps.Userprog.Syscall.{
  World, Host, read_register, switched, advance_counters, syscall, end_process, kill_process,
  exception_handler,
}

-- The exceptions that end the current process: `Exit`, unless it is the call after a page fault, and
-- those that are no system calls, but for the thread "main".
pub data Ends (h : Host) (w : World) : ExceptionType → Type 0 where
  exits : w.pf_occurred ≡ false → read_register w 2 ≡ 1 → Ends h w syscall_exception
  read_only : h.is_main w.kernel.current ≡ false → Ends h w read_only_exception
  bus_error : h.is_main w.kernel.current ≡ false → Ends h w bus_error_exception
  address_error : h.is_main w.kernel.current ≡ false → Ends h w address_error_exception
  overflow : h.is_main w.kernel.current ≡ false → Ends h w overflow_exception
  illegal_instr : h.is_main w.kernel.current ≡ false → Ends h w illegal_instr_exception
  num_types : h.is_main w.kernel.current ≡ false → Ends h w num_exception_types

-- The process of the current thread is over, its frames are free, and `p` runs in its address space.
pub record Ended (w : World) (p : ℕ) (w' : World) : Type 0 where
  pub kernel_after : Resumed w.kernel p w'.kernel
  pub frames_freed :
      (s : ℕ)
      → w.space w.kernel.current ≡ some s
      → Freed w.memory.mem_map (items (w.memory.my_page_list s)) w'.memory.mem_map
  pub mapped_again : (s : ℕ) → w.space p ≡ some s → w'.mapped ≡ s

-- A process whose thread is active, counted among the others, with frames that the free map has.
pub record IsLive (w : World) : Type 0 where
  pub counted : IsCounted w.kernel.active_threads
  pub once : occurs w.kernel.current (items w.kernel.active_threads) ≤ 1
  pub map_valid : IsValid w.memory.mem_map
  pub frames_below :
      (s : ℕ)
      → w.space w.kernel.current ≡ some s
      → AllBelow w.memory.mem_map.num_bits (items (w.memory.my_page_list s))

module _ (h : Host) (w : World) (p r : ℕ) (rounds : h.idle_rounds ≡ suc r)
    (joined : w.kernel.parent w.kernel.current ≡ some p) (live : IsLive w) where
  EndsWell : Option World → Type 0
  EndsWell result = (w' : World) × (result ≡ some w') × Ended w p w'

  mapped_then :
      (k' : Kernel) (m : PhysicalMemory)
      → k'.current ≡ p
      → (s : ℕ) → w.space p ≡ some s
      → (switched (record w { memory = m }) k').mapped ≡ s
  mapped_then k' m now s own =
      let there : w.space k'.current ≡ some s = ap (λ t. w.space t) now ∙ own in rw there refl

  end_process_lem : EndsWell (end_process h w)
  unfolding end_process EndsWell
  end_process_lem =
      let (k', ended, resumed) =
        finish_thread-Resumed h.idle r w.kernel p joined live.counted live.once in
      let finished : finish_thread h.idle h.idle_rounds (length (items w.kernel.active_threads))
            w.kernel
          ≡ some k' =
        ap (λ n. finish_thread h.idle n (length (items w.kernel.active_threads)) w.kernel) rounds
        ∙ ended in
      elim (Option-cases (w.space w.kernel.current)) [
        | inl no_space ↦ rw no_space (
          switched (record w { memory = w.memory }) k',
          rw finished refl,
          record {
            kernel_after = resumed;
            frames_freed = λ s own. cc;
            mapped_again = mapped_then k' w.memory resumed.now_runs;
          },
        )
        | inr (s, own) ↦
            let (m', deleted, d) =
              delete_addr_space_lem w.memory s live.map_valid (live.frames_below s own) in
            rw own (
              switched (record w { memory = m' }) k',
              rw (deleted, finished) refl,
              record {
                kernel_after = resumed;
                frames_freed = λ s' own'.
                    subst (λ u. Freed w.memory.mem_map (items (w.memory.my_page_list u)) m'.mem_map)
                      (some-injective _ _ (sym own ∙ own')) d.freed;
                mapped_again = mapped_then k' m' resumed.now_runs;
              },
            )
      ]

  kill_process_lem : h.is_main w.kernel.current ≡ false → EndsWell (kill_process h w)
  unfolding kill_process
  kill_process_lem other = rw other end_process_lem

-- The registers other than the program counters are as before.
read-advance_counters : (w : World) → read_register (advance_counters w) 2 ≡ read_register w 2
unfolding advance_counters
read-advance_counters w = rw (==_of_eq w.kernel.current w.kernel.current refl) refl

handler-exit :
    (h : Host) (w : World)
    → w.pf_occurred ≡ false
    → read_register (advance_counters w) 2 ≡ 1
    → exception_handler h w syscall_exception ≡ end_process h (advance_counters w)
unfolding exception_handler syscall
handler-exit h w no_fault exit = rw (no_fault, exit) refl

advance_counters-IsLive : (w : World) → IsLive w → IsLive (advance_counters w)
unfolding advance_counters
advance_counters-IsLive w l = record {
  counted = l.counted;
  once = l.once;
  map_valid = l.map_valid;
  frames_below = l.frames_below;
}

Ended-advance_counters :
    (w : World) (p : ℕ) (w' : World) → Ended (advance_counters w) p w' → Ended w p w'
unfolding advance_counters
Ended-advance_counters w p w' e = record {
  kernel_after = e.kernel_after;
  frames_freed = e.frames_freed;
  mapped_again = e.mapped_again;
}

-- Whatever exception ends a process that another thread has joined, `Exit` or a fault: the handler
-- comes to an end, the thread that joined runs next, on the processor and in its own address space, and
-- is no longer marked as joined; the ready list is as before; the thread of the process is no longer
-- active and all others are; and the frames of its page list are free, all others as before.
pub exception_handler-Ended :
    (h : Host) (w : World) (which : ExceptionType) (p r : ℕ)
    → Ends h w which
    → h.idle_rounds ≡ suc r
    → w.kernel.parent w.kernel.current ≡ some p
    → IsLive w
    → (w' : World) × (exception_handler h w which ≡ some w') × Ended w p w'
unfolding exception_handler EndsWell
exception_handler-Ended h w which p r (exits no_fault is_exit) rounds joined live =
    let w1 : World = advance_counters w in
    let exit : read_register w1 2 ≡ 1 = read-advance_counters w ∙ is_exit in
    let (w', ended, e) = end_process_lem h w1 p r rounds joined (advance_counters-IsLive w live) in
    (w', handler-exit h w no_fault exit ∙ ended, Ended-advance_counters w p w' e)
exception_handler-Ended h w which p r (read_only other) rounds joined live =
    kill_process_lem h w p r rounds joined live other
exception_handler-Ended h w which p r (bus_error other) rounds joined live =
    kill_process_lem h w p r rounds joined live other
exception_handler-Ended h w which p r (address_error other) rounds joined live =
    kill_process_lem h w p r rounds joined live other
exception_handler-Ended h w which p r (overflow other) rounds joined live =
    kill_process_lem h w p r rounds joined live other
exception_handler-Ended h w which p r (illegal_instr other) rounds joined live =
    kill_process_lem h w p r rounds joined live other
exception_handler-Ended h w which p r (num_types other) rounds joined live =
    kill_process_lem h w p r rounds joined live other
