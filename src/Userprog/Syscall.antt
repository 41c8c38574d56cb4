-- ===== src/Userprog/Syscall.antt =====
-- userprog/exception.cc: the system calls and the other exceptions of user programs, on the scheduler,
-- the address spaces and the paged memory. Threads and address spaces have numbers. The registers of a
-- thread are those of the machine while it runs, and its saved ones otherwise. Left out: the messages to
-- the console, and what `Write` writes. `none` is the end of the program: a halt, a failed ASSERT, or
-- an access through NULL or outside an array; and a `Write` that reads on after its rounds.
pub mod ActiveThreads
pub mod Processes
pub mod Joins
pub mod Starts
pub mod Faults
mod Tests
use cmps.Prelude.{
  ℕ, zero, suc, ◌+◌, ◌-◌, ◌*◌, ◌^◌, Bool, true, false, not, Option, none, some, List, [], ◌∷◌,
}
use cmps.Prelude.{◌++◌, length, get_or, leb, ltb, ◌==◌, if◌then◌else◌, ◌>>=◌, ◌>>◌, assert}
use cmps.Prelude.Int.{ℤ, pos, negsuc}
use cmps.Prelude.Bits.{u32}
use cmps.Threads.LinkedList.{LinkedList, new_list, get_size, append, remove}
use cmps.Threads.LinkedList.Counted.{items}
use cmps.Threads.Scheduler.{Kernel, just_created, set_status, fork, yield, sleep, finish_thread}
use cmps.Machine.State.{
  ExceptionType, no_exception, syscall_exception, page_fault_exception, read_only_exception,
  bus_error_exception, address_error_exception, overflow_exception, illegal_instr_exception,
  num_exception_types, pc_reg, next_pc_reg, prev_pc_reg, bad_vaddr_reg,
}
use cmps.Userprog.Paging.{PhysicalMemory, Replacement, update, paging}
use cmps.Userprog.AddrSpace.{
  NoffHeader, AddrSpace, new_addr_space, init_registers, delete_addr_space, header_size,
}

-- The kernel's objects. `pages` gives the pages of an address space, and `mapped` the one whose page
-- table the machine uses. `next_object` numbers the next object that `new` makes.
pub record World : Type 0 where
  pub kernel : Kernel
  pub memory : PhysicalMemory
  pub registers : ℕ → ℕ → ℕ
  pub space : ℕ → Option ℕ
  pub pages : ℕ → ℕ
  pub mapped : ℕ
  pub id : ℕ → ℕ
  pub kill_new_child : ℕ → Bool
  pub thread_id : ℕ
  pub pf_occurred : Bool
  pub next_object : ℕ

-- What the handler stands on: what `Idle` does and how often it may be asked for; how often `Write`
-- may read; `ReadMem` of one byte, with the exceptions that it raises; the read from the keyboard or a
-- file of the host; the object files of the host; the swap files; the replacement chosen; and which
-- threads are named "main".
pub record Host : Type 0 where
  pub idle : Kernel → Option Kernel
  pub idle_rounds : ℕ
  pub write_rounds : ℕ
  pub read_byte : World → ℕ → Option ℕ × World
  pub read_input : World → ℕ × World
  pub object_file : List ℕ → Option NoffHeader
  pub start_page : ℕ
  pub swap_file : ℕ → List ℕ
  pub choice : Replacement
  pub is_main : ℕ → Bool

-- The registers of the current thread.
abbrev pub read_register : World → ℕ → ℕ
read_register w num = w.registers w.kernel.current num

abbrev pub write_register : World → ℕ → ℕ → World
write_register w num value = record w {
  registers = update w.registers w.kernel.current (update (w.registers w.kernel.current) num value);
}

-- The thread that runs after a switch maps its address space: `Run` and SC_Yield call `RestoreState`.
abbrev pub switched : World → Kernel → World
switched w k = record w {
  kernel = k;
  mapped = elim (w.space k.current) [ none ↦ w.mapped | some s ↦ s ];
}

-- The loop of `getID`, of `n` rounds: every thread goes from the front to the end of the list.
pub get_id_loop : (ℕ → ℕ) → ℕ → ℕ → LinkedList ℕ → Option ℕ → Option (Option ℕ × LinkedList ℕ)
get_id_loop id to_get zero active found = some (found, active)
get_id_loop id to_get (suc n) active found =
    let (taken, rest) = remove active in
    elim taken [
      | none ↦ none
      | some t ↦ get_id_loop id to_get n (append rest t) (if id t == to_get then some t else found)
    ]

abbrev rounds : ℤ → ℕ
rounds (pos n) = n
rounds (negsuc n) = 0

-- `getID`: the thread, or `none` for NULL, and the active threads after the search.
pub get_id : (ℕ → ℕ) → ℕ → LinkedList ℕ → Option (Option ℕ × LinkedList ℕ)
unfolding get_id_loop
get_id id to_get active = get_id_loop id to_get (rounds (get_size active)) active none

abbrev pub set_active : World → LinkedList ℕ → World
set_active w active = record w { kernel = record w.kernel { active_threads = active } }

-- `getID` in the kernel.
pub find_process : World → ℕ → Option (Option ℕ × World)
unfolding get_id
find_process w to_get = do
  (found, active) ← get_id w.id to_get w.kernel.active_threads
  some (found, set_active w active)

-- The first thing that a new process does, as the current thread, before its program runs.
pub process_creator : World → Option World
process_creator w = do
  s ← w.space w.kernel.current
  some (record w {
    registers =
        update w.registers w.kernel.current
          (init_registers (w.pages s) (w.registers w.kernel.current));
    mapped = s;
    kernel = record w.kernel { to_be_destroyed = none };
  })

-- "Advance program counters."
pub advance_counters : World → World
advance_counters w =
    let w1 = write_register w prev_pc_reg (read_register w pc_reg) in
    let w2 = write_register w1 pc_reg (read_register w1 next_pc_reg) in
    write_register w2 next_pc_reg (u32 (read_register w2 next_pc_reg + 4))

-- The loop of `Exec` that reads the file name into a buffer of `n` more characters: the name, or
-- `none` when `ReadMem` fails, and the world after the reads.
pub read_name : Host → ℕ → World → ℕ → List ℕ → Option (Option (List ℕ) × World)
read_name h zero w address name = none
read_name h (suc n) w address name =
    let (byte, w') = h.read_byte w address in
    elim byte [
      | none ↦ some (none, w')
      | some c ↦ elim (c == 0) [
        | true ↦ some (some name, w')
        | false ↦ read_name h n w' (u32 (address + 1)) (name ++ (c ∷ []))
      ]
    ]

-- A new thread on a new address space, with the next identifier. The table and the page list of the address
-- space are those of its number.
pub start_process : World → AddrSpace → World
start_process w a =
    let s = w.next_object in
    let t = w.next_object + 1 in
    let k = set_status w.kernel t just_created in
    let k1 = record k {
      parent = update k.parent t none;
      is_joined = update k.is_joined t false;
      active_threads = append k.active_threads t;
    } in
    let m = record w.memory {
      my_page_list = update w.memory.my_page_list s new_list;
      page_table =
          update w.memory.page_table s (λ v. get_or a.page_table v (w.memory.page_table s v));
    } in
    let w1 = write_register w 2 w.thread_id in
    record w1 {
      kernel = fork k1 t;
      memory = m;
      pages = update w.pages s a.num_pages;
      space = update w.space t (some s);
      id = update w.id t w.thread_id;
      kill_new_child = update w.kill_new_child t false;
      thread_id = w.thread_id + 1;
      next_object = w.next_object + 2;
    }

-- SC_Exec. The buffer has 100 characters, the last of which has to end the name.
pub exec : Host → World → Option World
unfolding read_name start_process
exec h w = do
  (name, w1) ← read_name h 100 w (read_register w 4) []
  elim name [
    | none ↦ some w1
    | some n ↦ elim (h.object_file n) [
      | none ↦ some w1
      | some header ↦ (do
        a ← new_addr_space header h.start_page
        let c = w1.kernel.current
        let refused = write_register w1 2 (u32 (2 ^ 32 - (w1.thread_id + 1)))
        some (
            if not (w1.kill_new_child c)
            then start_process w1 a
            else record refused { kill_new_child = update w1.kill_new_child c false }))
    ]
  ]

-- The loop of SC_Write, with `j` characters in the buffer of 500: when `ReadMem` fails, it tries again.
pub write_loop : Host → ℕ → World → ℕ → ℕ → Option World
write_loop h zero w address j = none
write_loop h (suc n) w address j =
    let (byte, w') = h.read_byte w (u32 (address + j)) in
    elim byte [
      | none ↦ write_loop h n w' address j
      | some c ↦ elim (ltb j 500) [
        | false ↦ none
        | true ↦ elim (c == 0) [ true ↦ some w' | false ↦ write_loop h n w' address (j + 1) ]
      ]
    ]

-- SC_Join: `getID` is called for the test, for the message and for `setParent`.
pub join : Host → World → Option World
unfolding find_process
join h w =
    let to_join = read_register w 4 in
    if leb (2 ^ 31) to_join then some w else (do
      (found, w1) ← find_process w to_join
      elim found [
        | none ↦ some w1
        | some _ ↦ if w1.kernel.is_joined w1.kernel.current then some w1 else (do
          (_, w2) ← find_process w1 to_join
          (again, w3) ← find_process w2 to_join
          t ← again
          let k = w3.kernel
          let k1 = record k { parent = update k.parent t (some k.current) }
          let k2 = record k1 { is_joined = update k1.is_joined k.current true }
          k3 ← sleep h.idle h.idle_rounds k2
          some (switched w3 k3))
      ])

-- `if(currentThread->space) delete currentThread->space; currentThread->Finish();`. The loops have as
-- rounds the frames of the address space and the active threads.
pub end_process : Host → World → Option World
end_process h w = do
  m ← elim (w.space w.kernel.current) [
    | none ↦ some w.memory
    | some s ↦ delete_addr_space (length (items (w.memory.my_page_list s))) w.memory s
  ]
  k ← finish_thread h.idle h.idle_rounds (length (items w.kernel.active_threads)) w.kernel
  some (switched (record w { memory = m }) k)

-- SC_Yield
pub yield_process : World → Option World
yield_process w = do _ ← w.space w.kernel.current; some (switched w (yield w.kernel))

-- The `switch` over the system calls.
pub syscall : Host → World → Option World
unfolding exec join end_process yield_process write_loop
syscall h w =
    let type = read_register w 2 in
    if type == 0
    then none
    else if type == 1
    then end_process h w
    else if type == 2
    then exec h w
    else if type == 3
    then join h w
    else if type == 6
    then (let (result, w') = h.read_input w in some (write_register w' 2 result))
    else if type == 7
    then write_loop h h.write_rounds w (read_register w 4) 0
    else if type == 10
    then yield_process w
    else some w

-- An exception that ends the process, unless its thread is the one named "main".
pub kill_process : Host → World → Option World
unfolding end_process
kill_process h w = do assert (not (h.is_main w.kernel.current)); end_process h w

-- PageFaultException. The semaphore is new in every call of the handler, so that `P` does not wait.
pub page_fault : Host → World → Option World
page_fault h w = do
  s ← w.space w.kernel.current
  m ←
      paging w.pages h.swap_file header_size h.choice w.kernel.current w.memory s
        (read_register w bad_vaddr_reg)
  some (record w { memory = m; pf_occurred = true })

-- `ExceptionHandler`
pub exception_handler : Host → World → ExceptionType → Option World
unfolding syscall kill_process page_fault advance_counters
exception_handler h w no_exception = some w
exception_handler h w syscall_exception =
    if w.pf_occurred
    then some (record w { pf_occurred = false })
    else syscall h (advance_counters w)
exception_handler h w page_fault_exception = page_fault h w
exception_handler h w read_only_exception = kill_process h w
exception_handler h w bus_error_exception = kill_process h w
exception_handler h w address_error_exception = kill_process h w
exception_handler h w overflow_exception = kill_process h w
exception_handler h w illegal_instr_exception = kill_process h w
exception_handler h w num_exception_types = kill_process h w

-- One round of `Machine::Run`, before `OneTick`; `instruct` is what `OneInstruction` does.
unfoldable pub run_round : (World → Option World) → World → Option World
run_round instruct w =
    if not w.pf_occurred then instruct w else some (record w { pf_occurred = false })
