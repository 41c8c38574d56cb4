-- ===== src/Userprog/Syscall/Tests.antt =====
-- userprog/exception.cc: three threads, of which the thread 1 runs.
use cmps.Prelude.{ℕ, ◌≡◌, inr, arith, refl, true, false, none, some, [], ◌∷◌, ◌==◌, if◌then◌else◌}
use cmps.Prelude.Int.{pos}
use cmps.Threads.LinkedList.{LinkedList, element}
use cmps.Threads.Scheduler.{Kernel, ready}
use cmps.Machine.State.{TranslationEntry, syscall_exception, page_fault_exception}
use cmps.Userprog.Paging.{CoreMapEntry, PhysicalMemory, fifo, replaces}
use cmps.Userprog.Paging.Frames.{IsConsistent}
use cmps.Userprog.AddrSpace.{NoffHeader}
use cmps.Userprog.Syscall.{run_round}
use cmps.Userprog.Syscall.{World, Host, read_name, exec, join, exception_handler}
use cmps.Userprog.Syscall.Processes.{Ended, IsLive, exits, exception_handler-Ended}
use cmps.Userprog.Syscall.Joins.{IsTarget, Waits, join-Waits}
use cmps.Userprog.Syscall.Starts.{IsNumbered, Started, exec-Started}
use cmps.Userprog.Syscall.Faults.{PagedIn, page_fault-run_round}

abbrev threads : LinkedList ℕ
threads = record { elements = element 0 0 ∷ element 1 0 ∷ element 2 0 ∷ []; size = pos 3 }

abbrev one_thread : LinkedList ℕ
one_thread = record { elements = element 0 0 ∷ []; size = pos 1 }

abbrev frame_five : LinkedList ℕ
frame_five = record { elements = element 5 0 ∷ []; size = pos 1 }

-- The thread 0 has joined the thread `child`.
abbrev kernel : ℕ → Kernel
kernel child = record {
  current = 1;
  to_be_destroyed = none;
  active_threads = threads;
  ready_list = one_thread;
  status = λ t. ready;
  parent = λ t. if t == child then some 0 else none;
  is_joined = λ t. t == 0;
}

abbrev no_page : ℕ → ℕ → TranslationEntry
no_page s v = record {
  virtual_page = v;
  physical_page = 0;
  valid = false;
  read_only = false;
  used = false;
  dirty = false;
}

abbrev first_page : ℕ → CoreMapEntry
first_page p = record {
  phys_page_num = p;
  virt_page_num = 0;
  thread = 0;
  space = 0;
  allocated = true;
  counter = 0;
}

abbrev memory : PhysicalMemory
memory = record {
  mem_map = record { num_bits = 32; num_words = 1; words = 33 ∷ [] };
  core_map = first_page;
  core_fifo_list = one_thread;
  num_page_faults = 3;
  main_memory = λ a. 0;
  page_table = no_page;
  my_page_list = λ s. frame_five;
  start_page = λ s. 0;
}

-- The registers 2 and 4 of all threads, and the address of a fault.
abbrev world : ℕ → ℕ → ℕ → World
world child r2 r4 = record {
  kernel = kernel child;
  memory = memory;
  registers = λ t r. if r == 2 then r2 else if r == 4 then r4 else 700;
  space = λ t. some 3;
  pages = λ s. 4;
  mapped = 3;
  id = λ t. t;
  kill_new_child = λ t. false;
  thread_id = 3;
  pf_occurred = false;
  next_object = 5;
}

abbrev program : NoffHeader
program = record {
  noff_magic_word = 0xbadfad;
  code_size = 300;
  init_data_size = 20;
  uninit_data_size = 4;
}

-- Names have one character, at address 0.
abbrev host : Host
host = record {
  idle = λ k. none;
  idle_rounds = 1;
  write_rounds = 9;
  read_byte = λ w a. (some (if a == 0 then 65 else 0), w);
  read_input = λ w. (0, w);
  object_file = λ name. some program;
  start_page = 0;
  swap_file = λ s. [];
  choice = fifo;
  is_main = λ t. false;
}

world-IsLive : IsLive (world 1 1 0)
world-IsLive = record {
  counted = refl;
  once = omega arith;
  map_valid = omega arith;
  frames_below = λ s own. (omega arith, tt);
}

exception_handler-Ended_example :
    (w' : World) × (exception_handler host (world 1 1 0) syscall_exception ≡ some w')
    × Ended (world 1 1 0) 0 w'
exception_handler-Ended_example =
    exception_handler-Ended host (world 1 1 0) syscall_exception 0 0 (exits refl refl) refl refl
      world-IsLive

two-IsTarget : IsTarget (world 2 3 2) 2 2
two-IsTarget = record { counted = refl; active = omega arith; has_id = refl; only = λ u here e. e }

join-Waits_example :
    (w' : World) × (join host (world 2 3 2) ≡ some w') × Waits (world 2 3 2) 2 0 [] w'
join-Waits_example =
    join-Waits host (world 2 3 2) 2 0 0 [] refl (omega arith) two-IsTarget refl refl

name_read : read_name host 100 (world 2 2 0) 0 [] ≡ some (some (65 ∷ []), world 2 2 0)
unfolding read_name
name_read = refl

world-IsNumbered : IsNumbered (world 2 2 0)
world-IsNumbered = record {
  counted = refl;
  made = λ u here. ground arith;
  given = λ u here. ground arith;
  different = λ u v hu hv e. e;
}

exec-Started_example :
    (t : ℕ) × (w' : World) × (exec host (world 2 2 0) ≡ some w')
    × Started (world 2 2 0) program t w'
exec-Started_example =
    exec-Started host (world 2 2 0) (world 2 2 0) (65 ∷ []) program name_read refl refl
      (omega arith) refl world-IsNumbered

world-IsConsistent : IsConsistent (λ s. 4) memory
world-IsConsistent = record {
  map_valid = omega arith;
  frames = refl;
  in_frame = λ s v h. cc;
  marked_frame = λ s v h. cc;
  owner = λ s v h. cc;
  owner_page = λ s v h. cc;
  itself = λ p lt h. refl;
  in_table = λ p lt h. omega arith;
}

page_fault-run_round_example :
    (w1 w2 : World) × (exception_handler host (world 2 3 2) page_fault_exception ≡ some w1)
    × (run_round (λ w. none) w1 ≡ some w2)
    × (exception_handler host w1 syscall_exception ≡ some w2)
    × (run_round (λ w. none) w2 ≡ none)
    × PagedIn (world 2 3 2) 3 700 w2
unfolding replaces
page_fault-run_round_example =
    page_fault-run_round host (λ w. none) (world 2 3 2) 3 refl world-IsConsistent (omega arith)
      (inr refl)
