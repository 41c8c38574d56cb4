-- ===== src/Machine/Console.antt =====
-- machine/console.cc: the simulated terminal, and the echo of userprog/progtest.cc on it. A character is
-- below 256, and `EOF` in a character is 255. The files of the host are what is still to be typed and
-- what has been shown. The interrupts that the device schedules are left out: a thread that waits for one
-- goes on when it has come. `none` is a failed ASSERT, or a wait without an end.
pub mod Echo
mod Tests
use cmps.Prelude.{
  ℕ, zero, suc, Bool, true, false, not, Option, none, some, List, [], ◌∷◌, ◌++◌, ◌==◌,
  if◌then◌else◌, ◌>>=◌, ◌>>◌, assert,
}

abbrev pub eof : ℕ
eof = 255

pub record Console : Type 0 where
  pub incoming : ℕ
  pub put_busy : Bool
  pub keyboard : List ℕ
  pub display : List ℕ

-- `Console::Console` on the files of the host.
abbrev pub new_console : List ℕ → Console
new_console keyboard = record {
  incoming = eof;
  put_busy = false;
  keyboard = keyboard;
  display = [];
}

-- `CheckCharAvail`: whether it calls the handler, and the console.
unfoldable pub check_char_avail : Console → Bool × Console
check_char_avail c = if not (c.incoming == eof) then (false, c) else elim c.keyboard [
  | [] ↦ (false, c)
  | ch ∷ rest ↦ (true, record c { incoming = ch; keyboard = rest })
]

-- `WriteDone`, without the handler.
abbrev pub write_done : Console → Console
write_done c = record c { put_busy = false }

unfoldable pub get_char : Console → ℕ × Console
get_char c = (c.incoming, record c { incoming = eof })

unfoldable pub put_char : Console → ℕ → Option Console
put_char c ch = do
  assert (not c.put_busy)
  some (record c { display = c.display ++ (ch ∷ []); put_busy = true })

-- `ConsoleTest` of userprog/progtest.cc, of `n` rounds: `q` is 113.
pub console_test : ℕ → Console → Option Console
unfolding check_char_avail get_char put_char
console_test zero c = none
console_test (suc n) c = do
  let (arrived, c1) = check_char_avail c
  assert arrived
  let (ch, c2) = get_char c1
  c3 ← put_char c2 ch
  let c4 = write_done c3
  elim (ch == 113) [ true ↦ some c4 | false ↦ console_test n c4 ]
