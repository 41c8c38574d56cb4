-- ===== src/Machine/Console/Echo.antt =====
-- machine/console.cc: what is typed is shown.
use cmps.Prelude.{ℕ, suc, ◌≡◌, ◌≢◌, refl, ◌∙◌, false, some, List, [], ◌∷◌, ◌++◌, length, ==_of_ne}
use mathlib.Core.List.{append_assoc}
use cmps.Machine.Console.{Console, eof, check_char_avail, get_char, put_char, console_test}

-- A character that is neither `q` nor what the console takes for the end of the file.
abbrev pub AllPlain : List ℕ → Type 0
AllPlain [] = Unit
AllPlain (ch ∷ chs) = (ch ≢ 113) × (ch ≢ eof) × AllPlain chs

-- The console when the characters have been shown.
abbrev pub shown : Console → List ℕ → List ℕ → Console
shown c chs rest = record c { keyboard = rest; display = c.display ++ chs }

-- The echo on a console that is not busy, when some characters, a `q` and others are typed: it returns in
-- the round of the `q`; all up to the `q` is shown, in order and once; and what was typed behind it is
-- still to be read.
pub console_test_lem :
    (typed rest : List ℕ) (c : Console)
    → AllPlain typed
    → c.incoming ≡ eof
    → c.put_busy ≡ false
    → c.keyboard ≡ typed ++ (113 ∷ rest)
    → (c' : Console) × (console_test (suc (length typed)) c ≡ some c')
      × (c'.display ≡ c.display ++ (typed ++ (113 ∷ [])))
      × (c'.keyboard ≡ rest)
      × (c'.incoming ≡ eof)
      × (c'.put_busy ≡ false)
unfolding console_test check_char_avail get_char put_char
console_test_lem [] rest c plain empty free keys = (
  record { incoming = eof; put_busy = false; keyboard = rest; display = c.display ++ (113 ∷ []) },
  rw (empty, keys, free) refl,
  refl,
  refl,
  refl,
  refl,
)
console_test_lem (ch ∷ chs) rest c plain empty free keys =
    let c1 : Console = record {
      incoming = eof;
      put_busy = false;
      keyboard = chs ++ (113 ∷ rest);
      display = c.display ++ (ch ∷ []);
    } in
    let (c', echoed, display, left, empty', free') =
      console_test_lem chs rest c1 plain.2 refl refl refl in
    (
      c',
      rw (empty, keys, free, ==_of_ne ch 113 plain.0) echoed,
      display ∙ append_assoc c.display (ch ∷ []) (chs ++ (113 ∷ [])),
      left,
      empty',
      free',
    )
