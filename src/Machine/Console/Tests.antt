-- ===== src/Machine/Console/Tests.antt =====
-- machine/console.cc: "ab" and a `q` are typed.
use cmps.Prelude.{◌≡◌, arith, refl, false, some, [], ◌∷◌}
use cmps.Machine.Console.{Console, eof, new_console, console_test}
use cmps.Machine.Console.Echo.{console_test_lem}

console_test_lem_example :
    (c' : Console) × (console_test 3 (new_console (97 ∷ 98 ∷ 113 ∷ 99 ∷ [])) ≡ some c')
    × (c'.display ≡ 97 ∷ 98 ∷ 113 ∷ [])
    × (c'.keyboard ≡ 99 ∷ [])
    × (c'.incoming ≡ eof)
    × (c'.put_busy ≡ false)
console_test_lem_example =
    console_test_lem (97 ∷ 98 ∷ []) (99 ∷ []) (new_console (97 ∷ 98 ∷ 113 ∷ 99 ∷ []))
      (omega arith, omega arith, (omega arith, omega arith, tt)) refl refl refl
