-- ===== src/Commands/Tests.antt =====
-- Three handlers, and the theorems of the dispatch there.
use matterbridge.Base.{
  ℕ, ◌≡◌, refl, ◌↔◌, ◌⊎◌, some, List, [], ◌∷◌, ◌++◌, arith, same_text, same_text, same_text,
}
use matterbridge.Commands.{CommandHandlerEntry, first_handler, or_next, execute_handler}
use matterbridge.Commands.Dispatch.{IsFirst, IsUnregistered, execute_handler_lem}

-- "OnOff" and "on".
abbrev cluster : List ℕ
cluster = 79 ∷ 110 ∷ 79 ∷ 102 ∷ 102 ∷ []

abbrev command : List ℕ
command = 111 ∷ 110 ∷ []

abbrev entries : List CommandHandlerEntry
entries =
    record { command = command; handler = 1 }
    ∷ record { command = cluster ++ (b'.' ∷ command); handler = 2 }
    ∷ record { command = command; handler = 3 }
    ∷ []

executes_qualified : execute_handler entries (cluster ++ (b'.' ∷ command)) ≡ some 2
unfolding execute_handler first_handler or_next same_text
executes_qualified = refl

execute_handler_lem_example :
    ((execute_handler entries (cluster ++ (b'.' ∷ command)) ≡ some 2) ↔ (
      IsFirst entries (cluster ++ (b'.' ∷ command)) 2
      ⊎ (IsUnregistered (cluster ++ (b'.' ∷ command)) entries × IsFirst entries command 2)))
    × ((execute_handler entries command ≡ some 2) ↔ IsFirst entries command 2)
execute_handler_lem_example =
    execute_handler_lem entries cluster command 2
      (ground arith, (ground arith, (ground arith, (ground arith, (ground arith, tt)))))
      (ground arith, (ground arith, tt))
