-- ===== src/Commands.antt =====
-- packages/core/src/matterbridgeEndpointCommandHandler.ts: class CommandHandler, the list of the
-- handlers that plugins register for commands, and the choice of the one that is executed. A handler
-- is a function of a plugin, known here by its identity, a number.
pub mod Dispatch
pub mod Tests
use matterbridge.Base.{
  ℕ, Bool, false, ◌||◌, not, Option, none, some, List, [], ◌∷◌, ◌++◌, ◌==◌, if◌then◌else◌, includes,
  same_text, split, includes, split,
}

pub record CommandHandlerEntry : Type 0 where
  pub command : List ℕ
  pub handler : ℕ

unfoldable pub has_handler : List CommandHandlerEntry → List ℕ → Bool
has_handler [] command = false
has_handler (e ∷ entries) command = same_text e.command command || has_handler entries command

unfoldable pub add_handler : List CommandHandlerEntry → List ℕ → ℕ → List CommandHandlerEntry
add_handler entries command handler =
    entries ++ record { command = command; handler = handler } ∷ []

-- A loop of executeHandler: the first entry of the command.
unfoldable pub first_handler : List CommandHandlerEntry → List ℕ → Option ℕ
first_handler [] command = none
first_handler (e ∷ entries) command =
    if same_text e.command command then some e.handler else first_handler entries command

-- `parts.pop()`.
unfoldable pub last_part : List (List ℕ) → Option (List ℕ)
last_part [] = none
last_part (part ∷ []) = some part
last_part (part ∷ next ∷ parts) = last_part (next ∷ parts)

unfoldable pub fallback_command : List ℕ → Option (List ℕ)
unfolding last_part
fallback_command command =
    if includes (b'.' ∷ []) command then last_part (split b'.' command) else none

unfoldable pub first_fallback : List CommandHandlerEntry → Option (List ℕ) → Option ℕ
first_fallback entries none = none
first_fallback entries (some command) = first_handler entries command

unfoldable pub or_next : Option ℕ → Option ℕ → Option ℕ
or_next none next = next
or_next (some handler) next = some handler

-- The handler that executeHandler calls with the arguments, whose result it returns.
unfoldable pub execute_handler : List CommandHandlerEntry → List ℕ → Option ℕ
unfolding first_handler fallback_command first_fallback or_next
execute_handler entries command =
    or_next (first_handler entries command) (first_fallback entries (fallback_command command))

unfoldable pub remove_handler : List CommandHandlerEntry → List ℕ → ℕ → List CommandHandlerEntry
remove_handler [] command handler = []
remove_handler (e ∷ entries) command handler =
    let rest = remove_handler entries command handler in
    if not (same_text e.command command) || not (e.handler == handler) then e ∷ rest else rest
