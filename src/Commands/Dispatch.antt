-- ===== src/Commands/Dispatch.antt =====
-- matterbridgeEndpointCommandHandler.ts: which handler a command is dispatched to.
use matterbridge.Base.{
  ℕ, ◌≡◌, refl, ◌≢◌, ◌↔◌, ◌⊎◌, inl, inr, Bool, true, false, ◌&&◌, Option, none, some, List, [], ◌∷◌,
  ◌++◌, arith, ◌==◌, All, includes, join, same_text, same_text_iff, same_text_refl, split-join,
  starts_with, includes, starts_with, join, split-join, same_text, same_text, same_text_iff,
  starts_with, includes,
}
use matterbridge.Commands.{
  CommandHandlerEntry, add_handler, first_handler, last_part, fallback_command, first_fallback,
  or_next, execute_handler, remove_handler,
}

abbrev pub HasNoDot : List ℕ → Type 0
HasNoDot = All (λ c. c ≢ b'.')

includes_dot : (before after : List ℕ) → includes (b'.' ∷ []) (before ++ (b'.' ∷ after)) ≡ true
unfolding includes starts_with
includes_dot [] after = refl
includes_dot (c ∷ before) after = ground (arith, includes_dot before after)

includes_no_dot : (s : List ℕ) → HasNoDot s → includes (b'.' ∷ []) s ≡ false
unfolding includes starts_with
includes_no_dot [] h = refl
includes_no_dot (c ∷ cs) h = ground (arith, includes_no_dot cs h.1)

fallback_qualified :
    (cluster command : List ℕ)
    → HasNoDot cluster
    → HasNoDot command
    → fallback_command (cluster ++ (b'.' ∷ command)) ≡ some command
unfolding fallback_command last_part join
fallback_qualified cluster command h k =
    rw (includes_dot cluster command, split-join b'.' cluster (command ∷ []) (h, (k, tt))) refl

fallback_plain : (command : List ℕ) → HasNoDot command → fallback_command command ≡ none
unfolding fallback_command
fallback_plain command k = rw (includes_no_dot command k) refl

-- The handler of the first entry that was registered for a command.
abbrev pub IsFirst : List CommandHandlerEntry → List ℕ → ℕ → Type 0
IsFirst [] command handler = ⊥
IsFirst (e ∷ entries) command handler =
    ((e.command ≡ command) × (e.handler ≡ handler))
    ⊎ ((e.command ≢ command) × IsFirst entries command handler)

abbrev pub IsUnregistered : List ℕ → List CommandHandlerEntry → Type 0
IsUnregistered command = All (λ e. e.command ≢ command)

first_handler_iff :
    (entries : List CommandHandlerEntry) (command : List ℕ) (handler : ℕ)
    → (first_handler entries command ≡ some handler) ↔ IsFirst entries command handler
unfolding first_handler
first_handler_iff [] command handler = ground arith
first_handler_iff (e ∷ entries) command handler =
    ground (arith, same_text_iff e.command command, first_handler_iff entries command handler)

first_handler-none :
    (entries : List CommandHandlerEntry) (command : List ℕ)
    → (first_handler entries command ≡ none) ↔ IsUnregistered command entries
unfolding first_handler
first_handler-none [] command = ground arith
first_handler-none (e ∷ entries) command =
    ground (arith, same_text_iff e.command command, first_handler-none entries command)

or_next-none : (o : Option ℕ) → or_next o none ≡ o
unfolding or_next
or_next-none none = refl
or_next-none (some n) = refl

or_next_iff :
    (a b : Option ℕ) (handler : ℕ)
    → (or_next a b ≡ some handler) ↔ ((a ≡ some handler) ⊎ ((a ≡ none) × (b ≡ some handler)))
unfolding or_next
or_next_iff none b handler = ground arith
or_next_iff (some a) b handler = ground arith

-- A command of a cluster, `Cluster.command`, is dispatched to a handler exactly if it is that of the
-- first entry that was registered for this name, or if none was, that of the first entry that was
-- registered for the command alone; and a command without a cluster exactly if it is that of the
-- first entry that was registered for it.
pub execute_handler_lem :
    (entries : List CommandHandlerEntry) (cluster command : List ℕ) (handler : ℕ)
    → HasNoDot cluster
    → HasNoDot command
    → ((execute_handler entries (cluster ++ (b'.' ∷ command)) ≡ some handler) ↔ (
        IsFirst entries (cluster ++ (b'.' ∷ command)) handler
        ⊎ (IsUnregistered (cluster ++ (b'.' ∷ command)) entries × IsFirst entries command handler)))
      × ((execute_handler entries command ≡ some handler) ↔ IsFirst entries command handler)
unfolding execute_handler first_fallback
execute_handler_lem entries cluster command handler h k =
    let name = cluster ++ (b'.' ∷ command) in
    let both = or_next_iff (first_handler entries name) (first_handler entries command) handler in
    let exact = first_handler_iff entries name handler in
    let absent = first_handler-none entries name in
    let plain = first_handler_iff entries command handler in
    (
      rw (fallback_qualified cluster command h k) (
        λ e. elim (both.0 e) [
          | inl here ↦ inl (exact.0 here)
          | inr later ↦ inr (absent.0 later.0, plain.0 later.1)
        ],
        λ found. both.1 (elim found [
          | inl here ↦ inl (exact.1 here)
          | inr later ↦ inr (absent.1 later.0, plain.1 later.1)
        ]),
      ),
      rw (fallback_plain command k, or_next-none (first_handler entries command)) plain,
    )

abbrev pub is_entry : CommandHandlerEntry → List ℕ → ℕ → Bool
is_entry e command handler = same_text e.command command && (e.handler == handler)

-- Removing a handler that was just registered, and not before for the same command, gives back the
-- handlers from before.
pub remove_handler-add_handler :
    (entries : List CommandHandlerEntry) (command : List ℕ) (handler : ℕ)
    → All (λ e. is_entry e command handler ≡ false) entries
    → remove_handler (add_handler entries command handler) command handler ≡ entries
unfolding remove_handler add_handler
remove_handler-add_handler [] command handler h = ground (arith, same_text_refl command)
remove_handler-add_handler (e ∷ entries) command handler h =
    ground (arith, h.0, remove_handler-add_handler entries command handler h.1)
