-- ===== src/Appliances/OperationalState.antt =====
-- behaviors/operationalStateServer.ts: MatterbridgeOperationalStateServer.
use matterbridge.Base.{
  ℕ, ◌≡◌, refl, sym, ap, ◌∙◌, inl, inr, Bool, true, false, List, [], ◌∷◌, if◌then◌else◌, Result, ok,
  err, ◌>>=◌, Result-cases,
}
use matterbridge.Appliances.{CommandHandler}

pub data OperationalStateEnum : Type 0 where
  stopped running paused failed : OperationalStateEnum

-- The error state: NoError with 'Fully operational', or another one.
pub data OperationalError : Type 0 where
  no_error : OperationalError
  other_error : ℕ → OperationalError

pub record Operation : Type 0 where
  pub operational_state : OperationalStateEnum
  pub operational_error : OperationalError

unfoldable pub initialize : Operation
initialize = record { operational_state = stopped; operational_error = no_error }

pub data OperationCommand : Type 0 where
  pause stop start resume : OperationCommand

abbrev pub target : OperationCommand → OperationalStateEnum
target pause = paused
target stop = stopped
target start = running
target resume = running

-- A command: the new attributes and the response's error state.
unfoldable pub operation_command :
    {E : Type 0}
    → CommandHandler E Operation OperationCommand
    → Operation
    → OperationCommand
    → Result E (Operation × OperationalError)
operation_command handler s pause = do
  handled ← handler s pause
  ok (record handled { operational_state = paused; operational_error = no_error }, no_error)
operation_command handler s stop = do
  handled ← handler s stop
  ok (record handled { operational_state = stopped; operational_error = no_error }, no_error)
operation_command handler s start = do
  handled ← handler s start
  ok (record handled { operational_state = running; operational_error = no_error }, no_error)
operation_command handler s resume = do
  handled ← handler s resume
  ok (record handled { operational_state = running; operational_error = no_error }, no_error)

abbrev pub operation_after :
    {E : Type 0} → Operation → Result E (Operation × OperationalError) → Operation
operation_after s (ok r) = r.0
operation_after s (err e) = s

abbrev pub run_operation :
    {E : Type 0}
    → CommandHandler E Operation OperationCommand
    → Operation
    → List OperationCommand
    → Operation
run_operation handler s [] = s
run_operation handler s (c ∷ cs) =
    run_operation handler (operation_after s (operation_command handler s c)) cs

-- The last command of a list that the device's code accepts, or else the state before.
abbrev pub accepted : {E : Type 0} → Result E Operation → Bool
accepted (ok s) = true
accepted (err e) = false

abbrev pub last_target :
    (OperationCommand → Bool) → OperationalStateEnum → List OperationCommand → OperationalStateEnum
last_target accepts before [] = before
last_target accepts before (c ∷ cs) =
    last_target accepts (if accepts c then target c else before) cs

module _ {E : Type 0} (handler : CommandHandler E Operation OperationCommand) where
  operation_command_lem :
      (s : Operation) (c : OperationCommand)
      → operation_command handler s c ≡ (
          handler s c >>= λ handled.
          ok (
            record handled { operational_state = target c; operational_error = no_error },
            no_error,
          ))
  unfolding operation_command
  operation_command_lem s pause = refl
  operation_command_lem s stop = refl
  operation_command_lem s start = refl
  operation_command_lem s resume = refl

  step_lem :
      (accepts : OperationCommand → Bool)
      → ((s : Operation) (c : OperationCommand) → accepted (handler s c) ≡ accepts c)
      → (s : Operation) (c : OperationCommand)
      → (operation_after s (operation_command handler s c)).operational_state
        ≡ (if accepts c then target c else s.operational_state)
  step_lem accepts h s c = elim (Result-cases (handler s c)) [
    | inl (t, e) ↦
        let yes : accepts c ≡ true = sym (h s c) ∙ ap accepted e in
        rw (operation_command_lem s c, e, yes) refl
    | inr (x, e) ↦
        let no : accepts c ≡ false = sym (h s c) ∙ ap accepted e in
        rw (operation_command_lem s c, e, no) refl
  ]

  -- If which commands the device's own code accepts depends only on the command, then after any
  -- commands the operational state is the target of the last accepted one: Paused after pause,
  -- Stopped after stop, Running after start and resume; without one it is the state before.
  pub run_operation-last :
      (accepts : OperationCommand → Bool)
      → ((s : Operation) (c : OperationCommand) → accepted (handler s c) ≡ accepts c)
      → (s : Operation) (cs : List OperationCommand)
      → (run_operation handler s cs).operational_state ≡ last_target accepts s.operational_state cs
  run_operation-last accepts h s [] = refl
  run_operation-last accepts h s (c ∷ cs) =
      run_operation-last accepts h (operation_after s (operation_command handler s c)) cs
      ∙ ap (λ x. last_target accepts x cs) (step_lem accepts h s c)
