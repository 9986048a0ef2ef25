-- ===== src/Workflow/Registry.antt =====
-- src/workflow/registry.rs: the workflow functions by their type and version.
use raftoral.Prelude.{
  ℕ, List, [], Option, none, some, Bool, true, false, ◌&&◌, ◌≡◌, ◌↔◌, map, length, nat_beq,
  if◌then◌else◌, arith,
}
use raftoral.Prelude.Eq.{Eq, Text, text_eq, text_beq, text_beq_iff}
use raftoral.Prelude.HashMap.{HashMap, get, insert}
use raftoral.Prelude.Result.{Result, ok, err}
use raftoral.StateMachine.{Bytes}
use raftoral.Workflow.Error.{
  WorkflowError, already_exists, serialization_error, deserialization_error,
}

-- What a task that changes the state `W` gives: `none` where it waits for ever.
abbrev pub Task {ℓ} : Type 0 → Type ℓ → Type ℓ
Task W A = W → W × Option (Result WorkflowError A)

-- The key `(workflow_type, version)`.
pub record WorkflowKey : Type 0 where
  pub workflow_type : Text
  pub version : ℕ

abbrev pub workflow_key_beq : WorkflowKey → WorkflowKey → Bool
workflow_key_beq a b = text_beq a.workflow_type b.workflow_type && nat_beq a.version b.version

pub workflow_key_beq_iff : (a b : WorkflowKey) → (workflow_key_beq a b ≡ true) ↔ (a ≡ b)
workflow_key_beq_iff a b = (
  λ h. ground (arith, text_beq_iff a.workflow_type b.workflow_type),
  λ h. ground (arith, text_beq_iff a.workflow_type b.workflow_type),
)

instance abbrev pub workflow_key_eq : Eq WorkflowKey
workflow_key_eq = record { beq = workflow_key_beq; beq_iff = workflow_key_beq_iff }

module _ (W : Type 0) where
  -- A workflow function gets its input and the id of the workflow; the runtime of its context is `W`.
  abbrev pub WorkflowFunction : Type 0 → Type 0 → Type 0
  WorkflowFunction I O = I → (workflow_id : Text) → Task W O

  abbrev pub BoxedWorkflowFunction : Type 0
  BoxedWorkflowFunction = WorkflowFunction Bytes Bytes

  abbrev as_bytes : Result Text Bytes → Result WorkflowError Bytes
  as_bytes (ok bytes) = ok bytes
  as_bytes (err e) = err (serialization_error e)

  abbrev pub serialize_output :
      {O : Type 0}
      → (Result WorkflowError O → Result Text Bytes)
      → W × Option (Result WorkflowError O)
      → W × Option (Result WorkflowError Bytes)
  serialize_output to_vec (w, none) = (w, none)
  serialize_output to_vec (w, some output_result) = (w, some (as_bytes (to_vec output_result)))

  abbrev pub run :
      {I O : Type 0}
      → (Result WorkflowError O → Result Text Bytes)
      → WorkflowFunction I O
      → Text
      → W
      → Result Text I
      → W × Option (Result WorkflowError Bytes)
  run to_vec func workflow_id w (err e) = (w, some (err (deserialization_error e)))
  run to_vec func workflow_id w (ok input) = serialize_output to_vec (func input workflow_id w)

  -- `BoxedWorkflowFunction::new`: the whole result of the function is serialized.
  abbrev pub boxed :
      {I O : Type 0}
      → (from_slice : Bytes → Result Text I) → (to_vec : Result WorkflowError O → Result Text Bytes)
      → WorkflowFunction I O
      → BoxedWorkflowFunction
  boxed from_slice to_vec func input_bytes workflow_id w =
      run to_vec func workflow_id w (from_slice input_bytes)

  pub record WorkflowRegistry : Type 0 where
    pub workflows : HashMap WorkflowKey BoxedWorkflowFunction

  abbrev pub new : WorkflowRegistry
  new = record { workflows = [] }

  abbrev pub is_there : Option BoxedWorkflowFunction → Bool
  is_there none = false
  is_there (some f) = true

  unfoldable pub contains : WorkflowKey → WorkflowRegistry → Bool
  contains key self = is_there (get key self.workflows)

  -- `register`, of a function that is boxed already, and the text of the error as an argument.
  unfoldable pub register :
      (already_registered : Text)
      → WorkflowKey
      → BoxedWorkflowFunction
      → WorkflowRegistry
      → WorkflowRegistry × Result WorkflowError (Unit {0})
  unfolding contains
  register already_registered key function self =
      if contains key self
      then (self, err (already_exists already_registered))
      else (record { workflows = insert key function self.workflows }, ok tt)

  unfoldable pub get_function : WorkflowKey → WorkflowRegistry → Option BoxedWorkflowFunction
  get_function key self = get key self.workflows

  abbrev pub len : WorkflowRegistry → ℕ
  len self = length self.workflows

  abbrev pub list_workflows : WorkflowRegistry → List WorkflowKey
  list_workflows self = map (λ entry. entry.0) self.workflows
