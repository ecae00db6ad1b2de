-- ===== src/Betting/Types.antt =====
-- src/betting/types.ts with the types of src/types/betting.ts that it passes on. Timestamps are
-- left out: no code here reads them.
use crash_wave.Prelude.{ℕ, Bool, Option, String}

pub data BetState : Type 0 where
  pending reserved placed confirmed active cash_out_requested cashed_out lost failed : BetState
  unknown reconciled : BetState

pub record PlaceBetRequest : Type 0 where
  pub bet_id : String
  pub round_id : String
  pub session_id : String
  pub stake : ℕ
  pub target : ℕ
  pub idempotency_key : String
  pub dry_run : Bool

pub record BetExecutionResult : Type 0 where
  pub is_placed : Bool
  pub state : BetState
  pub error : Option String
  pub retry_count : ℕ

pub record BetPlacementResult : Type 0 where
  pub success : Bool
  pub bet_id : Option String
  pub error : Option String

-- How a call that may throw ends; an error is its message.
pub data Outcome (A : Type 0) : Type 0 where
  returned : A → Outcome A
  threw : String → Outcome A

pub data Done : Type 0 where
  done : Done

pub data IdempotencyStatus : Type 0 where
  pending completed failed unknown : IdempotencyStatus

pub record IdempotencyRecord : Type 0 where
  pub key : String
  pub status : IdempotencyStatus
  pub bet_id : String
  pub round_id : String
  pub session_id : String
  pub result : Option BetPlacementResult
  pub expires_at : Option ℕ

-- The adapter's answers, by the number of the executor's attempt that asks. The wait is the one
-- under `withTimeout`, which throws 'Bet confirmation timed out' when the adapter is too slow.
pub record BetPlacementAdapter : Type 0 where
  pub submit_bet : PlaceBetRequest → ℕ → Outcome Bool
  pub wait_for_confirmation : String → ℕ → Outcome Bool
