-- ===== src/Bets/Types.antt =====
-- The records of src/persistence/repositories/bet-repo.ts. Money is in cents and a multiplier in
-- hundredths. A field that may be undefined is an Option, and one that may be null too, inside it.
-- The stamp `updatedAt` is left out: no code reads it. `createdAt` is a number of milliseconds.
use crash_wave.Prelude.{ℕ, String, Option, Bool, true, false, ◌≡◌, refl, ◌↔◌, arith}
use crash_wave.Prelude.Int.{ℤ}
use crash_wave.Betting.Types.{BetState, reserved, placed}

pub record BetRecord : Type 0 where
  pub id : String
  pub session_id : Option String
  pub round_id : Option String
  pub daily_key : String
  pub stake : ℕ
  pub cash_out_target : ℕ
  pub state : BetState
  pub requested_at : Option String
  pub placed_at : Option String
  pub confirmed_at : Option String
  pub cash_out_requested_at : Option String
  pub cash_out_confirmed_at : Option String
  pub observed_cash_out_multiplier : Option ℕ
  pub confirmed_cash_out_multiplier : Option ℕ
  pub pnl : Option ℤ
  pub balance_before : Option ℤ
  pub balance_after : Option ℤ
  pub failure_reason : Option String
  pub created_at : ℕ

pub record CreateBetInput : Type 0 where
  pub session_id : Option String
  pub round_id : Option String
  pub daily_key : String
  pub stake : ℕ
  pub cash_out_target : ℕ
  pub state : Option BetState
  pub balance_before : Option ℤ

pub record UpdateBetInput : Type 0 where
  pub session_id : Option (Option String)
  pub round_id : Option (Option String)
  pub state : Option BetState
  pub requested_at : Option (Option String)
  pub placed_at : Option (Option String)
  pub confirmed_at : Option (Option String)
  pub cash_out_requested_at : Option (Option String)
  pub cash_out_confirmed_at : Option (Option String)
  pub observed_cash_out_multiplier : Option (Option ℕ)
  pub confirmed_cash_out_multiplier : Option (Option ℕ)
  pub pnl : Option (Option ℤ)
  pub balance_before : Option (Option ℤ)
  pub balance_after : Option (Option ℤ)
  pub failure_reason : Option (Option String)

-- A hit rate is its numerator and denominator; the two stamps are left out.
pub record DailyStats : Type 0 where
  pub daily_key : String
  pub entries_confirmed : ℕ
  pub entries_attempted : ℕ
  pub entries_failed : ℕ
  pub entries_reserved : ℕ
  pub entries_remaining : ℕ
  pub total_bets : ℕ
  pub wins : ℕ
  pub losses : ℕ
  pub consecutive_losses : ℕ
  pub gross_profit : ℤ
  pub gross_loss : ℤ
  pub net_pnl : ℤ
  pub balance_start : Option ℤ
  pub balance_end : Option ℤ
  pub max_drawdown : ℕ
  pub current_drawdown : ℕ
  pub hit_rate : Option (ℕ × ℕ)

unfoldable pub BetState-discrete : Discrete BetState
BetState-discrete = hlevel

unfoldable pub is_state : BetState → BetState → Bool
unfolding BetState-discrete
is_state s t = elim (BetState-discrete s t) [ yes _ ↦ true | no _ ↦ false ]

pub is_state_iff : (s t : BetState) → (is_state s t ≡ true) ↔ (s ≡ t)
unfolding is_state
is_state_iff s t = ground arith

states_differ : is_state reserved placed ≡ false
unfolding is_state
states_differ = refl

states_agree : is_state BetState.failed BetState.failed ≡ true
unfolding is_state
states_agree = refl
