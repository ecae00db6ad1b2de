-- ===== src/StateMachine.antt =====
-- The betting state machine, src/core/state-machine/: types.ts, transitions.ts, guards.ts and
-- machine.ts, each in the child of that name (`Effects`, `Dispatch` and `Config` are machine.ts).
pub mod Types
pub mod Transitions
pub mod Guards
pub mod Effects
pub mod Dispatch
pub mod Config
pub mod Table
pub mod View
pub mod Safety
pub mod Entry
pub mod Runs
pub mod Halt
pub mod BetFlag
pub mod OpenBet
pub mod Graph
mod Tests
