-- ===== src/Settlement/Boot/Tests.antt =====
-- Boots over the engine's tables, and each theorem at an input of its own.
use crash_wave.Prelude.{◌+◌, ◌≡◌, refl, some, none, List, [], ◌∷◌}
use crash_wave.Betting.Types.{returned}
use crash_wave.Settlement.Types.{
  Verdict, Order, settled_loss, SettlementPayload, CreateOrderIntent, Db,
}
use crash_wave.Settlement.Engine.{find_order}
use crash_wave.Settlement.Books.{
  EngineCall, create, dispatch, settle, run_calls, empty_db, run_calls-WellFormed,
}
use crash_wave.Settlement.Boot.{SettlementEvidence, EvidenceStatus, Provider, boot_reconcile}
use crash_wave.Settlement.Boot.Effects.{
  AllBacked, boot_reconcile-Backed, boot_reconcile-final, boot_reconcile-counts,
}

abbrev intent : CreateOrderIntent
intent = record {
  client_order_id = "c1";
  tenant_id = none;
  bet_id = some "b1";
  game_id = none;
  round_id = some "r1";
  wager_amount = 700;
  target_multiplier = 130000000;
}

abbrev lost : SettlementPayload
lost = record {
  client_order_id = "c1";
  verdict = Verdict.loss;
  gross_payout = 0;
  multiplier = 130000000;
  settled_at = 5;
  external_reference = none;
}

abbrev evidence : EvidenceStatus → SettlementEvidence
evidence s = record {
  external_bet_id = none;
  external_tx_ref = some "x1";
  status = s;
  multiplier = none;
  gross_payout = none;
}

abbrev provider : EvidenceStatus → Provider
provider s = some (λ c. returned (some (evidence s)))

abbrev calls : List EngineCall
calls = create intent ∷ dispatch "c1" ∷ []

abbrev placed : Db
placed = run_calls calls empty_db

-- An order that the evidence voids is counted as settled.
void_counted : (boot_reconcile (provider EvidenceStatus.void) 9 200 placed).0.settled ≡ 1
unfolding boot_reconcile run_calls crash_wave.Settlement.Boot.payload_of
void_counted = refl

backed_example :
    (cs : List EngineCall) × AllBacked (provider EvidenceStatus.win) cs
    × ((boot_reconcile (provider EvidenceStatus.win) 9 200 placed).1 ≡ run_calls cs placed)
backed_example = boot_reconcile-Backed (provider EvidenceStatus.win) 9 200 placed

counts_example :
    let r = (boot_reconcile (provider EvidenceStatus.void) 9 200 placed).0 in
    (r.open_orders ≡ r.settled + r.still_open + r.errors) × (r.voided ≡ 0)
counts_example = boot_reconcile-counts (provider EvidenceStatus.void) 9 200 placed

abbrev closed : Db
closed = run_calls (create intent ∷ dispatch "c1" ∷ settle lost ∷ []) empty_db

abbrev lost_order : Order
lost_order = record {
  id = 0;
  client_order_id = "c1";
  tenant_id = none;
  bet_id = some "b1";
  game_id = none;
  round_id = some "r1";
  wager_amount = 700;
  target_multiplier = 130000000;
  status = settled_loss;
  gross_payout = some 0;
  exit_multiplier = some 130000000;
  settled_at = some 5;
  external_reference = none;
}

boot-final_example :
    find_order "c1" (boot_reconcile (provider EvidenceStatus.win) 9 200 closed).1.orders
    ≡ some lost_order
unfolding run_calls find_order
boot-final_example =
    boot_reconcile-final (provider EvidenceStatus.win) 9 200 closed "c1" lost_order
      (run_calls-WellFormed (create intent ∷ dispatch "c1" ∷ settle lost ∷ [])) refl refl
