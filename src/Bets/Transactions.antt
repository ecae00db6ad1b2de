-- ===== src/Bets/Transactions.antt =====
-- The transactions of src/persistence/repositories/bet-repo.ts on a database without the table of
-- financial events, which the migrations in use do not make.
use mathlib.Core.Path.{subst}
use crash_wave.Prelude.{
  ℕ, ◌≡◌, refl, ◌∙◌, sym, String, Option, none, some, Bool, true, false, List, [], ◌∷◌, arith, ap,
}
use crash_wave.Prelude.Int.{ℤ, pos}
use crash_wave.Betting.Types.{BetState, Outcome, returned, threw}
use crash_wave.Bets.Types.{BetRecord, CreateBetInput, UpdateBetInput, is_state}
use crash_wave.Bets.Postgres.{
  FinancialEvent, SystemEvent, bet_intended, entry_approved, Statement, begin, commit, rollback,
  insert_bet, insert_event, enqueue_outbox_event, select_for_update, update_bet, Connection,
  attempt, and_then, committed, created, create, initial_state, announce, record_events, written,
  locked, update, has_fields, financial_event_type, system_event_for_state,
}

abbrev pub is_commit : Statement → Bool
is_commit commit = true
is_commit _ = false

abbrev pub is_end : Statement → Bool
is_end commit = true
is_end rollback = true
is_end _ = false

-- What PostgreSQL documents of a transaction block, as long as the connection lasts. BEGIN changes no
-- data, and one that succeeds opens a block, which lasts up to a COMMIT or a ROLLBACK. Of the
-- statements in a block only COMMIT changes what others read. One that fails, other than those that
-- end the block, aborts it, and no later statement undoes that but its end. Committing an aborted
-- block answers without an error and rolls back. Of statements outside a block, which PostgreSQL
-- commits by themselves, nothing is said.
pub record TransactionRules {D : Type 0} (db : Connection D) : Type 0 where
  pub in_block : D → Bool
  pub aborted : D → Bool
  pub isolated :
      (q : Statement) (d : D) (id : String)
      → is_commit q ≡ false
      → in_block d ≡ true
      → db.stored (db.query q d).1 id ≡ db.stored d id
  pub begin_reads : (d : D) (id : String) → db.stored (db.query begin d).1 id ≡ db.stored d id
  pub begins :
      (d : D) (rows : List BetRecord)
      → (db.query begin d).0 ≡ returned rows
      → in_block (db.query begin d).1 ≡ true
  pub stays_in :
      (q : Statement) (d : D)
      → is_end q ≡ false
      → in_block d ≡ true
      → in_block (db.query q d).1 ≡ true
  pub aborts :
      (q : Statement) (d : D) (m : String)
      → is_end q ≡ false
      → in_block d ≡ true
      → (db.query q d).0 ≡ threw m
      → aborted (db.query q d).1 ≡ true
  pub stays_aborted :
      (q : Statement) (d : D)
      → is_end q ≡ false
      → aborted d ≡ true
      → aborted (db.query q d).1 ≡ true
  pub commit_answers : (d : D) → aborted d ≡ true → (db.query commit d).0 ≡ returned []
  pub commit_rolls_back :
      (d : D) (id : String) → aborted d ≡ true → db.stored (db.query commit d).1 id ≡ db.stored d id

-- Every INSERT into the table of financial events fails.
abbrev pub NoEventTable : {D : Type 0} → Connection D → Type 0
NoEventTable {D} db =
    (id : String) (t : FinancialEvent) (a : Option ℤ) (x : Option ℕ) (d : D)
    → (m : String) × ((db.query (insert_event id t a x) d).0 ≡ threw m)

returned_inj : {A : Type 0} {a b : A} → returned a ≡ returned b → a ≡ b
returned_inj e = cc

threw_not_returned : {A : Type 0} {m : String} {a : A} → threw m ≡ returned a → ⊥
threw_not_returned e = cc

and_then-returned :
    {D A : Type 0} (db : Connection D) (w : Outcome (List BetRecord) × D)
    (k : List BetRecord → D → Outcome A × D) (rows : List BetRecord)
    → w.0 ≡ returned rows
    → and_then db w k ≡ k rows w.1
and_then-returned db (threw m, d) k rows e = absurd (threw_not_returned e)
and_then-returned db (returned r, d) k rows e = ap (λ (x : List BetRecord). k x d) (returned_inj e)

has_fields-state :
    (input : UpdateBetInput) (s : BetState) → input.state ≡ some s → has_fields input ≡ true
unfolding has_fields
has_fields-state input s e = ground arith

-- The call returned what is given, and others read what they read before it.
abbrev pub Lost : {D A : Type 0} → Connection D → A → D → Outcome A × D → Type 0
Lost db a d (o, d') = (o ≡ returned a) × ((id : String) → db.stored d' id ≡ db.stored d id)

module _ {D : Type 0} (db : Connection D) (rules : TransactionRules db)
    (missing : NoEventTable db) where
  committed-Lost :
      {A : Type 0} (a : A) (d : D) → rules.aborted d ≡ true → Lost db a d (committed db a d)
  committed-Lost a d h =
      subst (Lost db a d)
        (sym (
          and_then-returned db (db.query commit d) (λ _ d'. (returned a, d')) []
            (rules.commit_answers d h)))
        (refl, λ id. rules.commit_rolls_back d id h)

  -- What was lost from a later state of the connection was lost from an earlier one that others
  -- read alike.
  Lost-earlier :
      {A : Type 0} (a : A) (d0 d1 : D) (w : Outcome A × D)
      → ((id : String) → db.stored d1 id ≡ db.stored d0 id)
      → Lost db a d1 w
      → Lost db a d0 w
  Lost-earlier a d0 d1 (o, d') same (e, h) = (e, λ id. h id ∙ same id)

  event_aborts :
      (id : String) (t : FinancialEvent) (a : Option ℤ) (x : Option ℕ) (d : D)
      → rules.in_block d ≡ true
      → rules.aborted (attempt db (insert_event id t a x) d) ≡ true
  event_aborts id t a x d h =
      let (m, e) = missing id t a x d in rules.aborts (insert_event id t a x) d m refl h e

  created-Lost :
      (b : BetRecord) (rows : List BetRecord) (d : D)
      → rules.in_block d ≡ true
      → Lost db b d (created db (b ∷ rows) d)
  unfolding created
  created-Lost b rows d h =
      let q1 = insert_event b.id bet_intended (some (pos b.stake)) none in
      let q2 = enqueue_outbox_event b.id entry_approved in
      let d1 = attempt db q1 d in
      Lost-earlier b d (attempt db q2 d1) (created db (b ∷ rows) d)
        (λ id.
          rules.isolated q2 d1 id refl (rules.stays_in q1 d refl h) ∙ rules.isolated q1 d id refl h)
        (committed-Lost b (attempt db q2 d1) (
          rules.stays_aborted q2 d1 refl
            (event_aborts b.id bet_intended (some (pos b.stake)) none d h)))

  -- On a database that keeps the documented rules of transactions and has no table of financial
  -- events, a creation whose BEGIN and INSERT succeed returns the row of the INSERT, and everyone
  -- reads what was read before: the bet is not stored.
  pub create-Lost :
      (input : CreateBetInput) (d : D) (r rows : List BetRecord) (b : BetRecord)
      → (db.query begin d).0 ≡ returned r
      → (db.query (insert_bet input (initial_state input.state)) (db.query begin d).1).0
        ≡ returned (b ∷ rows)
      → Lost db b d (create db input d)
  unfolding create
  create-Lost input d r rows b e f =
      let q = insert_bet input (initial_state input.state) in
      let d1 = (db.query begin d).1 in
      let d2 = (db.query q d1).1 in
      let open_block = rules.begins d r e in
      subst (Lost db b d)
        (sym (
          and_then-returned db (db.query begin d) (λ _ d'. and_then db (db.query q d') (created db))
            r e
          ∙ and_then-returned db (db.query q d1) (created db) (b ∷ rows) f))
        (Lost-earlier b d d2 (created db (b ∷ rows) d2)
          (λ id. rules.isolated q d1 id refl open_block ∙ rules.begin_reads d id)
          (created-Lost b rows d2 (rules.stays_in q d1 refl open_block)))

  announce-aborted :
      (id : String) (o : Option SystemEvent) (d : D)
      → rules.aborted d ≡ true
      → rules.aborted (announce db id o d) ≡ true
  unfolding announce
  announce-aborted id none d h = h
  announce-aborted id (some e) d h = rules.stays_aborted (enqueue_outbox_event id e) d refl h

  announce-isolated :
      (id : String) (o : Option SystemEvent) (d : D) (j : String)
      → rules.in_block d ≡ true
      → db.stored (announce db id o d) j ≡ db.stored d j
  unfolding announce
  announce-isolated id none d j h = refl
  announce-isolated id (some e) d j h = rules.isolated (enqueue_outbox_event id e) d j refl h

  -- A change of state is written behind an aborted transaction.
  written-Lost :
      (id : String) (input : UpdateBetInput) (s : BetState) (old new : BetRecord)
      (rows : List BetRecord) (d : D)
      → rules.in_block d ≡ true
      → input.state ≡ some s
      → is_state s old.state ≡ false
      → Lost db (some new) d (written db id input old (new ∷ rows) d)
  unfolding written record_events
  written-Lost id input s old new rows d h e differs =
      let q = insert_event id (financial_event_type s) new.pnl new.confirmed_cash_out_multiplier in
      let d1 = attempt db q d in
      let d2 = announce db id (system_event_for_state s) d1 in
      subst (λ (x : D). Lost db (some new) d (committed db (some new) x)) (sym reach)
        (Lost-earlier (some new) d d2 (committed db (some new) d2)
          (λ j.
            announce-isolated id (system_event_for_state s) d1 j (rules.stays_in q d refl h)
            ∙ rules.isolated q d j refl h)
          (committed-Lost (some new) d2 (
            announce-aborted id (system_event_for_state s) d1 (
              event_aborts id (financial_event_type s) new.pnl new.confirmed_cash_out_multiplier d
                h))))
    where
      reach :
          record_events db id input.state old new d
          ≡ announce db id (system_event_for_state s) (
              attempt db
                (insert_event id (financial_event_type s) new.pnl new.confirmed_cash_out_multiplier)
                d)
      reach = rw (e, differs) refl

  -- On a database that keeps the documented rules of transactions and has no table of financial
  -- events, an update that changes the state and whose statements on the table of bets succeed
  -- returns the row that it wrote, and everyone reads what was read before: the change is not
  -- stored.
  pub update-Lost :
      (id : String) (input : UpdateBetInput) (s : BetState) (d : D) (r olds news : List BetRecord)
      (old new : BetRecord)
      → input.state ≡ some s
      → is_state s old.state ≡ false
      → (db.query begin d).0 ≡ returned r
      → (db.query (select_for_update id) (db.query begin d).1).0 ≡ returned (old ∷ olds)
      → (db.query (update_bet id input) (db.query (select_for_update id) (db.query begin d).1).1).0
        ≡ returned (new ∷ news)
      → Lost db (some new) d (update db id input d)
  unfolding update locked
  update-Lost id input s d r olds news old new e differs f g h =
      let d1 = (db.query begin d).1 in
      let d2 = (db.query (select_for_update id) d1).1 in
      let d3 = (db.query (update_bet id input) d2).1 in
      let in1 = rules.begins d r f in
      let in2 = rules.stays_in (select_for_update id) d1 refl in1 in
      let steps =
        and_then-returned db (db.query begin d)
          (λ _ d'. and_then db (db.query (select_for_update id) d') (locked db id input)) r f
        ∙ and_then-returned db (db.query (select_for_update id) d1) (locked db id input)
            (old ∷ olds) g
        ∙ and_then-returned db (db.query (update_bet id input) d2) (written db id input old)
            (new ∷ news) h in
      subst (Lost db (some new) d) (sym (asks ∙ steps)) (
        Lost-earlier (some new) d d3 (written db id input old (new ∷ news) d3)
          (λ j.
            rules.isolated (update_bet id input) d2 j refl in2
            ∙ rules.isolated (select_for_update id) d1 j refl in1
            ∙ rules.begin_reads d j)
          (written-Lost id input s old new news d3
            (rules.stays_in (update_bet id input) d2 refl in2) e differs))
    where
      asks :
          update db id input d
          ≡ and_then db
              (db.query begin d)
              (λ _ d'. and_then db (db.query (select_for_update id) d') (locked db id input))
      asks = rw (has_fields-state input s e) refl
