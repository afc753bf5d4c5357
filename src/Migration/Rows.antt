-- ===== src/Migration/Rows.antt =====
-- What Postgres does to the rows under the schema of
-- thinking-feature-flag-service/migrations/versions/0001_initial_schema.py: the comments there on
-- RESTRICT and on the immutability trigger. Postgres lies outside the repository: it is a parameter,
-- and `RowLaws` names what its documentation says of row triggers and of referential actions.
use thinking_feature_flag_se.Common.{
  ℕ, String, ◌≡◌, refl, subst, Option, none, some, List, [], ◌∷◌, In, here, there, Option-cases,
  inl, inr,
}
use thinking_feature_flag_se.Ddl.{
  OnDelete, cascade, restrict, set_null, RowEvent, on_update, on_delete, Trigger, Reference,
  Statement, references, triggers, raising,
}
use thinking_feature_flag_se.Migration.{upgrade}

-- A database server, as far as the rows of its tables go: `execute` runs an INSERT, an UPDATE or a
-- DELETE as one transaction, with nothing for one that is aborted; `fires` says that it updates or
-- deletes a row, by itself or by a referential action.
pub record RowServer : Type 1 where
  pub State : Type 0
  pub RowContent : Type 0
  pub Command : Type 0
  pub row : String → ℕ → State → Option RowContent
  -- the id under which a column refers to another row
  pub cell : RowContent → String → Option ℕ
  pub execute : Command → State → Option State
  pub fires : Command → State → RowEvent → String → ℕ → Type 0

-- A row of the child's table that points to the id in the parent's.
pub record Refers (server : RowServer) (state : server.State) (reference : Reference) (child id : ℕ)
    : Type 0 where
  pub content : server.RowContent
  pub held : server.row reference.child child state ≡ some content
  pub points : server.cell content reference.column ≡ some id

pub record RowLaws (server : RowServer) (script : List Statement) : Type 1 where
  -- A row stays as it is, unless it is updated or deleted.
  pub keeps_row :
      (command : server.Command) (state : server.State) {after : server.State} (table : String)
      (id : ℕ) {content : server.RowContent}
      → server.execute command state ≡ some after
      → server.row table id state ≡ some content
      → ¬ (server.fires command state on_update table id)
      → ¬ (server.fires command state on_delete table id)
      → server.row table id after ≡ some content
  -- A BEFORE trigger for each row, whose function raises, aborts the command.
  pub raises :
      (command : server.Command) (state : server.State) (trigger : Trigger) (event : RowEvent)
      (id : ℕ)
      → In trigger (triggers script)
      → In trigger.function (raising script)
      → In event trigger.before
      → server.fires command state event trigger.table id
      → server.execute command state ≡ none
  -- ON DELETE CASCADE deletes the rows that point to a deleted one.
  pub cascades :
      (command : server.Command) (state : server.State) {after : server.State}
      (reference : Reference) (child id : ℕ)
      → In reference (references script)
      → reference.ondelete ≡ cascade
      → server.execute command state ≡ some after
      → server.fires command state on_delete reference.parent id
      → Refers server state reference child id
      → server.fires command state on_delete reference.child child
  -- ON DELETE RESTRICT aborts the command while a row that stays points to a deleted one.
  pub restricts :
      (command : server.Command) (state : server.State) (reference : Reference) (child id : ℕ)
      → In reference (references script)
      → reference.ondelete ≡ restrict
      → server.fires command state on_delete reference.parent id
      → Refers server state reference child id
      → ¬ (server.fires command state on_delete reference.child child)
      → server.execute command state ≡ none
  -- ON DELETE SET NULL updates the rows that stay and point to a deleted one.
  pub sets_null :
      (command : server.Command) (state : server.State) {after : server.State}
      (reference : Reference) (child id : ℕ)
      → In reference (references script)
      → reference.ondelete ≡ set_null
      → server.execute command state ≡ some after
      → server.fires command state on_delete reference.parent id
      → Refers server state reference child id
      → ¬ (server.fires command state on_delete reference.child child)
      → server.fires command state on_update reference.child child

-- The trigger of the audit log.
abbrev immutable : Trigger
immutable = record {
  name = "trg_flag_audit_log_immutable";
  table = "flag_audit_log";
  before = on_update ∷ on_delete ∷ [];
  function = "reject_audit_mutation";
}

none-ne-some {ℓ} : {A : Type ℓ} {o : Option A} {a : A} → o ≡ none → ¬ (o ≡ some a)
none-ne-some empty full = cc

module _ (server : RowServer) (laws : RowLaws server upgrade) where
  immutable_raises :
      (command : server.Command) (state : server.State) (event : RowEvent) (id : ℕ)
      → In event immutable.before
      → server.fires command state event "flag_audit_log" id
      → server.execute command state ≡ none
  unfolding upgrade triggers raising
  immutable_raises command state event id place =
      laws.raises command state immutable event id here here place

  -- Under the schema of the migration, no INSERT, UPDATE or DELETE that succeeds, on whatever table
  -- and with whatever referential actions, changes or removes a row of the audit log.
  pub execute-keeps_history :
      (command : server.Command) (state : server.State) {after : server.State} (id : ℕ)
      {content : server.RowContent}
      → server.execute command state ≡ some after
      → server.row "flag_audit_log" id state ≡ some content
      → server.row "flag_audit_log" id after ≡ some content
  execute-keeps_history command state id done held =
      laws.keeps_row command state "flag_audit_log" id done held
        (λ updated. none-ne-some (immutable_raises command state on_update id here updated) done)
        (λ deleted.
          none-ne-some (immutable_raises command state on_delete id (there here) deleted) done)

  module _ (command : server.Command) (state : server.State) {after : server.State}
      (reference : Reference) (child id : ℕ) (of_log : reference.child ≡ "flag_audit_log")
      (declared : In reference (references upgrade))
      (done : server.execute command state ≡ some after)
      (deleted : server.fires command state on_delete reference.parent id)
      (refers : Refers server state reference child id) where
    record_stays : ¬ (server.fires command state on_delete reference.child child)
    record_stays gone =
        none-ne-some
          (immutable_raises command state on_delete child (there here)
            (subst (λ table. server.fires command state on_delete table child) of_log gone))
          done

    parent_stays : (ondelete : OnDelete) → ¬ (reference.ondelete ≡ ondelete)
    parent_stays cascade action =
        record_stays
          (laws.cascades command state reference child id declared action done deleted refers)
    parent_stays restrict action =
        none-ne-some
          (laws.restricts command state reference child id declared action deleted refers
            record_stays)
          done
    parent_stays set_null action =
        none-ne-some
          (immutable_raises command state on_update child here (
            subst (λ table. server.fires command state on_update table child) of_log
              (laws.sets_null command state reference child id declared action done deleted refers
                record_stays)))
          done

  -- A command that would delete the tenant, the flag or the API key to which a record of the audit log
  -- points, by any foreign key of the log and by itself or through a cascade, fails. For the tenant
  -- and the flag that is RESTRICT; for the API key it is not what SET NULL announces.
  pub history_pins :
      (command : server.Command) (state : server.State) (reference : Reference) (child id : ℕ)
      → reference.child ≡ "flag_audit_log"
      → In reference (references upgrade)
      → Refers server state reference child id
      → server.fires command state on_delete reference.parent id
      → server.execute command state ≡ none
  history_pins command state reference child id of_log declared refers deleted =
      elim (Option-cases (server.execute command state)) [
        | inl failed ↦ failed
        | inr (after, done) ↦ absurd (
            parent_stays command state reference child id of_log declared done deleted refers
              reference.ondelete refl)
      ]
