-- ===== src/Tests/Rows.antt =====
-- A small database server for the theorems of Migration/Rows: it refuses to delete what another row
-- points to, and whatever would touch the audit log, and the witnesses on it.
use thinking_feature_flag_se.Common.{
  ℕ, String, Bool, true, false, not, ◌&&◌, ◌||◌, ◌≡◌, refl, sym, ◌∙◌, subst, Option, none, some,
  List, [], ◌∷◌, ◌++◌, In, here, there, All, All-at, any, first, first-In, select, Bool-cases, inl,
  inr, arith, eq_self, eq_of_test, nat_eq, string_eq, ◌==◌, if◌then◌else◌,
}
use thinking_feature_flag_se.Ddl.{
  RowEvent, on_insert, on_update, on_delete, Trigger, Reference, set_null, references, triggers,
}
use thinking_feature_flag_se.Migration.{upgrade}
use thinking_feature_flag_se.Migration.Rows.{
  RowServer, RowLaws, Refers, execute-keeps_history, history_pins,
}

record Entry : Type 0 where
  table : String
  id : ℕ
  points : List (String × ℕ)

data Command : Type 0 where
  add_row : Entry → Command
  remove_row : String → ℕ → Command

abbrev is_row : String → ℕ → Entry → Bool
is_row table id e = e.table == table && e.id == id

abbrev cell_of : List (String × ℕ) → String → Option ℕ
cell_of [] column = none
cell_of ((name, id) ∷ points) column = if name == column then some id else cell_of points column

abbrev points_to : ℕ → Entry → Bool
points_to id e = any (λ (p : String × ℕ). p.1 == id) e.points

abbrev run_command : Command → List Entry → Option (List Entry)
run_command (add_row e) state = some (state ++ e ∷ [])
run_command (remove_row table id) state =
    if table == "flag_audit_log" || any (points_to id) state
    then none
    else some (select (λ e. not (is_row table id e)) state)

abbrev Fired : Command → RowEvent → String → ℕ → Type 0
Fired (remove_row table id) on_delete table' id' = (table' ≡ table) × (id' ≡ id)
Fired _ _ _ _ = ¬ Unit

abbrev small_server : RowServer
small_server = record {
  State = List Entry;
  RowContent = Entry;
  Command = Command;
  row = λ table id state. first (is_row table id) state;
  cell = λ e column. cell_of e.points column;
  execute = run_command;
  fires = λ command state event table id. Fired command event table id;
}

or_true : (b : Bool) → (b || true) ≡ true
or_true true = refl
or_true false = refl

any-In :
    {A : Type 0} (test : A → Bool) {x : A} {xs : List A}
    → In x xs
    → test x ≡ true
    → any test xs ≡ true
any-In test here hit = rw hit refl
any-In test {xs = y ∷ ys} (there m) hit = rw (any-In test m hit) (or_true (test y))

cell_of-points :
    (points : List (String × ℕ)) (column : String) {id : ℕ}
    → cell_of points column ≡ some id
    → any (λ (p : String × ℕ). p.1 == id) points ≡ true
cell_of-points [] column e = absurd (cc)
cell_of-points ((name, i) ∷ points) column {id} e = elim (Bool-cases (name == column)) [
  | inl hit ↦ let same : i ≡ id = ground arith in rw (sym same) (rw (eq_self i) refl)
  | inr missed ↦ rw (cell_of-points points column {id = id} (ground arith)) (or_true (i == id))
]

first-append :
    {A : Type 0} (test : A → Bool) (xs ys : List A) {x : A}
    → first test xs ≡ some x
    → first test (xs ++ ys) ≡ some x
first-append test [] ys e = absurd (cc)
first-append test (y ∷ xs) ys e = elim (Bool-cases (test y)) [
  | inl hit ↦ rw hit (ground arith)
  | inr missed ↦ rw missed (first-append test xs ys (ground arith))
]

first-select :
    {A : Type 0} (test keep : A → Bool) (xs : List A)
    → ((x : A) → test x ≡ true → keep x ≡ true)
    → first test (select keep xs) ≡ first test xs
first-select test keep [] kept = refl
first-select test keep (y ∷ xs) kept = elim (Bool-cases (test y)) [
  | inl hit ↦ rw (kept y hit) (rw hit refl)
  | inr missed ↦ elim (Bool-cases (keep y)) [
    | inl k ↦ rw (k) (rw missed (first-select test keep xs kept))
    | inr d ↦ rw (d, missed) (first-select test keep xs kept)
  ]
]

refused :
    (state : List Entry) (reference : Reference) (child id : ℕ) (table : String)
    → Refers small_server state reference child id
    → run_command (remove_row table id) state ≡ none
refused state reference child id table refers =
    let (place, hit) = first-In (is_row reference.child child) state refers.held in
    let pointed =
      any-In (points_to id) place
        (cell_of-points refers.content.points reference.column refers.points) in
    rw pointed (rw (or_true (table == "flag_audit_log")) refl)

not_row :
    (table : String) (id : ℕ) (table' : String) (id' : ℕ) (e : Entry)
    → ¬ ((table' ≡ table) × (id' ≡ id))
    → is_row table' id' e ≡ true
    → not (is_row table id e) ≡ true
not_row table id table' id' e apart hit = elim (Bool-cases (is_row table id e)) [
  | inr missed ↦ rw missed refl
  | inl same ↦ absurd (
      apart (
        sym (eq_of_test e.table table' (ground arith)) ∙ eq_of_test e.table table (ground arith),
        ground arith,
      ))
]

small_keeps_row :
    (command : Command) (state : List Entry) {after : List Entry} (table : String) (id : ℕ)
    {content : Entry}
    → run_command command state ≡ some after
    → first (is_row table id) state ≡ some content
    → ¬ (Fired command on_delete table id)
    → first (is_row table id) after ≡ some content
small_keeps_row (add_row e) state {after} table id {content} done held apart =
    let same : state ++ e ∷ [] ≡ after = cc in
    subst (λ rows. first (is_row table id) rows ≡ some content) same
      (first-append (is_row table id) state (e ∷ []) held)
small_keeps_row (remove_row t i) state {after} table id {content} done held apart =
    elim (Bool-cases (t == "flag_audit_log" || any (points_to i) state)) [
      | inl refused_ ↦ absurd (ground arith)
      | inr allowed ↦
          let same : select (λ e. not (is_row t i e)) state ≡ after = ground arith in
          subst (λ rows. first (is_row table id) rows ≡ some content) same
            (first-select (is_row table id) (λ e. not (is_row t i e)) state
                (λ e hit. not_row t i table id e apart hit)
              ∙ held)
    ]

trigger_tables : All (λ (t : Trigger). t.table ≡ "flag_audit_log") (triggers upgrade)
unfolding triggers upgrade
trigger_tables = (refl, tt)

small_raises :
    (command : Command) (state : List Entry) (trigger : Trigger) (event : RowEvent) (id : ℕ)
    → In trigger (triggers upgrade)
    → Fired command event trigger.table id
    → run_command command state ≡ none
small_raises (add_row e) state trigger event id place fires = absurd (fires tt)
small_raises (remove_row t i) state trigger on_insert id place fires = absurd (fires tt)
small_raises (remove_row t i) state trigger on_update id place fires = absurd (fires tt)
small_raises (remove_row t i) state trigger on_delete id place fires =
    let log : t ≡ "flag_audit_log" = sym fires.0 ∙ All-at _ place trigger_tables in rw log refl

small_refuses :
    (command : Command) (state : List Entry) (reference : Reference) (child id : ℕ)
    → Fired command on_delete reference.parent id
    → Refers small_server state reference child id
    → run_command command state ≡ none
small_refuses (add_row e) state reference child id fires refers = absurd (fires tt)
small_refuses (remove_row t i) state reference child id fires refers =
    rw (sym fires.1) (refused state reference child id t refers)

small_laws : RowLaws small_server upgrade
small_laws = record {
  keeps_row = λ command state table id done held updated deleted.
      small_keeps_row command state table id done held deleted;
  raises = λ command state trigger event id place function before fires.
      small_raises command state trigger event id place fires;
  cascades = λ command state reference child id place action done fires refers.
      absurd (cc (small_refuses command state reference child id fires refers, done));
  restricts = λ command state reference child id place action fires refers stays.
      small_refuses command state reference child id fires refers;
  sets_null = λ command state reference child id place action done fires refers stays.
      absurd (cc (small_refuses command state reference child id fires refers, done));
}

-- A tenant, its key, and a record of what the key has done.
abbrev created : Entry
created = record {
  table = "flag_audit_log";
  id = 1;
  points = ("tenant_id", 10) ∷ ("flag_id", 30) ∷ ("actor_key_id", 20) ∷ [];
}

abbrev rows : List Entry
rows =
    record { table = "tenants"; id = 10; points = [] }
    ∷ record { table = "api_keys"; id = 20; points = ("tenant_id", 10) ∷ [] }
    ∷ created
    ∷ []

abbrev unused : Entry
unused = record { table = "api_keys"; id = 21; points = [] }

execute-keeps_history_example :
    first (is_row "flag_audit_log" 1) (rows ++ unused ∷ []) ≡ some created
execute-keeps_history_example =
    execute-keeps_history small_server small_laws (add_row unused) rows 1 refl refl

abbrev actor : Reference
actor = record {
  child = "flag_audit_log";
  column = "actor_key_id";
  parent = "api_keys";
  ondelete = set_null;
}

actor_declared : In actor (references upgrade)
unfolding references upgrade
actor_declared = there (there (there (there (there (there here)))))

history_pins_example : run_command (remove_row "api_keys" 20) rows ≡ none
history_pins_example =
    history_pins small_server small_laws (remove_row "api_keys" 20) rows actor 1 20 refl
      actor_declared (record { content = created; held = refl; points = refl }) (refl, refl)
