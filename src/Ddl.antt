-- ===== src/Ddl.antt =====
-- The statements by which thinking-feature-flag-service/migrations/versions/0001_initial_schema.py
-- builds the database, with what app/models.py says of the same tables: columns, constraints,
-- indexes, functions and triggers as data, in the order of the source.
use thinking_feature_flag_se.Common.{ℕ, String, Bool, false, Option, none, List, [], ◌∷◌, ◌++◌}

pub data SqlType : Type 0 where
  sql_uuid sql_text sql_timestamptz sql_boolean sql_integer sql_bigint sql_jsonb : SqlType
  sql_varchar : ℕ → SqlType
  sql_enum : String → SqlType

-- `ondelete`
pub data OnDelete : Type 0 where
  cascade restrict set_null : OnDelete

-- `ForeignKey("table.column", ondelete=…)`
pub record ForeignKey : Type 0 where
  pub table : String
  pub column : String
  pub ondelete : OnDelete

-- A server default is given by its SQL text.
pub record Column : Type 0 where
  pub name : String
  pub type : SqlType
  pub primary_key : Bool
  pub nullable : Bool
  pub unique : Bool
  pub foreign_key : Option ForeignKey
  pub server_default : Option String

pub data Constraint : Type 0 where
  unique_constraint : List String → String → Constraint
  check_constraint : String → String → Constraint

pub data RowEvent : Type 0 where
  on_insert on_update on_delete : RowEvent

-- `CREATE TRIGGER … BEFORE events ON table FOR EACH ROW EXECUTE FUNCTION function()`
pub record Trigger : Type 0 where
  pub name : String
  pub table : String
  pub before : List RowEvent
  pub function : String

pub data Statement : Type 0 where
  create_extension : String → Statement
  create_enum : String → List String → Statement
  create_table : String → List Column → List Constraint → Statement
  create_index : String → String → List String → Statement
  -- a function whose body is one `RAISE EXCEPTION`
  create_raising_function : String → Statement
  create_trigger : Trigger → Statement
  drop_trigger : String → String → Statement
  drop_function : String → Statement
  drop_table : String → Statement
  drop_type : String → Statement

-- A column that may not be null, and has no other mark.
abbrev pub required : String → SqlType → Column
required name type = record {
  name = name;
  type = type;
  primary_key = false;
  nullable = false;
  unique = false;
  foreign_key = none;
  server_default = none;
}

-- A reference of a column of a table, with its referential action.
pub record Reference : Type 0 where
  pub child : String
  pub column : String
  pub parent : String
  pub ondelete : OnDelete

column_references : String → List Column → List Reference
column_references child [] = []
column_references child (c ∷ columns) = elim c.foreign_key [
  | none ↦ column_references child columns
  | Option.some key ↦
      record { child = child; column = c.name; parent = key.table; ondelete = key.ondelete }
      ∷ column_references child columns
]

-- The references that a script declares.
unfoldable pub references : List Statement → List Reference
unfolding column_references
references [] = []
references (create_table name columns constraints ∷ script) =
    column_references name columns ++ references script
references (_ ∷ script) = references script

unfoldable pub triggers : List Statement → List Trigger
triggers [] = []
triggers (create_trigger trigger ∷ script) = trigger ∷ triggers script
triggers (_ ∷ script) = triggers script

-- The functions that raise whenever they are called.
unfoldable pub raising : List Statement → List String
raising [] = []
raising (create_raising_function name ∷ script) = name ∷ raising script
raising (_ ∷ script) = raising script
