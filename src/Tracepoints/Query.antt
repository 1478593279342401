-- ===== src/Tracepoints/Query.antt =====
-- Commands over a tenant's tracepoints: the conditions of pkg/deepql/storage.go, `FindTracepoints`
-- of modules/tracepoint/store/tracepointStore.go and `runQuery` of
-- modules/tracepoint/tracepointService.go. `regex` is `regexp.MatchString`, `none` its error.
pub mod Deletion
use deep.Prelude.{
  ℕ, ℤ, pos, Bytes, bytes_beq, bytes_eq, Bool, true, false, not, List, [], ◌∷◌, Option, none, some,
  Map, get, if◌then◌else◌,
}
use deep.Compaction.Format.{leb_ℤ, beq_ℤ}
use deep.Tracepoints.Config.{TracePointConfig}
use deep.Tracepoints.Store.{OrgStore, value_or_empty, delete_tracepoints}

-- The operators that a condition may have; any other is `op_other`.
pub data Operator : Type 0 where
  op_equal op_not_equal op_regex op_not_regex : Operator
  op_greater op_greater_equal op_less op_less_equal op_other : Operator

-- The fields of a static that conditions read.
pub record Static : Type 0 where
  pub n : ℤ
  pub s : Bytes

pub record Condition : Type 0 where
  pub attribute : Bytes
  pub op : Operator
  pub operands : List Static

pub record CommandRequest : Type 0 where
  pub command : Bytes
  pub conditions : List Condition

-- A loop over the operands that returns false at the first that fails.
abbrev pub every : (Static → Bool) → List Static → Bool
every test [] = true
every test (o ∷ operands) = let rest = every test operands in if test o then rest else false

abbrev pub without_error : Option Bool → Bool → Bool
without_error none expected = false
without_error (some true) expected = expected
without_error (some false) expected = not expected

abbrev pub compares : Operator → List Static → ℤ → Bool
compares op_equal operands value = every (λ (o : Static). beq_ℤ o.n value) operands
compares op_not_equal operands value = every (λ (o : Static). not (beq_ℤ o.n value)) operands
compares op_greater operands value = every (λ (o : Static). not (leb_ℤ value o.n)) operands
compares op_greater_equal operands value = every (λ (o : Static). leb_ℤ o.n value) operands
compares op_less operands value = every (λ (o : Static). not (leb_ℤ o.n value)) operands
compares op_less_equal operands value = every (λ (o : Static). leb_ℤ value o.n) operands
compares op_regex operands value = false
compares op_not_regex operands value = false
compares op_other operands value = false

unfoldable pub matches_int : Condition → ℤ → Bool
matches_int c value = compares c.op c.operands value

-- "path", "method", "id", "line" and "delete".
abbrev pub path_name : Bytes
path_name = b'p' ∷ b'a' ∷ b't' ∷ b'h' ∷ []

abbrev pub method_name : Bytes
method_name = b'm' ∷ b'e' ∷ b't' ∷ b'h' ∷ b'o' ∷ b'd' ∷ []

abbrev pub id_name : Bytes
id_name = b'i' ∷ b'd' ∷ []

abbrev pub line_name : Bytes
line_name = b'l' ∷ b'i' ∷ b'n' ∷ b'e' ∷ []

abbrev pub delete_type : Bytes
delete_type = b'd' ∷ b'e' ∷ b'l' ∷ b'e' ∷ b't' ∷ b'e' ∷ []

module _ (regex : Bytes → Bytes → Option Bool) where
  abbrev pub text_compares : Operator → List Static → Bytes → Bool
  text_compares op_equal operands value = every (λ (o : Static). bytes_beq o.s value) operands
  text_compares op_not_equal operands value =
      every (λ (o : Static). not (bytes_beq o.s value)) operands
  text_compares op_regex operands value =
      every (λ (o : Static). without_error (regex o.s value) true) operands
  text_compares op_not_regex operands value =
      every (λ (o : Static). without_error (regex o.s value) false) operands
  text_compares op_greater operands value = false
  text_compares op_greater_equal operands value = false
  text_compares op_less operands value = false
  text_compares op_less_equal operands value = false
  text_compares op_other operands value = false

  unfoldable pub matches_string : Condition → Bytes → Bool
  matches_string c value = text_compares c.op c.operands value

  -- One round of the loop of `matched`; any other attribute is passed over.
  unfoldable pub meets : TracePointConfig → Condition → Bool
  meets config c =
      if bytes_beq c.attribute path_name
      then matches_string c config.path
      else (if bytes_beq c.attribute method_name
          then matches_string c (value_or_empty (get method_name config.args))
          else (if bytes_beq c.attribute id_name
              then matches_string c config.id
              else (if bytes_beq c.attribute line_name
                  then matches_int c (pos config.line_number)
                  else true)))

  unfoldable pub matched : List Condition → TracePointConfig → Bool
  matched [] config = true
  matched (c ∷ conditions) config =
      let rest = matched conditions config in if meets config c then rest else false

  -- The loop of `FindTracepoints`.
  unfoldable pub found : List Condition → List TracePointConfig → List TracePointConfig
  found conditions [] = []
  found conditions (config ∷ tps) =
      let rest = found conditions tps in if matched conditions config then config ∷ rest else rest

  unfoldable pub find_tracepoints : CommandRequest → OrgStore → List TracePointConfig
  find_tracepoints request os = found request.conditions os.block.tps

-- `LoadAll`, a copy of the block's list.
unfoldable pub load_all : OrgStore → List TracePointConfig
load_all os = os.block.tps

abbrev pub ids_of : List TracePointConfig → List Bytes
ids_of [] = []
ids_of (t ∷ tps) = t.id ∷ ids_of tps

-- The store, the tracepoints that the command is about, and all that there are then.
pub record QueryResult : Type 0 where
  pub store : OrgStore
  pub affected : List TracePointConfig
  pub all : List TracePointConfig

abbrev pub queried : List TracePointConfig → OrgStore → QueryResult
queried tps os = record { store = os; affected = tps; all = load_all os }

module _ (hash : Bytes → ℕ) (regex : Bytes → Bytes → Option Bool) where
  unfoldable pub run_query : CommandRequest → OrgStore → Option QueryResult
  run_query request os =
      if bytes_beq request.command delete_type
      then elim (delete_tracepoints hash (ids_of (find_tracepoints regex request os)) os) [
        | none ↦ none
        | some os' ↦ some (queried (find_tracepoints regex request os) os')
      ]
      else some (queried (find_tracepoints regex request os) os)
