-- ===== src/Storage/Sql.antt =====
-- src/storage/sql/query-builder.ts: a query is gathered, then written with numbered placeholders.
-- `V` is the type of values; a condition with `in` carries the list that the code casts its value to.
pub mod Placeholders
use jobflow_project.Common.{
  Bool, List, Option, Text, [], if◌then◌else◌, join, length, none, some, text, ◌*◌, ◌++◌, ◌+◌, ◌<◌,
  ◌∷◌,
}
use jobflow_project.Dsl.Parser.Numbers.{digits}

pub data SqlOp : Type 0 where
  equal not_equal above below at_least at_most like : SqlOp

-- A condition with one value, or with a list of them.
pub data SqlCondition (V : Type 0) : Type 0 where
  compare_with : (column : Text) (op : SqlOp) (value : V) → SqlCondition V
  within_list : (column : Text) (items : List V) → SqlCondition V

pub record SqlOrder : Type 0 where
  pub column : Text
  pub desc : Bool

pub record SqlQuery (V : Type 0) : Type 0 where
  pub table : Text
  pub columns : List Text
  pub conditions : List (SqlCondition V)
  pub order_by : Option SqlOrder
  pub limit : Option V
  pub offset : Option V

abbrev pub op_text : SqlOp → Text
op_text equal = text "="
op_text not_equal = text "!="
op_text above = text ">"
op_text below = text "<"
op_text at_least = text ">="
op_text at_most = text "<="
op_text like = text "LIKE"

unfoldable pub write_order : Option SqlOrder → Text
write_order none = []
write_order (some o) =
    text " ORDER BY " ++ o.column ++ text " " ++ (if o.desc then text "DESC" else text "ASC")

module _ {V : Type 0} where
  unfoldable pub new_query : Text → SqlQuery V
  new_query table = record {
    table = table;
    columns = text "*" ∷ [];
    conditions = [];
    order_by = none;
    limit = none;
    offset = none;
  }

  unfoldable pub select_columns : List Text → SqlQuery V → SqlQuery V
  select_columns [] q = record q { columns = text "*" ∷ [] }
  select_columns (c ∷ cs) q = record q { columns = c ∷ cs }

  unfoldable pub add_condition : SqlCondition V → SqlQuery V → SqlQuery V
  add_condition c q = record q { conditions = q.conditions ++ c ∷ [] }

  unfoldable pub set_order : Text → Bool → SqlQuery V → SqlQuery V
  set_order column desc q = record q { order_by = some (record { column = column; desc = desc }) }

  unfoldable pub set_limit : V → SqlQuery V → SqlQuery V
  set_limit n q = record q { limit = some n }

  unfoldable pub set_offset : V → SqlQuery V → SqlQuery V
  set_offset n q = record q { offset = some n }

  -- `params.push(v)`, and the placeholder of its new length.
  unfoldable pub hold : V → List V → Text × List V
  hold v params = (text "$" ++ digits (length params + 1), params ++ v ∷ [])

  unfoldable pub hold_all : List V → List V → List Text × List V
  unfolding hold
  hold_all [] params = ([], params)
  hold_all (v ∷ vs) params =
      let (t, params') = hold v params in
      let (ts, params'') = hold_all vs params' in (t ∷ ts, params'')

  unfoldable pub write_condition : SqlCondition V → List V → Text × List V
  unfolding hold hold_all join
  write_condition (within_list column items) params =
      let (ts, params') = hold_all items params in
      (column ++ text " IN (" ++ join (text ", ") ts ++ text ")", params')
  write_condition (compare_with column op value) params =
      let (t, params') = hold value params in
      (column ++ text " " ++ op_text op ++ text " " ++ t, params')

  unfoldable pub write_conditions : List (SqlCondition V) → List V → List Text × List V
  unfolding write_condition
  write_conditions [] params = ([], params)
  write_conditions (c ∷ cs) params =
      let (t, params') = write_condition c params in
      let (ts, params'') = write_conditions cs params' in (t ∷ ts, params'')

  unfoldable pub write_where : List (SqlCondition V) → Text × List V
  unfolding write_conditions join
  write_where [] = ([], [])
  write_where (c ∷ cs) =
      let (ts, params) = write_conditions (c ∷ cs) [] in
      (text " WHERE " ++ join (text " AND ") ts, params)

  unfoldable pub write_bound : Text → Option V → List V → Text × List V
  unfolding hold
  write_bound word none params = ([], params)
  write_bound word (some v) params = let (t, params') = hold v params in (word ++ t, params')

  unfoldable pub build : SqlQuery V → Text × List V
  unfolding write_where write_order write_bound join
  build q =
      let (where_text, params) = write_where q.conditions in
      let (limit_text, params') = write_bound (text " LIMIT ") q.limit params in
      let (offset_text, params'') = write_bound (text " OFFSET ") q.offset params' in
      (
        text "SELECT "
            ++ join (text ", ") q.columns
            ++ text " FROM "
            ++ q.table
            ++ where_text
            ++ write_order q.order_by
            ++ limit_text
            ++ offset_text,
        params'',
      )
