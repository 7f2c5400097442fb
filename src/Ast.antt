-- ===== src/Ast.antt =====
-- src/parser/ast.h: the statements that the parser builds. A pointer to a base class is the data type of
-- its subclasses. A `float` is its bits.
use uni_base.Base.{ℕ, List, Option, ℤ}
use uni_base.Errors.{Str}

pub data JoinType : Type 0 where
  inner_join left_join right_join full_join : JoinType

pub data SvType : Type 0 where
  sv_type_int sv_type_float sv_type_string : SvType

pub data SvCompOp : Type 0 where
  sv_op_eq sv_op_ne sv_op_lt sv_op_gt sv_op_le sv_op_ge : SvCompOp

pub data OrderByDir : Type 0 where
  order_by_default order_by_asc order_by_desc : OrderByDir

pub record TypeLen : Type 0 where
  pub type : SvType
  pub len : ℕ

pub record ColDef : Type 0 where
  pub col_name : Str
  pub type_len : TypeLen

-- The subclasses of `Field`: a column, or a field that is none.
pub data Field : Type 0 where
  col_def : ColDef → Field
  other_field : Field

pub data Value : Type 0 where
  int_lit : ℤ → Value
  float_lit : ℕ → Value
  string_lit : Str → Value

pub record Col : Type 0 where
  pub tab_name : Str
  pub col_name : Str

pub data Expr : Type 0 where
  value : Value → Expr
  column : Col → Expr

pub record SetClause : Type 0 where
  pub col_name : Str
  pub val : Value

pub record BinaryExpr : Type 0 where
  pub lhs : Col
  pub op : SvCompOp
  pub rhs : Expr

pub record OrderBy : Type 0 where
  pub cols : Col
  pub orderby_dir : OrderByDir

pub record JoinExpr : Type 0 where
  pub left : Str
  pub right : Str
  pub conds : List BinaryExpr
  pub type : JoinType

-- `has_sort` is whether there is an `order`.
pub record SelectStmt : Type 0 where
  pub cols : List Col
  pub tabs : List Str
  pub conds : List BinaryExpr
  pub jointree : List JoinExpr
  pub order : Option OrderBy

pub data TreeNode : Type 0 where
  help show_tables txn_begin txn_commit txn_abort txn_rollback : TreeNode
  create_table : Str → List Field → TreeNode
  drop_table desc_table : Str → TreeNode
  create_index drop_index : Str → List Str → TreeNode
  insert_stmt : Str → List Value → TreeNode
  delete_stmt : Str → List BinaryExpr → TreeNode
  update_stmt : Str → List SetClause → List BinaryExpr → TreeNode
  select_stmt : SelectStmt → TreeNode
