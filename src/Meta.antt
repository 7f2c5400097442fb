-- ===== src/Meta.antt =====
-- src/system/sm_meta.h, and a column's definition in sm_manager.h: the metadata of tables, their columns and indexes. A length, an offset and a
-- count are never negative. An iterator is what it points to.
pub mod Text
pub mod RoundTrip
pub mod Tables
use uni_base.Base.{
  ℕ, List, [], ◌∷◌, Option, none, some, Bool, true, false, ◌==◌, if◌then◌else◌, length, lookup,
  insert,
}
use uni_base.Errors.{
  Str, Str-discrete, Result, ok, throw, table_not_found, column_not_found, index_not_found,
}
use uni_base.Outcome.{str_eq}
use uni_base.Defs.{ColType}

pub record ColMeta : Type 0 where
  pub tab_name : Str
  pub name : Str
  pub type : ColType
  pub len : ℕ
  pub offset : ℕ
  pub index : Bool

pub record ColDef : Type 0 where
  pub name : Str
  pub type : ColType
  pub len : ℕ

pub record IndexMeta : Type 0 where
  pub tab_name : Str
  pub col_tot_len : ℕ
  pub col_num : ℕ
  pub cols : List ColMeta

pub record TabMeta : Type 0 where
  pub name : Str
  pub cols : List ColMeta
  pub indexes : List IndexMeta

-- The copy constructor, which copies no index.
unfoldable pub copy_tab : TabMeta → TabMeta
copy_tab other = record { name = other.name; cols = other.cols; indexes = [] }

-- `std::find_if` for a column of the name.
unfoldable pub find_col : Str → List ColMeta → Option ColMeta
find_col name [] = none
find_col name (c ∷ cs) = if str_eq c.name name then some c else find_col name cs

unfoldable pub is_col : TabMeta → Str → Bool
unfolding find_col
is_col tab name = elim (find_col name tab.cols) [ none ↦ false | some c ↦ true ]

unfoldable pub get_col : TabMeta → Str → Result ColMeta
unfolding find_col
get_col tab name = elim (find_col name tab.cols) [
  | none ↦ throw (column_not_found name)
  | some c ↦ ok c
]

-- The loop over the columns of an index, which has as many as there are names.
unfoldable pub names_match : List ColMeta → List Str → Bool
names_match [] [] = true
names_match (c ∷ cs) (n ∷ ns) = if str_eq c.name n then names_match cs ns else false
names_match _ _ = false

unfoldable pub index_matches : IndexMeta → List Str → Bool
unfolding names_match
index_matches index names =
    if index.col_num == length names then names_match index.cols names else false

unfoldable pub find_index : List IndexMeta → List Str → Option IndexMeta
unfolding index_matches
find_index [] names = none
find_index (i ∷ is) names = if index_matches i names then some i else find_index is names

unfoldable pub is_index : TabMeta → List Str → Bool
unfolding find_index
is_index tab names = elim (find_index tab.indexes names) [ none ↦ false | some i ↦ true ]

unfoldable pub get_index_meta : TabMeta → List Str → Result IndexMeta
unfolding find_index
get_index_meta tab names = elim (find_index tab.indexes names) [
  | none ↦ throw (index_not_found tab.name names)
  | some i ↦ ok i
]

pub record DbMeta : Type 0 where
  pub name : Str
  pub tabs : List (Str × TabMeta)

unfoldable pub is_table : DbMeta → Str → Bool
is_table db tab_name = elim (lookup Str-discrete tab_name db.tabs) [ none ↦ false | some t ↦ true ]

unfoldable pub get_table : DbMeta → Str → Result TabMeta
get_table db tab_name = elim (lookup Str-discrete tab_name db.tabs) [
  | none ↦ throw (table_not_found tab_name)
  | some t ↦ ok t
]

-- The assignment copies the indexes as well.
unfoldable pub set_tab_meta : DbMeta → Str → TabMeta → DbMeta
set_tab_meta db tab_name meta = record db { tabs = insert Str-discrete tab_name meta db.tabs }
