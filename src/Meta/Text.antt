-- ===== src/Meta/Text.antt =====
-- The text of the metadata, src/system/sm_meta.h and the operators of src/defs.h for an `enum`: what `<<` writes
-- and `>>` reads. The map of the tables is written in the order of the names.
use uni_base.Base.{
  ℕ, List, [], ◌∷◌, ◌++◌, none, some, Bool, true, false, ltb, ◌==◌, if◌then◌else◌, length,
}
use uni_base.Errors.{Str}
use uni_base.Defs.{ColType, type_int, type_float, type_string}
use uni_base.Streams.{Reader, ◌>>=◌, pure, read_str, read_nat, show_nat, read_many}
use uni_base.Meta.{ColMeta, IndexMeta, TabMeta, DbMeta, set_tab_meta}

-- The largest `int` and `size_t`.
abbrev pub int_max : ℕ
int_max = 2147483647

abbrev pub size_max : ℕ
size_max = 18446744073709551615

unfoldable pub type_number : ColType → ℕ
type_number type_int = 0
type_number type_float = 1
type_number type_string = 2

abbrev pub bool_number : Bool → ℕ
bool_number true = 1
bool_number false = 0

abbrev type_from : ℕ → Reader ColType
type_from n s =
    if n == 0
    then some (type_int, s)
    else if n == 1
    then some (type_float, s)
    else if n == 2
    then some (type_string, s)
    else none

-- Of other numbers there is no type, and the model has no result.
unfoldable pub read_type : Reader ColType
unfolding read_nat
read_type = read_nat int_max >>= type_from

abbrev bool_from : ℕ → Reader Bool
bool_from n s = if n == 0 then some (false, s) else if n == 1 then some (true, s) else none

-- A `bool` is read as a `long`.
unfoldable pub read_bool : Reader Bool
unfolding read_nat
read_bool = read_nat 9223372036854775807 >>= bool_from

unfoldable pub write_col : ColMeta → Str
unfolding show_nat type_number
write_col col =
    col.tab_name
    ++ (32
        ∷ (col.name
            ++ (32
                ∷ (show_nat (type_number col.type)
                    ++ (32
                        ∷ (show_nat col.len
                            ++ (32
                                ∷ (show_nat col.offset
                                    ++ (32 ∷ show_nat (bool_number col.index))))))))))

unfoldable pub read_col : Reader ColMeta
unfolding read_str read_nat read_type read_bool
read_col = do
  tab_name ← read_str
  name ← read_str
  type ← read_type
  len ← read_nat int_max
  offset ← read_nat int_max
  index ← read_bool
  pure (record {
    tab_name = tab_name;
    name = name;
    type = type;
    len = len;
    offset = offset;
    index = index;
  })

-- Each column on a line of its own, behind the line of the index.
unfoldable pub write_index_cols : List ColMeta → Str
unfolding write_col
write_index_cols [] = []
write_index_cols (col ∷ cols) = 10 ∷ (write_col col ++ write_index_cols cols)

unfoldable pub write_index : IndexMeta → Str
unfolding show_nat write_index_cols
write_index index =
    index.tab_name
    ++ (32
        ∷ (show_nat index.col_tot_len
            ++ (32 ∷ (show_nat index.col_num ++ write_index_cols index.cols))))

unfoldable pub read_index : Reader IndexMeta
unfolding read_str read_nat read_many read_col
read_index = do
  tab_name ← read_str
  col_tot_len ← read_nat int_max
  col_num ← read_nat int_max
  cols ← read_many read_col col_num
  pure (record { tab_name = tab_name; col_tot_len = col_tot_len; col_num = col_num; cols = cols })

unfoldable pub write_lines : {A : Type 0} → (A → Str) → List A → Str
write_lines write [] = []
write_lines write (x ∷ xs) = write x ++ (10 ∷ write_lines write xs)

unfoldable pub write_tab : TabMeta → Str
unfolding show_nat write_lines write_col write_index
write_tab tab =
    tab.name
    ++ (10
        ∷ (show_nat (length tab.cols)
            ++ (10
                ∷ (write_lines write_col tab.cols
                    ++ (show_nat (length tab.indexes)
                        ++ (10 ∷ write_lines write_index tab.indexes))))))

-- Into a new `TabMeta`.
unfoldable pub read_tab : Reader TabMeta
unfolding read_str read_nat read_many read_col read_index
read_tab = do
  name ← read_str
  n ← read_nat size_max
  cols ← read_many read_col n
  m ← read_nat size_max
  indexes ← read_many read_index m
  pure (record { name = name; cols = cols; indexes = indexes })

-- The order of `std::string`, by bytes.
unfoldable pub str_less : Str → Str → Bool
str_less a [] = false
str_less [] (d ∷ b) = true
str_less (c ∷ a) (d ∷ b) = if ltb c d then true else if c == d then str_less a b else false

-- An iteration over a `std::map` takes the keys in their order.
unfoldable pub place : Str × TabMeta → List (Str × TabMeta) → List (Str × TabMeta)
place e [] = e ∷ []
place e (d ∷ m) = if str_less d.0 e.0 then d ∷ place e m else e ∷ d ∷ m

unfoldable pub in_order : List (Str × TabMeta) → List (Str × TabMeta)
unfolding place str_less
in_order [] = []
in_order (e ∷ m) = place e (in_order m)

abbrev pub write_entry : Str × TabMeta → Str
write_entry e = write_tab e.1

unfoldable pub write_db : DbMeta → Str
unfolding show_nat write_lines write_tab in_order
write_db db =
    db.name
    ++ (10 ∷ (show_nat (length db.tabs) ++ (10 ∷ write_lines write_entry (in_order db.tabs))))

abbrev pub enter : DbMeta → List TabMeta → DbMeta
enter db [] = db
enter db (tab ∷ tabs) = enter (set_tab_meta db tab.name tab) tabs

-- The tables are entered in the order in which they stand in the text.
unfoldable pub read_db : DbMeta → Reader DbMeta
unfolding read_str read_nat read_many read_tab set_tab_meta
read_db db = do
  name ← read_str
  n ← read_nat size_max
  tabs ← read_many read_tab n
  pure (enter (record db { name = name }) tabs)
