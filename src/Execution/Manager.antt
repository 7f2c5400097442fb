-- ===== src/Execution/Manager.antt =====
-- src/execution/execution_manager.cpp: the rows of a query as the answer to the client and in `output.txt`. The
-- executor is given by its columns and the rows that its loop yields; the text of a `float` is an
-- argument, on its four bytes. `output.txt` is supposed to open.
use uni_base.Base.{ℕ, List, [], ◌∷◌, ◌++◌, map, length, ◌==◌, if◌then◌else◌}
use uni_base.Errors.{Str, Result, ok}
use uni_base.Outcome.{◌>>=◌}
use uni_base.Defs.{ColType, type_int, type_float, type_string}
use uni_base.Common.{TabCol}
use uni_base.Meta.{ColMeta}
use uni_base.Bytes.{slice, get_int}
use uni_base.Storage.Page.{Block}
use uni_base.Printer.{
  Context, new_printer, print_separator, print_record, print_record_count, show_int,
}

-- The answer to the client, and the text of `output.txt`.
pub record Output : Type 0 where
  pub context : Context
  pub file : Str

-- The text up to the first zero byte.
unfoldable pub c_string : Str → Str
c_string [] = []
c_string (c ∷ s) = if c == 0 then [] else c ∷ c_string s

-- The cells of a row in `output.txt`, behind the first bar.
unfoldable pub file_cells : List Str → Str
file_cells [] = 10 ∷ []
file_cells (s ∷ ss) = 32 ∷ (s ++ (32 ∷ 124 ∷ file_cells ss))

unfoldable pub file_line : List Str → Str
unfolding file_cells
file_line ss = 124 ∷ file_cells ss

abbrev pub caption : TabCol → Str
caption c = c.col_name

module _ (float_text : List ℕ → Str) where
  unfoldable pub col_text : Block → ColType → ℕ → ℕ → Str
  unfolding c_string
  col_text tuple type_int at len = show_int (get_int tuple at)
  col_text tuple type_float at len = float_text (slice tuple at 4)
  col_text tuple type_string at len = c_string (slice tuple at len)

  abbrev pub texts : List ColMeta → Block → List Str
  texts [] tuple = []
  texts (col ∷ cols) tuple = col_text tuple col.type col.offset col.len ∷ texts cols tuple

  -- The loop over the rows.
  unfoldable pub print_rows : ℕ → List ColMeta → List Block → Output → Result Output
  unfolding file_line
  print_rows num_cols cols [] out = ok out
  print_rows num_cols cols (row ∷ rows) out = do
    context ← print_record num_cols (texts cols row) out.context
    print_rows num_cols cols rows
        (record { context = context; file = out.file ++ file_line (texts cols row) })

  unfoldable pub select_from : List ColMeta → List Block → List TabCol → Output → Result Output
  unfolding print_rows file_line
  select_from cols rows sel_cols out = do
    let captions = map caption sel_cols
    n ← new_printer (length sel_cols)
    context ← print_record n captions (print_separator n out.context)
    printed ←
        print_rows n cols rows
          (record { context = print_separator n context; file = out.file ++ file_line captions })
    ok (record printed {
      context = print_record_count (length rows) (print_separator n printed.context);
    })
