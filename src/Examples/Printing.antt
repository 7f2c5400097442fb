-- ===== src/Examples/Printing.antt =====
-- A table of two rows as the answer to a query, and a table described.
use uni_base.Base.{zero, suc, ◌≡◌, refl, [], ◌∷◌, ◌++◌, false, lookup, map, arith}
use uni_base.Errors.{Str, ok}
use uni_base.Common.{TabCol}
use uni_base.Meta.{get_table}
use uni_base.Storage.Page.{Block}
use uni_base.Bytes.{get_int}
use uni_base.Streams.{show_nat}
use uni_base.Printer.{Context, show_int}
use uni_base.Execution.Manager.{Output, select_from, file_line, caption, col_text}
use uni_base.Execution.Answers.{IsAnswer, table_pieces, row_lines, select_from-IsAnswer}
use uni_base.System.Shows.{desc_table, IsDescription, desc_table-IsDescription}
use uni_base.Examples.Texts.{key, two_tables}

abbrev nothing : Context
nothing = record { bytes = λ i. 0; offset = 0; ellipsis = false }

abbrev no_output : Output
no_output = record { context = nothing; file = [] }

-- No `float` is printed.
abbrev no_floats : Str → Str
no_floats bytes = []

-- The numbers 7 and -1.
abbrev seven : Block
seven zero = 7
seven (suc i) = 0

abbrev minus : Block
minus i = 255

abbrev selected : TabCol
selected = record { tab_name = 98 ∷ []; col_name = 107 ∷ [] }

select_from-IsAnswer_example :
    (d : Output) × (select_from no_floats (key ∷ []) (seven ∷ minus ∷ []) (selected ∷ []) no_output
      ≡ ok d)
    × IsAnswer
        (table_pieces no_floats (map caption (selected ∷ [])) (key ∷ []) (seven ∷ minus ∷ []))
        2
        nothing
        d.context
    × (d.file
        ≡ ([] ++ file_line (map caption (selected ∷ [])))
          ++ row_lines no_floats (key ∷ []) (seven ∷ minus ∷ []))
select_from-IsAnswer_example =
    select_from-IsAnswer no_floats (key ∷ []) (seven ∷ minus ∷ []) (selected ∷ []) no_output
      (omega arith) refl refl (omega arith) (omega arith)

-- `| k |`, `| 7 |` and `| -1 |`.
rows-text :
    file_line (map caption (selected ∷ [])) ++ row_lines no_floats (key ∷ []) (seven ∷ minus ∷ [])
    ≡ 124 ∷ 32 ∷ 107 ∷ 32 ∷ 124 ∷ 10 ∷ 124 ∷ 32 ∷ 55 ∷ 32 ∷ 124 ∷ 10 ∷ 124 ∷ 32 ∷ 45 ∷ 49 ∷ 32 ∷ 124
      ∷ 10 ∷ []
unfolding file_line col_text show_int get_int show_nat
rows-text = refl

desc_table-IsDescription_example :
    IsDescription nothing (get_table two_tables (98 ∷ [])) (desc_table two_tables (98 ∷ []) nothing)
unfolding get_table lookup
desc_table-IsDescription_example =
    desc_table-IsDescription two_tables (98 ∷ []) nothing refl (omega arith)
