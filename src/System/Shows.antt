-- ===== src/System/Shows.antt =====
-- src/system/sm_manager.cpp: `show_tables` and `desc_table`, which print the metadata. The map of the tables is gone
-- through in the order of the names. `output.txt` is supposed to open.
use uni_base.Base.{
  ◌+◌, ◌<◌, ◌≡◌, refl, sym, ap, ◌∙◌, List, [], ◌∷◌, ◌++◌, Bool, true, false, length,
}
use uni_base.Errors.{Error, Str, Result, ok, throw}
use uni_base.Outcome.{◌>>=◌}
use uni_base.Defs.{coltype2str}
use uni_base.Meta.{ColMeta, TabMeta, DbMeta, get_table}
use uni_base.Meta.Text.{in_order}
use uni_base.Printer.{
  Context, new_printer, print_separator, print_record, buffer_length, record_count_length,
}
use uni_base.Printer.Pieces.{Piece, print_all, ArePieces, IsCut, print_all-IsCut}
use uni_base.Printer.Records.{
  print_all-append, ArePieces-append, separator, record_pieces, print_separator-all,
  print_record-all, separator-ArePieces, record-ArePieces,
}
use uni_base.Execution.Manager.{Output}

-- `Tables`, `| Tables |` and a line feed, `Field`, `Type`, `Index`, `YES`, `NO`.
abbrev tables_caption : Str
tables_caption = 84 ∷ 97 ∷ 98 ∷ 108 ∷ 101 ∷ 115 ∷ []

abbrev pub name_line : Str → Str
name_line name = 124 ∷ 32 ∷ (name ++ (32 ∷ 124 ∷ 10 ∷ []))

abbrev pub captions : List Str
captions =
    (70 ∷ 105 ∷ 101 ∷ 108 ∷ 100 ∷ [])
    ∷ (84 ∷ 121 ∷ 112 ∷ 101 ∷ [])
    ∷ (73 ∷ 110 ∷ 100 ∷ 101 ∷ 120 ∷ [])
    ∷ []

abbrev pub indexed : Bool → Str
indexed true = 89 ∷ 69 ∷ 83 ∷ []
indexed false = 78 ∷ 79 ∷ []

unfoldable pub field_info : ColMeta → List Str
unfolding coltype2str
field_info col = col.name ∷ coltype2str col.type ∷ indexed col.index ∷ []

unfoldable pub print_fields : List ColMeta → Context → Result Context
unfolding field_info
print_fields [] c = ok c
print_fields (col ∷ cols) c = do d ← print_record 3 (field_info col) c; print_fields cols d

unfoldable pub desc_table : DbMeta → Str → Context → Result Context
unfolding print_fields
desc_table db tab_name c = do
  tab ← get_table db tab_name
  n ← new_printer (length captions)
  d ← print_record n captions (print_separator n c)
  e ← print_fields tab.cols (print_separator n d)
  ok (print_separator n e)

unfoldable pub print_names : List (Str × TabMeta) → Output → Result Output
print_names [] out = ok out
print_names ((k, tab) ∷ tabs) out = do
  c ← print_record 1 (tab.name ∷ []) out.context
  print_names tabs (record { context = c; file = out.file ++ name_line tab.name })

unfoldable pub show_tables : DbMeta → Output → Result Output
unfolding in_order print_names
show_tables db out = do
  n ← new_printer 1
  c ← print_record n (tables_caption ∷ []) (print_separator n out.context)
  names ←
      print_names (in_order db.tabs)
        (record { context = print_separator n c; file = out.file ++ name_line tables_caption })
  ok (record names { context = print_separator n names.context })

-- The pieces of a description.
abbrev pub field_pieces : List ColMeta → List Piece
field_pieces [] = []
field_pieces (col ∷ cols) = record_pieces (field_info col) ++ field_pieces cols

abbrev pub desc_pieces : TabMeta → List Piece
desc_pieces tab =
    separator 3
    ++ (record_pieces captions ++ (separator 3 ++ (field_pieces tab.cols ++ separator 3)))

field-ArePieces : (cols : List ColMeta) → ArePieces (field_pieces cols)
field-ArePieces [] = tt
field-ArePieces (col ∷ cols) =
    ArePieces-append (record_pieces (field_info col)) (field_pieces cols)
      (record-ArePieces (field_info col)) (field-ArePieces cols)

desc-ArePieces : (tab : TabMeta) → ArePieces (desc_pieces tab)
desc-ArePieces tab =
    let bar = separator 3 in
    let good = separator-ArePieces 3 in
    let rest = field_pieces tab.cols ++ bar in
    ArePieces-append bar (record_pieces captions ++ (bar ++ rest)) good (
      ArePieces-append (record_pieces captions) (bar ++ rest) (record-ArePieces captions) (
        ArePieces-append bar rest good
          (ArePieces-append (field_pieces tab.cols) bar (field-ArePieces tab.cols) good)))

print_fields-all :
    (cols : List ColMeta) (c : Context) → print_fields cols c ≡ ok (print_all (field_pieces cols) c)
unfolding print_fields
print_fields-all [] c = unfold print_all in refl
print_fields-all (col ∷ cols) c =
    let ps = record_pieces (field_info col) in
    rw (print_record-all 3 (field_info col) c (unfold field_info in refl), ◌>>=◌)
      (print_fields-all cols (print_all ps c)
        ∙ ap ok (sym (print_all-append ps (field_pieces cols) c)))

throws :
    {A B : Type 0} (r : Result A) (k : A → Result B) (e : Error) → r ≡ throw e → (r >>= k) ≡ throw e
throws r k e h = rw (h, ◌>>=◌) refl

-- What a description leaves when the table is there.
desc_table-all :
    (db : DbMeta) (tab_name : Str) (c : Context) (tab : TabMeta)
    → get_table db tab_name ≡ ok tab
    → desc_table db tab_name c ≡ ok (print_all (desc_pieces tab) c)
unfolding desc_table new_printer
desc_table-all db tab_name c tab h =
    let bar = separator 3 in
    let rest = field_pieces tab.cols ++ bar in
    let c1 = print_separator 3 c in
    let c2 = print_all (record_pieces captions) c1 in
    let c3 = print_separator 3 c2 in
    rw (h, ◌>>=◌)
      (rw (print_record-all 3 captions c1 refl, ◌>>=◌)
        (rw (print_fields-all tab.cols c3, ◌>>=◌)
          (ap ok (
            rw
              (
                print_separator-all 3 (print_all (field_pieces tab.cols) c3),
                print_separator-all 3 c2,
                print_separator-all 3 c,
              )
              (sym (
                rw
                  (
                    print_all-append bar (record_pieces captions ++ (bar ++ rest)) c,
                    print_all-append (record_pieces captions) (bar ++ rest) (print_all bar c),
                    print_all-append bar rest
                        (print_all (record_pieces captions) (print_all bar c)),
                    print_all-append (field_pieces tab.cols) bar
                        (print_all bar (print_all (record_pieces captions) (print_all bar c))),
                  )
                  refl))))))

-- The description of a table prints its columns; of a missing table there is an error.
abbrev pub IsDescription : Context → Result TabMeta → Result Context → Type 0
IsDescription c (ok tab) r = (d : Context) × (r ≡ ok d) × IsCut (desc_pieces tab) c d
IsDescription c (throw e) r = r ≡ throw e

-- With room for the last line in the buffer: `desc_table` prints the captions and the name, the type and the mark of
-- each column, piece by piece up to the first that does not fit; of a table that is not there it throws the error of
-- `get_table` and prints nothing.
pub desc_table-IsDescription :
    (db : DbMeta) (tab_name : Str) (c : Context)
    → c.ellipsis ≡ false
    → c.offset + record_count_length < buffer_length
    → IsDescription c (get_table db tab_name) (desc_table db tab_name c)
desc_table-IsDescription db tab_name c m l = go (get_table db tab_name) refl
  where
    go :
        (r : Result TabMeta)
        → get_table db tab_name ≡ r
        → IsDescription c r (desc_table db tab_name c)
    go (ok tab) h = (
      print_all (desc_pieces tab) c,
      desc_table-all db tab_name c tab h,
      print_all-IsCut (desc_pieces tab) c (desc-ArePieces tab) m l,
    )
    go (throw e) h = unfold desc_table in throws (get_table db tab_name) _ e h
