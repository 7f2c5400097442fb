-- ===== src/Printer.antt =====
-- src/record_printer.h, and the buffer of the answer to a client in src/common/context.h: tables of text, printed as
-- far as they fit. `bytes` is the buffer of BUFFER_LENGTH bytes. A count is never negative.
pub mod Pieces
pub mod Count
pub mod Records
use uni_base.Base.{
  ℕ, zero, suc, ◌+◌, ◌-◌, List, [], ◌∷◌, ◌++◌, Bool, true, false, ltb, ◌==◌, if◌then◌else◌, ℤ, pos,
  negsuc, length,
}
use uni_base.Errors.{Str, Result, ok, throw, assertion_failed}
use uni_base.Storage.Page.{Block}
use uni_base.Recovery.{put_bytes}
use uni_base.Streams.{show_nat}

abbrev pub buffer_length : ℕ
buffer_length = 8192

-- RECORD_COUNT_LENGTH, what is kept free for the last line.
abbrev pub record_count_length : ℕ
record_count_length = 40

abbrev pub col_width : ℕ
col_width = 16

pub record Context : Type 0 where
  pub bytes : Block
  pub offset : ℕ
  pub ellipsis : Bool

-- `memcpy` to the end of what is printed.
unfoldable pub put : Str → Context → Context
put str c = record c { bytes = put_bytes c.bytes c.offset str; offset = c.offset + length str }

unfoldable pub fits : Str → Context → Bool
fits str c =
    if c.ellipsis then false else ltb (c.offset + record_count_length + length str) buffer_length

unfoldable pub print_piece : Str → Context → Context
unfolding put fits
print_piece str c = if fits str c then put str c else record c { ellipsis = true }

-- The end of a record, which leaves the mark alone.
unfoldable pub print_end : Str → Context → Context
unfolding put fits
print_end str c = if fits str c then put str c else c

abbrev pub copies : ℕ → ℕ → Str
copies zero c = []
copies (suc n) c = c ∷ copies n c

-- `+------------------`, `+` and a line feed, `|` and a line feed.
abbrev pub bar : Str
bar = 43 ∷ copies (col_width + 2) 45

abbrev pub bar_end : Str
bar_end = 43 ∷ 10 ∷ []

abbrev pub record_end : Str
record_end = 124 ∷ 10 ∷ []

unfoldable pub print_bars : ℕ → Context → Context
unfolding print_piece
print_bars zero c = c
print_bars (suc n) c = print_bars n (print_piece bar c)

unfoldable pub print_separator : ℕ → Context → Context
unfolding print_bars
print_separator num_cols c = print_piece bar_end (print_bars num_cols c)

unfoldable pub first_chars : ℕ → Str → Str
first_chars zero s = []
first_chars (suc n) [] = []
first_chars (suc n) (c ∷ s) = c ∷ first_chars n s

-- A long text is cut, and ends in three dots.
unfoldable pub shorten : Str → Str
unfolding first_chars
shorten col =
    if ltb col_width (length col)
    then first_chars (col_width - 3) col ++ (46 ∷ 46 ∷ 46 ∷ [])
    else col

-- `std::setw`, which pads on the left.
unfoldable pub cell : Str → Str
unfolding shorten
cell col = 124 ∷ 32 ∷ (copies (col_width - length (shorten col)) 32 ++ (shorten col ++ (32 ∷ [])))

unfoldable pub print_cells : List Str → Context → Context
unfolding print_piece cell
print_cells [] c = c
print_cells (col ∷ cols) c = print_cells cols (print_piece (cell col) c)

unfoldable pub print_record : ℕ → List Str → Context → Result Context
unfolding print_cells print_end
print_record num_cols rec_str c =
    if length rec_str == num_cols
    then ok (print_end record_end (print_cells rec_str c))
    else throw assertion_failed

-- `... ...` and a line feed.
abbrev pub dots : Str
dots = 46 ∷ 46 ∷ 46 ∷ 32 ∷ 46 ∷ 46 ∷ 46 ∷ 10 ∷ []

-- `Total record(s): ` and the number.
abbrev pub total : ℕ → Str
total n =
    (84 ∷ 111 ∷ 116 ∷ 97 ∷ 108 ∷ 32 ∷ 114 ∷ 101 ∷ 99 ∷ 111 ∷ 114 ∷ 100 ∷ 40 ∷ 115 ∷ 41 ∷ 58 ∷ 32
      ∷ [])
    ++ (show_nat n ++ (10 ∷ []))

unfoldable pub print_record_count : ℕ → Context → Context
unfolding put
print_record_count num_rec c = put ((if c.ellipsis then dots else []) ++ total num_rec) c

-- The constructor of a printer.
unfoldable pub new_printer : ℕ → Result ℕ
new_printer num_cols = if ltb 0 num_cols then ok num_cols else throw assertion_failed

-- `std::to_string` of an `int`.
unfoldable pub show_int : ℤ → Str
show_int (pos n) = show_nat n
show_int (negsuc n) = 45 ∷ show_nat (suc n)
