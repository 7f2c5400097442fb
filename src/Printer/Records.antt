-- ===== src/Printer/Records.antt =====
-- The pieces of a table's text.
use uni_base.Base.{
  ℕ, zero, suc, ◌≡◌, refl, ap, List, [], ◌∷◌, ◌++◌, Bool, true, false, if◌then◌else◌, length, if-eq,
  arith,
}
use uni_base.Errors.{Str, ok}
use uni_base.Printer.{
  Context, print_piece, print_end, bar, bar_end, record_end, print_bars, print_separator, cell,
  print_cells, print_record,
}
use uni_base.Printer.Pieces.{Piece, print_all, ArePieces, marks}

pub print_all-append :
    (ps qs : List Piece) (c : Context) → print_all (ps ++ qs) c ≡ print_all qs (print_all ps c)
unfolding print_all
print_all-append [] qs c = refl
print_all-append ((true, s) ∷ ps) qs c = print_all-append ps qs (print_piece s c)
print_all-append ((false, s) ∷ ps) qs c = print_all-append ps qs (print_end s c)

pub ArePieces-append : (ps qs : List Piece) → ArePieces ps → ArePieces qs → ArePieces (ps ++ qs)
ArePieces-append [] qs h k = k
ArePieces-append ((true, s) ∷ ps) qs h k = (h.0, ArePieces-append ps qs h.1 k)
ArePieces-append ((false, s) ∷ ps) qs h k = (h.0, ArePieces-append ps qs h.1 k)

abbrev pub separator : ℕ → List Piece
separator zero = (true, bar_end) ∷ []
separator (suc n) = (true, bar) ∷ separator n

abbrev pub record_pieces : List Str → List Piece
record_pieces [] = (false, record_end) ∷ []
record_pieces (s ∷ ss) = (true, cell s) ∷ record_pieces ss

pub print_separator-all : (n : ℕ) (c : Context) → print_separator n c ≡ print_all (separator n) c
unfolding print_separator print_bars print_all
print_separator-all zero c = refl
print_separator-all (suc n) c = print_separator-all n (print_piece bar c)

cells-all :
    (ss : List Str) (c : Context)
    → print_end record_end (print_cells ss c) ≡ print_all (record_pieces ss) c
unfolding print_cells print_all
cells-all [] c = refl
cells-all (s ∷ ss) c = cells-all ss (print_piece (cell s) c)

pub print_record-all :
    (n : ℕ) (ss : List Str) (c : Context)
    → length ss ≡ n
    → print_record n ss c ≡ ok (print_all (record_pieces ss) c)
unfolding print_record
print_record-all n ss c h = rw (← h, if-eq) (ap ok (cells-all ss c))

pub separator-ArePieces : (n : ℕ) → ArePieces (separator n)
separator-ArePieces zero = (omega arith, tt)
separator-ArePieces (suc n) = (omega arith, separator-ArePieces n)

pub record-ArePieces : (ss : List Str) → ArePieces (record_pieces ss)
unfolding cell
record-ArePieces [] = (refl, tt)
record-ArePieces (s ∷ ss) = (omega arith, record-ArePieces ss)

-- The last piece marks.
abbrev pub EndsMarked : List Piece → Type 0
EndsMarked [] = ⊥
EndsMarked ((b, s) ∷ []) = b ≡ true
EndsMarked (p ∷ q ∷ ps) = EndsMarked (q ∷ ps)

pub EndsMarked-append : (ps qs : List Piece) → EndsMarked qs → EndsMarked (ps ++ qs)
EndsMarked-append [] qs h = h
EndsMarked-append (p ∷ []) [] h = absurd h
EndsMarked-append (p ∷ []) (q ∷ qs) h = h
EndsMarked-append (p ∷ r ∷ ps) qs h = EndsMarked-append (r ∷ ps) qs h

pub separator-EndsMarked : (n : ℕ) → EndsMarked (separator n)
separator-EndsMarked zero = refl
separator-EndsMarked (suc zero) = refl
separator-EndsMarked (suc (suc n)) = separator-EndsMarked (suc n)

marks-EndsMarked : (ps : List Piece) → EndsMarked ps → marks ps ≡ true
unfolding marks
marks-EndsMarked [] h = absurd h
marks-EndsMarked ((b, s) ∷ []) h = rw h refl
marks-EndsMarked ((true, s) ∷ q ∷ ps) h = refl
marks-EndsMarked ((false, s) ∷ q ∷ ps) h = marks-EndsMarked (q ∷ ps) h

abbrev pub is_empty : List Piece → Bool
is_empty [] = true
is_empty (p ∷ ps) = false

-- What was left out is marked, when the last piece marks.
pub marks-after :
    (before after : List Piece)
    → EndsMarked (before ++ after)
    → marks after ≡ (if is_empty after then false else true)
marks-after before [] h = unfold marks in refl
marks-after [] (q ∷ after) h = marks-EndsMarked (q ∷ after) h
marks-after (p ∷ []) (q ∷ after) h = marks-EndsMarked (q ∷ after) h
marks-after (p ∷ r ∷ before) (q ∷ after) h = marks-after (r ∷ before) (q ∷ after) h
