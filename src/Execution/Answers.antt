-- ===== src/Execution/Answers.antt =====
-- The answer to a query is the text of its table, up to the first piece that does not fit, and the last line.
use uni_base.Base.{
  ℕ, suc, ◌+◌, ◌^◌, ◌<◌, ◌≡◌, refl, sym, ap, ap₂, subst, ◌∙◌, List, [], ◌∷◌, ◌++◌, map, Bool, true,
  false, ltb-true, if◌then◌else◌, length, length-append, arith,
}
use mathlib.Core.List.{append_assoc, append-nil}
use uni_base.Errors.{Str, ok}
use uni_base.Outcome.{◌>>=◌}
use uni_base.Common.{TabCol}
use uni_base.Meta.{ColMeta}
use uni_base.Storage.Page.{Block}
use uni_base.Recovery.{put_bytes}
use uni_base.Printer.{
  Context, put, new_printer, print_separator, print_record_count, dots, total, buffer_length,
  record_count_length,
}
use uni_base.Printer.Pieces.{
  Piece, print_all, text_of, ArePieces, IsBarred, IsCut, printed, print_all-IsCut, printed-printed,
}
use uni_base.Printer.Count.{total_fits}
use uni_base.Printer.Records.{
  print_all-append, ArePieces-append, separator, record_pieces, print_separator-all,
  print_record-all, separator-ArePieces, record-ArePieces, EndsMarked, EndsMarked-append,
  separator-EndsMarked, is_empty, marks-after,
}
use uni_base.Execution.Manager.{Output, file_line, caption, texts, print_rows, select_from}

-- The last line, behind dots if anything was left out.
abbrev pub footer : Bool → ℕ → Str
footer whole n = (if whole then [] else dots) ++ total n

-- The pieces up to the first that does not fit stand in the buffer, behind what was there, and then the last line,
-- with dots before it if any were left out. The byte behind them is in the buffer too.
abbrev pub IsAnswer : List Piece → ℕ → Context → Context → Type 0
IsAnswer ps n c d =
    (before : List Piece) × (after : List Piece) × (ps ≡ before ++ after)
    × IsBarred (c.offset + length (text_of before)) after
    × (d.bytes ≡ put_bytes c.bytes c.offset (text_of before ++ footer (is_empty after) n))
    × (d.offset ≡ c.offset + length (text_of before ++ footer (is_empty after) n))
    × (d.offset < buffer_length)

footer-printed :
    (whole : Bool) (t : Str) (n : ℕ) (c : Context)
    → print_record_count n (printed t (if whole then false else true) c)
      ≡ printed (t ++ footer whole n) (if whole then false else true) c
unfolding print_record_count put
footer-printed true t n c = printed-printed t (footer true n) false false c
footer-printed false t n c = printed-printed t (footer false n) true true c

footer_fits : (whole : Bool) (n : ℕ) → n < 10 ^ 13 → length (footer whole n) < 40
footer_fits true n h = total_fits false n h
footer_fits false n h = total_fits true n h

counted-IsAnswer :
    (ps : List Piece) (n : ℕ) (c d : Context)
    → EndsMarked ps
    → n < 10 ^ 13
    → IsCut ps c d
    → IsAnswer ps n c (print_record_count n d)
counted-IsAnswer ps n c d m l (before, after, e, f, g, h) =
    let whole = is_empty after in
    let t = text_of before in
    let same = marks-after before after (subst EndsMarked e m) in
    let path : print_record_count n d
        ≡ printed (t ++ footer whole n) (if whole then false else true) c =
      ap (print_record_count n) (f ∙ ap (λ b. printed t b c) same) ∙ footer-printed whole t n c in
    let room : c.offset + length (t ++ footer whole n) < buffer_length =
      omega (arith, h, footer_fits whole n l, length-append t (footer whole n)) in
    (
      before,
      after,
      e,
      g,
      ap (λ (x : Context). x.bytes) path,
      ap (λ (x : Context). x.offset) path,
      subst (λ x. x < buffer_length) (sym (ap (λ (x : Context). x.offset) path)) room,
    )

module _ (float_text : List ℕ → Str) where
  abbrev pub row_pieces : List ColMeta → List Block → List Piece
  row_pieces cols [] = []
  row_pieces cols (r ∷ rs) = record_pieces (texts float_text cols r) ++ row_pieces cols rs

  abbrev pub row_lines : List ColMeta → List Block → Str
  row_lines cols [] = []
  row_lines cols (r ∷ rs) = file_line (texts float_text cols r) ++ row_lines cols rs

  length-texts : (cols : List ColMeta) (r : Block) → length (texts float_text cols r) ≡ length cols
  length-texts [] r = refl
  length-texts (c ∷ cols) r = ap suc (length-texts cols r)

  row-ArePieces : (cols : List ColMeta) (rows : List Block) → ArePieces (row_pieces cols rows)
  row-ArePieces cols [] = tt
  row-ArePieces cols (r ∷ rs) =
      ArePieces-append (record_pieces (texts float_text cols r)) (row_pieces cols rs)
        (record-ArePieces (texts float_text cols r)) (row-ArePieces cols rs)

  print_rows-all :
      (cols : List ColMeta) (rows : List Block) (out : Output)
      → print_rows float_text (length cols) cols rows out
        ≡ ok (record {
          context = print_all (row_pieces cols rows) out.context;
          file = out.file ++ row_lines cols rows;
        })
  unfolding print_rows
  print_rows-all cols [] out =
      unfold print_all in
      ap (λ f. let r : Output = record { context = out.context; file = f } in ok r)
        (sym (append-nil out.file))
  print_rows-all cols (r ∷ rs) out =
      let ss = texts float_text cols r in
      let next : Context → Output = λ c. record { context = c; file = out.file ++ file_line ss } in
      let ih = print_rows-all cols rs (next (print_all (record_pieces ss) out.context)) in
      rw (print_record-all (length cols) ss out.context (length-texts cols r), ◌>>=◌)
        (ih
          ∙ ap₂ (λ c f. let r : Output = record { context = c; file = f } in ok r)
              (sym (print_all-append (record_pieces ss) (row_pieces cols rs) out.context))
              (append_assoc out.file (file_line ss) (row_lines cols rs)))

  -- The text of a table: the captions between two separators, the rows, and a separator.
  abbrev pub table_pieces : List Str → List ColMeta → List Block → List Piece
  table_pieces captions cols rows =
      let bar = separator (length cols) in
      bar ++ (record_pieces captions ++ (bar ++ (row_pieces cols rows ++ bar)))

  table-ArePieces :
      (captions : List Str) (cols : List ColMeta) (rows : List Block)
      → ArePieces (table_pieces captions cols rows)
  table-ArePieces captions cols rows =
      let bar = separator (length cols) in
      let good = separator-ArePieces (length cols) in
      let rest = row_pieces cols rows ++ bar in
      ArePieces-append bar (record_pieces captions ++ (bar ++ rest)) good (
        ArePieces-append (record_pieces captions) (bar ++ rest) (record-ArePieces captions) (
          ArePieces-append bar rest good
            (ArePieces-append (row_pieces cols rows) bar (row-ArePieces cols rows) good)))

  table-EndsMarked :
      (captions : List Str) (cols : List ColMeta) (rows : List Block)
      → EndsMarked (table_pieces captions cols rows)
  table-EndsMarked captions cols rows =
      let bar = separator (length cols) in
      let rest = row_pieces cols rows ++ bar in
      EndsMarked-append bar (record_pieces captions ++ (bar ++ rest)) (
        EndsMarked-append (record_pieces captions) (bar ++ rest) (
          EndsMarked-append bar rest
            (EndsMarked-append (row_pieces cols rows) bar (separator-EndsMarked (length cols)))))

  table_all :
      (captions : List Str) (cols : List ColMeta) (rows : List Block) (c : Context)
      → (let bar = separator (length cols) in
          print_all bar (
            print_all
              (row_pieces cols rows)
              (print_all bar (print_all (record_pieces captions) (print_all bar c))))
          ≡ print_all (table_pieces captions cols rows) c)
  table_all captions cols rows c =
      let bar = separator (length cols) in
      let rest = row_pieces cols rows ++ bar in
      sym (
        rw
          (
            print_all-append bar (record_pieces captions ++ (bar ++ rest)) c,
            print_all-append (record_pieces captions) (bar ++ rest) (print_all bar c),
            print_all-append bar rest (print_all (record_pieces captions) (print_all bar c)),
            print_all-append (row_pieces cols rows) bar
                (print_all bar (print_all (record_pieces captions) (print_all bar c))),
          )
          refl)

  length-captions : (cs : List TabCol) → length (map caption cs) ≡ length cs
  length-captions [] = refl
  length-captions (c ∷ cs) = ap suc (length-captions cs)

  -- What `select_from` leaves when it returns.
  select_from-printed :
      (cols : List ColMeta) (rows : List Block) (sel_cols : List TabCol) (out : Output)
      → 0 < length cols
      → length sel_cols ≡ length cols
      → select_from float_text cols rows sel_cols out
        ≡ ok (record {
          context =
              print_record_count
                (length rows)
                (print_all (table_pieces (map caption sel_cols) cols rows) out.context);
          file = (out.file ++ file_line (map caption sel_cols)) ++ row_lines cols rows;
        })
  unfolding select_from new_printer
  select_from-printed cols rows sel_cols out p e =
      let captions = map caption sel_cols in
      let n = length cols in
      let c1 = print_separator n out.context in
      let c2 = print_all (record_pieces captions) c1 in
      let o : Output = record {
        context = print_separator n c2;
        file = out.file ++ file_line captions;
      } in
      let whole : print_separator n (print_all (row_pieces cols rows) (print_separator n c2))
          ≡ print_all (table_pieces captions cols rows) out.context =
        rw
          (
            print_separator-all n (print_all (row_pieces cols rows) (print_separator n c2)),
            print_separator-all n c2,
            print_separator-all n out.context,
          )
          (table_all captions cols rows out.context) in
      rw (e, ltb-true 0 n p, ◌>>=◌)
        (rw (print_record-all n captions c1 (length-captions sel_cols ∙ e), ◌>>=◌)
          (rw (print_rows-all cols rows o, ◌>>=◌)
            (ap
              (λ c.
                let r : Output = record {
                  context = print_record_count (length rows) c;
                  file = o.file ++ row_lines cols rows;
                } in
                ok r)
              whole)))

  -- For as many columns selected as the executor has, one or more, with room for the last line in the buffer and
  -- fewer than 10 ^ 13 rows: `select_from` returns; the answer is the text of the table, piece by piece up to the first
  -- that does not fit, then dots if any piece was left out, and the number of rows; it ends before the end of the buffer;
  -- and `output.txt` has the captions and every row behind what it had.
  pub select_from-IsAnswer :
      (cols : List ColMeta) (rows : List Block) (sel_cols : List TabCol) (out : Output)
      → 0 < length cols
      → length sel_cols ≡ length cols
      → out.context.ellipsis ≡ false
      → out.context.offset + record_count_length < buffer_length
      → length rows < 10 ^ 13
      → (d : Output) × (select_from float_text cols rows sel_cols out ≡ ok d)
        × IsAnswer
            (table_pieces (map caption sel_cols) cols rows)
            (length rows)
            out.context
            d.context
        × (d.file ≡ (out.file ++ file_line (map caption sel_cols)) ++ row_lines cols rows)
  select_from-IsAnswer cols rows sel_cols out p e m l n =
      let captions = map caption sel_cols in
      let ps = table_pieces captions cols rows in
      (
        record {
          context = print_record_count (length rows) (print_all ps out.context);
          file = (out.file ++ file_line captions) ++ row_lines cols rows;
        },
        select_from-printed cols rows sel_cols out p e,
        counted-IsAnswer ps (length rows) out.context (print_all ps out.context)
            (table-EndsMarked captions cols rows) n
            (print_all-IsCut ps out.context (table-ArePieces captions cols rows) m l),
        refl,
      )
