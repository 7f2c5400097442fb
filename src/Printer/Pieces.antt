-- ===== src/Printer/Pieces.antt =====
-- What is printed of a table: the pieces of its text, up to the first that does not fit.
use uni_base.Base.{
  ℕ, ◌+◌, ◌≤◌, ◌<◌, ◌≡◌, refl, sym, ap, ap₂, subst, ◌∙◌, fun_ext, List, [], ◌∷◌, ◌++◌, Bool, true,
  false, if◌then◌else◌, length, length-append, ◌⊎◌, inl, inr, Bool-cases, arith,
}
use uni_base.Errors.{Str}
use uni_base.Recovery.{put_bytes}
use uni_base.Execution.Rows.{put_bytes-append}
use uni_base.Printer.{
  Context, put, fits, print_piece, print_end, buffer_length, record_count_length,
}

-- A piece of text, and whether it marks the context if it does not fit.
abbrev pub Piece : Type 0
Piece = Bool × Str

unfoldable pub print_all : List Piece → Context → Context
print_all [] c = c
print_all ((true, s) ∷ ps) c = print_all ps (print_piece s c)
print_all ((false, s) ∷ ps) c = print_all ps (print_end s c)

unfoldable pub text_of : List Piece → Str
text_of [] = []
text_of ((b, s) ∷ ps) = s ++ text_of ps

unfoldable pub marks : List Piece → Bool
marks [] = false
marks ((b, s) ∷ ps) = if b then true else marks ps

-- A piece has two characters or more, and one without a mark has two.
abbrev pub IsPiece : Piece → Type 0
IsPiece (true, s) = 2 ≤ length s
IsPiece (false, s) = length s ≡ 2

abbrev pub ArePieces : List Piece → Type 0
ArePieces [] = Unit {0}
ArePieces (p ∷ ps) = IsPiece p × ArePieces ps

-- Nothing fits any more.
abbrev pub IsFull : Context → Type 0
IsFull c = (c.ellipsis ≡ true) ⊎ (8192 ≤ c.offset + 42)

full-fits : (s : Str) (c : Context) → 2 ≤ length s → IsFull c → fits s c ≡ false
unfolding fits
full-fits s c h (inl e) = rw e refl
full-fits s c h (inr l) = ground arith

-- A text behind what is printed.
abbrev pub printed : Str → Bool → Context → Context
printed s e c = record {
  bytes = put_bytes c.bytes c.offset s;
  offset = c.offset + length s;
  ellipsis = e;
}

put-printed : (s : Str) (c : Context) → c.ellipsis ≡ false → put s c ≡ printed s false c
unfolding put
put-printed s c e = ap (λ b. printed s b c) e

piece_refused :
    (s : Str) (c : Context) → fits s c ≡ false → print_piece s c ≡ record c { ellipsis = true }
unfolding print_piece
piece_refused s c e = rw e refl

end_refused : (s : Str) (c : Context) → fits s c ≡ false → print_end s c ≡ c
unfolding print_end
end_refused s c e = rw e refl

piece_printed :
    (s : Str) (c : Context)
    → c.ellipsis ≡ false
    → fits s c ≡ true
    → print_piece s c ≡ printed s false c
unfolding print_piece
piece_printed s c e f = rw f (put-printed s c e)

end_printed :
    (s : Str) (c : Context)
    → c.ellipsis ≡ false
    → fits s c ≡ true
    → print_end s c ≡ printed s false c
unfolding print_end
end_printed s c e f = rw f (put-printed s c e)

or_true : (b : Bool) → (if b then true else true) ≡ true
or_true true = refl
or_true false = refl

print_all-IsFull :
    (ps : List Piece) (c : Context)
    → ArePieces ps
    → IsFull c
    → print_all ps c ≡ record c { ellipsis = if c.ellipsis then true else marks ps }
unfolding print_all marks
print_all-IsFull [] c h w = ap (λ e. record c { ellipsis = e }) (or_false c.ellipsis)
  where
    or_false : (b : Bool) → b ≡ (if b then true else false)
    or_false true = refl
    or_false false = refl
print_all-IsFull ((true, s) ∷ ps) c h w =
    ap (print_all ps) (piece_refused s c (full-fits s c h.0 w))
    ∙ print_all-IsFull ps (record c { ellipsis = true }) h.1 (inl refl)
    ∙ ap (λ e. record c { ellipsis = e }) (sym (or_true c.ellipsis))
print_all-IsFull ((false, s) ∷ ps) c h w =
    ap (print_all ps) (end_refused s c (full-fits s c (omega (arith, h.0)) w))
    ∙ print_all-IsFull ps c h.1 w

-- The first of these does not fit behind so many bytes, if there is one.
abbrev pub IsBarred : ℕ → List Piece → Type 0
IsBarred at [] = Unit {0}
IsBarred at ((b, s) ∷ ps) = buffer_length ≤ at + record_count_length + length s

-- The pieces up to the first that does not fit are printed.
abbrev pub IsCut : List Piece → Context → Context → Type 0
IsCut ps c d =
    (before : List Piece) × (after : List Piece) × (ps ≡ before ++ after)
    × (d ≡ printed (text_of before) (marks after) c)
    × IsBarred (c.offset + length (text_of before)) after
    × (c.offset + length (text_of before) + record_count_length < buffer_length)

pub printed-printed :
    (s t : Str) (a b : Bool) (c : Context) → printed t b (printed s a c) ≡ printed (s ++ t) b c
printed-printed s t a b c =
    let bytes : put_bytes (put_bytes c.bytes c.offset s) (c.offset + length s) t
        ≡ put_bytes c.bytes c.offset (s ++ t) =
      fun_ext (λ j. sym (put_bytes-append c.bytes c.offset s t j)) in
    let at : c.offset + length s + length t ≡ c.offset + length (s ++ t) =
      omega (arith, length-append s t) in
    ap₂ (λ x n. let r : Context = record { bytes = x; offset = n; ellipsis = b } in r) bytes at

fits-room :
    (s : Str) (c : Context)
    → fits s c ≡ true
    → c.offset + length s + record_count_length < buffer_length
unfolding fits
fits-room s c h = ground (arith, h)

fits-barred :
    (s : Str) (c : Context)
    → c.ellipsis ≡ false
    → fits s c ≡ false
    → buffer_length ≤ c.offset + 0 + record_count_length + length s
unfolding fits
fits-barred s c e h = ground (arith, e, h)

IsCut-none :
    (c d : Context) (ps : List Piece)
    → c.ellipsis ≡ false
    → c.offset + record_count_length < buffer_length
    → IsBarred (c.offset + 0) ps
    → d ≡ record c { ellipsis = marks ps }
    → IsCut ps c d
unfolding text_of put_bytes
IsCut-none c d ps e l b h = (
  [],
  ps,
  refl,
  h
      ∙ ap (λ n. let r : Context = record { bytes = c.bytes; offset = n; ellipsis = marks ps } in r)
          (let z : c.offset ≡ c.offset + 0 = omega arith in z),
  b,
  omega (arith, l),
)

IsCut-cons :
    (b : Bool) (s : Str) (ps : List Piece) (c d : Context)
    → IsCut ps (printed s false c) d
    → IsCut ((b, s) ∷ ps) c d
unfolding text_of
IsCut-cons b s ps c d (before, after, e, f, g, l) = (
  (b, s) ∷ before,
  after,
  ap (λ r. (b, s) ∷ r) e,
  f ∙ printed-printed s (text_of before) false (marks after) c,
  subst (λ n. IsBarred n after)
      (let z : c.offset + length s + length (text_of before)
            ≡ c.offset + length (s ++ text_of before) =
          omega (arith, length-append s (text_of before)) in
        z)
      g,
  omega (arith, l, length-append s (text_of before)),
)

pub print_all-IsCut :
    (ps : List Piece) (c : Context)
    → ArePieces ps
    → c.ellipsis ≡ false
    → c.offset + record_count_length < buffer_length
    → IsCut ps c (print_all ps c)
unfolding print_all
print_all-IsCut [] c h e l =
    IsCut-none c c [] e l tt (unfold marks in ap (λ b. record c { ellipsis = b }) e)
print_all-IsCut ((true, s) ∷ ps) c h e l = elim (Bool-cases (fits s c)) [
  | inl f ↦
      subst (IsCut ((true, s) ∷ ps) c) (ap (print_all ps) (sym (piece_printed s c e f))) (
        IsCut-cons true s ps c _
          (print_all-IsCut ps (printed s false c) h.1 refl (fits-room s c f)))
  | inr f ↦ IsCut-none c _ ((true, s) ∷ ps) e l (fits-barred s c e f) (
      unfold marks in
      ap (print_all ps) (piece_refused s c f)
      ∙ print_all-IsFull ps (record c { ellipsis = true }) h.1 (inl refl))
]
print_all-IsCut ((false, s) ∷ ps) c h e l = elim (Bool-cases (fits s c)) [
  | inl f ↦ subst (IsCut ((false, s) ∷ ps) c) (ap (print_all ps) (sym (end_printed s c e f))) (
      IsCut-cons false s ps c _ (print_all-IsCut ps (printed s false c) h.1 refl (fits-room s c f)))
  | inr f ↦ IsCut-none c _ ((false, s) ∷ ps) e l (fits-barred s c e f) (
      print_all-IsFull ((false, s) ∷ ps) c h
        (inr (let z = fits-barred s c e f in omega (arith, h.0, z)))
      ∙ ap (λ b. record c { ellipsis = if b then true else marks ((false, s) ∷ ps) }) e)
]
