-- ===== src/Meta/RoundTrip.antt =====
-- What is written of the metadata is read back.
use uni_base.Base.{
  ◌≤◌, ◌≡◌, refl, sym, ap, subst, ◌∙◌, List, [], ◌∷◌, ◌++◌, Bool, true, false, length, arith,
}
use mathlib.Core.List.{append_assoc, append-nil}
use uni_base.Errors.{Str}
use uni_base.Defs.{ColType, type_int, type_float, type_string}
use uni_base.Streams.{is_space, read_str, read_nat, show_nat, read_many}
use uni_base.Streams.Words.{
  words, IsBreak, IsWord, words-append, words-word, words-word-append, words-space,
}
use uni_base.Streams.Reads.{
  Reads, Each, concat_map, pure-Reads, bind-Reads, word-Reads, last-Reads, read_str-Reads,
  read_nat-Reads, read_many-Reads, show_nat-IsWord,
}
use uni_base.Meta.{ColMeta, IndexMeta, TabMeta}
use uni_base.Meta.Text.{
  int_max, size_max, type_number, bool_number, read_type, read_bool, write_col, read_col,
  write_index_cols, write_index, read_index, write_lines, write_tab, read_tab,
}

-- Names without white space, and numbers that an `int` holds.
pub record IsWritableCol (c : ColMeta) : Type 0 where
  pub tab_word : IsWord c.tab_name
  pub name_word : IsWord c.name
  pub len_fits : c.len ≤ int_max
  pub offset_fits : c.offset ≤ int_max

abbrev col_words : ColMeta → List Str
col_words c =
    c.tab_name
    ∷ c.name
    ∷ show_nat (type_number c.type)
    ∷ show_nat c.len
    ∷ show_nat c.offset
    ∷ show_nat (bool_number c.index)
    ∷ []

-- A word and a space or a line feed.
word_space : (w b : Str) → IsWord w → words (w ++ 32 ∷ b) ≡ w ∷ words b
unfolding is_space
word_space w b h = words-word-append w (32 ∷ b) h refl ∙ rw (words-space 32 b refl) refl

pub word_line : (w b : Str) → IsWord w → words (w ++ 10 ∷ b) ≡ w ∷ words b
unfolding is_space
word_line w b h = words-word-append w (10 ∷ b) h refl ∙ rw (words-space 10 b refl) refl

words-write_col : (c : ColMeta) → IsWritableCol c → words (write_col c) ≡ col_words c
unfolding write_col
words-write_col c w =
    rw
      (
        word_space c.tab_name _ w.tab_word,
        word_space c.name _ w.name_word,
        word_space (show_nat (type_number c.type)) _ (show_nat-IsWord (type_number c.type)),
        word_space (show_nat c.len) _ (show_nat-IsWord c.len),
        word_space (show_nat c.offset) _ (show_nat-IsWord c.offset),
        words-word (show_nat (bool_number c.index)) (show_nat-IsWord (bool_number c.index)),
      )
      refl

read_type-Reads : (t : ColType) → Reads read_type (show_nat (type_number t) ∷ []) t
unfolding read_type type_number
read_type-Reads type_int =
    word-Reads (read_nat int_max) _ (read_nat-Reads int_max 0 (omega arith)) (pure-Reads type_int)
read_type-Reads type_float =
    word-Reads (read_nat int_max) _ (read_nat-Reads int_max 1 (omega arith)) (pure-Reads type_float)
read_type-Reads type_string =
    word-Reads (read_nat int_max) _ (read_nat-Reads int_max 2 (omega arith))
      (pure-Reads type_string)

read_bool-Reads : (b : Bool) → Reads read_bool (show_nat (bool_number b) ∷ []) b
unfolding read_bool
read_bool-Reads true =
    word-Reads (read_nat 9223372036854775807) _ (read_nat-Reads 9223372036854775807 1 (omega arith))
      (pure-Reads true)
read_bool-Reads false =
    word-Reads (read_nat 9223372036854775807) _ (read_nat-Reads 9223372036854775807 0 (omega arith))
      (pure-Reads false)

read_col-Reads : (c : ColMeta) → IsWritableCol c → Reads read_col (col_words c) c
unfolding read_col
read_col-Reads c w = word-Reads read_str _ (read_str-Reads c.tab_name w.tab_word) (
    word-Reads read_str _ (read_str-Reads c.name w.name_word) (
      word-Reads read_type _ (read_type-Reads c.type) (
        word-Reads (read_nat int_max) _ (read_nat-Reads int_max c.len w.len_fits) (
          word-Reads (read_nat int_max) _ (read_nat-Reads int_max c.offset w.offset_fits)
            (word-Reads read_bool _ (read_bool-Reads c.index) (pure-Reads c))))))

pub record IsWritableIndex (i : IndexMeta) : Type 0 where
  pub tab_word : IsWord i.tab_name
  pub len_fits : i.col_tot_len ≤ int_max
  pub num_fits : i.col_num ≤ int_max
  pub counted : i.col_num ≡ length i.cols
  pub cols_writable : Each IsWritableCol i.cols

abbrev index_words : IndexMeta → List Str
index_words i =
    i.tab_name ∷ show_nat i.col_tot_len ∷ show_nat i.col_num ∷ concat_map col_words i.cols

cols-IsBreak : (cols : List ColMeta) → IsBreak (write_index_cols cols)
unfolding write_index_cols is_space
cols-IsBreak [] = tt
cols-IsBreak (c ∷ cols) = refl

words-write_index_cols :
    (cols : List ColMeta)
    → Each IsWritableCol cols
    → words (write_index_cols cols) ≡ concat_map col_words cols
unfolding write_index_cols concat_map words
words-write_index_cols [] w = refl
words-write_index_cols (c ∷ cols) w =
    words-space 10 (write_col c ++ write_index_cols cols) (unfold is_space in refl)
    ∙ words-append (write_col c) (write_index_cols cols) (cols-IsBreak cols)
    ∙ rw (words-write_col c w.0, words-write_index_cols cols w.1) refl

words-write_index : (i : IndexMeta) → IsWritableIndex i → words (write_index i) ≡ index_words i
unfolding write_index
words-write_index i w =
    rw
      (
        word_space i.tab_name _ w.tab_word,
        word_space (show_nat i.col_tot_len) _ (show_nat-IsWord i.col_tot_len),
        words-word-append (show_nat i.col_num) _ (show_nat-IsWord i.col_num) (cols-IsBreak i.cols),
        words-write_index_cols i.cols w.cols_writable,
      )
      refl

read_index-Reads : (i : IndexMeta) → IsWritableIndex i → Reads read_index (index_words i) i
unfolding read_index
read_index-Reads i w = word-Reads read_str _ (read_str-Reads i.tab_name w.tab_word) (
    word-Reads (read_nat int_max) _ (read_nat-Reads int_max i.col_tot_len w.len_fits) (
      word-Reads (read_nat int_max) _ (read_nat-Reads int_max i.col_num w.num_fits) (
        last-Reads (read_many read_col i.col_num) _
          (subst (λ n. Reads (read_many read_col n) (concat_map col_words i.cols) i.cols)
            (sym w.counted)
            (read_many-Reads IsWritableCol read_col col_words read_col-Reads i.cols
              w.cols_writable))
          (pure-Reads i))))

-- Lines, and what follows them.
words-write_lines :
    {A : Type 0} (P : A → Type 0) (write : A → Str) (ts : A → List Str)
    → ((x : A) → P x → words (write x) ≡ ts x)
    → (xs : List A) (b : Str) → Each P xs
    → words (write_lines write xs ++ b) ≡ concat_map ts xs ++ words b
unfolding write_lines concat_map
words-write_lines P write ts h [] b w = refl
words-write_lines P write ts h (x ∷ xs) b w =
    ap words (append_assoc (write x) (10 ∷ write_lines write xs) b)
    ∙ words-append (write x) (10 ∷ (write_lines write xs ++ b)) (unfold is_space in refl)
    ∙ rw
        (
          h x w.0,
          words-space 10 (write_lines write xs ++ b) (unfold is_space in refl),
          words-write_lines P write ts h xs b w.1,
          append_assoc,
        )
        refl

pub words-last_lines :
    {A : Type 0} (P : A → Type 0) (write : A → Str) (ts : A → List Str)
    → ((x : A) → P x → words (write x) ≡ ts x)
    → (xs : List A) → Each P xs
    → words (write_lines write xs) ≡ concat_map ts xs
unfolding words
words-last_lines P write ts h xs w =
    ap words (sym (append-nil (write_lines write xs)))
    ∙ words-write_lines P write ts h xs [] w
    ∙ append-nil (concat_map ts xs)

-- The vectors are of a length that a `size_t` holds.
pub record IsWritableTab (t : TabMeta) : Type 0 where
  pub name_word : IsWord t.name
  pub cols_count : length t.cols ≤ size_max
  pub cols_writable : Each IsWritableCol t.cols
  pub indexes_count : length t.indexes ≤ size_max
  pub indexes_writable : Each IsWritableIndex t.indexes

abbrev pub tab_words : TabMeta → List Str
tab_words t =
    t.name
    ∷ show_nat (length t.cols)
    ∷ (concat_map col_words t.cols
        ++ show_nat (length t.indexes) ∷ concat_map index_words t.indexes)

pub words-write_tab : (t : TabMeta) → IsWritableTab t → words (write_tab t) ≡ tab_words t
unfolding write_tab
words-write_tab t w =
    rw
      (
        word_line t.name _ w.name_word,
        word_line (show_nat (length t.cols)) _ (show_nat-IsWord (length t.cols)),
        words-write_lines IsWritableCol write_col col_words words-write_col t.cols _
            w.cols_writable,
        word_line (show_nat (length t.indexes)) _ (show_nat-IsWord (length t.indexes)),
        words-last_lines IsWritableIndex write_index index_words words-write_index t.indexes
            w.indexes_writable,
      )
      refl

pub read_tab-Reads : (t : TabMeta) → IsWritableTab t → Reads read_tab (tab_words t) t
unfolding read_tab
read_tab-Reads t w = word-Reads read_str _ (read_str-Reads t.name w.name_word) (
    word-Reads (read_nat size_max) _ (read_nat-Reads size_max (length t.cols) w.cols_count) (
      bind-Reads (read_many read_col (length t.cols)) _
        (read_many-Reads IsWritableCol read_col col_words read_col-Reads t.cols w.cols_writable)
        (word-Reads (read_nat size_max) _
          (read_nat-Reads size_max (length t.indexes) w.indexes_count)
          (last-Reads (read_many read_index (length t.indexes)) _
            (read_many-Reads IsWritableIndex read_index index_words read_index-Reads t.indexes
              w.indexes_writable)
            (pure-Reads t)))))
