-- ===== src/Meta/Tables.antt =====
-- The map of the tables in the text of the metadata: its order, and the tables that are read back.
use uni_base.Base.{
  suc, ◌≤◌, ◌≡◌, ◌≢◌, refl, ap, ◌∙◌, subst, List, [], ◌∷◌, ◌++◌, Option, none, some, ite, length,
  lookup, lookup-insert, Option-cases, Bool-cases, inl, inr, arith,
}
use mathlib.Core.List.{append-nil}
use uni_base.Errors.{Str, Str-discrete}
use uni_base.Streams.{read_str, read_nat, show_nat, read_many}
use uni_base.Streams.Words.{words, IsWord}
use uni_base.Streams.Reads.{
  Reads, Each, concat_map, pure-Reads, word-Reads, last-Reads, read_str-Reads, read_nat-Reads,
  read_many-Reads, show_nat-IsWord,
}
use uni_base.Meta.{TabMeta, DbMeta, set_tab_meta}
use uni_base.Meta.Text.{
  size_max, str_less, place, in_order, write_entry, write_lines, write_db, enter, read_tab, read_db,
}
use uni_base.Meta.RoundTrip.{
  IsWritableTab, tab_words, words-write_tab, read_tab-Reads, words-last_lines, word_line,
}

-- The keys are the names of the tables, no two of them the same.
abbrev pub AreTables : List (Str × TabMeta) → Type 0
AreTables [] = Unit {0}
AreTables ((k, t) ∷ m) =
    (k ≡ t.name) × (lookup Str-discrete k m ≡ none) × IsWritableTab t × AreTables m

lookup-place :
    (k j : Str) (t : TabMeta) (m : List (Str × TabMeta))
    → lookup Str-discrete k m ≡ none
    → lookup Str-discrete j (place (k, t) m)
      ≡ ite (Str-discrete k j) (some t) (lookup Str-discrete j m)
unfolding lookup place
lookup-place k j t [] h = refl
lookup-place k j t ((i, u) ∷ m) h = elim (Bool-cases (str_less i k)) [
  | inr e ↦ rw (e) refl
  | inl e ↦ ground (arith, e, h, lookup-place k j t m)
]

-- A key that is not in a map is not its first key, and not in the rest.
lookup-none :
    (k i : Str) (t : TabMeta) (m : List (Str × TabMeta))
    → lookup Str-discrete k ((i, t) ∷ m) ≡ none
    → (i ≢ k) × (lookup Str-discrete k m ≡ none)
unfolding lookup
lookup-none k i t m h = (ground (arith, h), ground (arith, h))

place-AreTables :
    (k : Str) (t : TabMeta) (m : List (Str × TabMeta))
    → lookup Str-discrete k m ≡ none
    → k ≡ t.name
    → IsWritableTab t
    → AreTables m
    → AreTables (place (k, t) m)
unfolding place
place-AreTables k t [] h e w a = (e, h, w, tt)
place-AreTables k t ((i, u) ∷ m) h e w a = elim (Bool-cases (str_less i k)) [
  | inr d ↦ rw d (e, h, w, a)
  | inl d ↦
      let (other, rest) = lookup-none k i u m h in
      rw d (
        a.0,
        lookup-place k i t m rest ∙ ground (arith, other, a.1),
        a.2,
        place-AreTables k t m rest e w a.3,
      )
]

lookup-place_all :
    (k : Str) (m : List (Str × TabMeta))
    → AreTables m
    → (AreTables (in_order m)) × (lookup Str-discrete k (in_order m) ≡ lookup Str-discrete k m)
unfolding in_order lookup
lookup-place_all k [] a = (tt, refl)
lookup-place_all k ((i, t) ∷ m) a =
    let (sorted, same) = lookup-place_all k m a.3 in
    let absent : lookup Str-discrete i (in_order m) ≡ none = (lookup-place_all i m a.3).1 ∙ a.1 in
    (
      place-AreTables i t (in_order m) absent a.0 a.2 sorted,
      lookup-place i k t (in_order m) absent ∙ ap (ite (Str-discrete i k) (some t)) same,
    )

length-place : (e : Str × TabMeta) (m : List (Str × TabMeta)) → length (place e m) ≡ suc (length m)
unfolding place
length-place e [] = refl
length-place e (d ∷ m) = ground (arith, length-place e m)

length-in_order : (m : List (Str × TabMeta)) → length (in_order m) ≡ length m
unfolding in_order
length-in_order [] = refl
length-in_order (e ∷ m) = length-place e (in_order m) ∙ ap suc (length-in_order m)

-- The tables of a map, in its order.
tabs_of : List (Str × TabMeta) → List TabMeta
tabs_of [] = []
tabs_of ((k, t) ∷ m) = t ∷ tabs_of m

length-tabs_of : (m : List (Str × TabMeta)) → length (tabs_of m) ≡ length m
unfolding tabs_of
length-tabs_of [] = refl
length-tabs_of ((k, t) ∷ m) = ap suc (length-tabs_of m)

tabs-Each : (m : List (Str × TabMeta)) → AreTables m → Each IsWritableTab (tabs_of m)
unfolding tabs_of
tabs-Each [] a = tt
tabs-Each ((k, t) ∷ m) a = (a.2, tabs-Each m a.3)

entries-Each : (m : List (Str × TabMeta)) → AreTables m → Each (λ e. IsWritableTab (e.1)) m
entries-Each [] a = tt
entries-Each ((k, t) ∷ m) a = (a.2, entries-Each m a.3)

concat_map-tabs_of :
    (m : List (Str × TabMeta))
    → concat_map (λ (e : Str × TabMeta). tab_words (e.1)) m ≡ concat_map tab_words (tabs_of m)
unfolding tabs_of concat_map
concat_map-tabs_of [] = refl
concat_map-tabs_of ((k, t) ∷ m) = ap (λ r. tab_words t ++ r) (concat_map-tabs_of m)

words-entries :
    (m : List (Str × TabMeta))
    → AreTables m
    → words (write_lines write_entry m) ≡ concat_map tab_words (tabs_of m)
words-entries m a =
    words-last_lines (λ e. IsWritableTab (e.1)) write_entry (λ e. tab_words (e.1))
      (λ e. words-write_tab (e.1)) m (entries-Each m a)
    ∙ concat_map-tabs_of m

-- Entered into a database, the tables of a map are found as in the map.
lookup-enter :
    (db : DbMeta) (m : List (Str × TabMeta))
    → AreTables m
    → (j : Str)
    → lookup Str-discrete j (enter db (tabs_of m)).tabs
      ≡ elim (lookup Str-discrete j m) [ none ↦ lookup Str-discrete j db.tabs | some t ↦ some t ]
unfolding tabs_of set_tab_meta lookup
lookup-enter db [] a j = refl
lookup-enter db ((k, t) ∷ m) a j =
    lookup-enter (set_tab_meta db t.name t) m a.3 j
    ∙ ground (
      arith,
      a.0,
      a.1,
      lookup-insert Str-discrete t.name j t db.tabs,
      Option-cases (lookup Str-discrete j m),
    )

name-enter : (db : DbMeta) (tabs : List TabMeta) → (enter db tabs).name ≡ db.name
unfolding set_tab_meta
name-enter db [] = refl
name-enter db (t ∷ tabs) = name-enter (set_tab_meta db t.name t) tabs

-- Names without white space, numbers that fit their types, and tables under their names.
pub record IsWritableDb (db : DbMeta) : Type 0 where
  pub name_word : IsWord db.name
  pub count_fits : length db.tabs ≤ size_max
  pub tables : AreTables db.tabs

abbrev pub no_db : DbMeta
no_db = record { name = []; tabs = [] }

-- The same name, and the same table under each name.
abbrev pub IsSameDb : DbMeta → DbMeta → Type 0
IsSameDb a b =
    (a.name ≡ b.name) × ((k : Str) → lookup Str-discrete k a.tabs ≡ lookup Str-discrete k b.tabs)

words-write_db :
    (db : DbMeta)
    → IsWritableDb db
    → words (write_db db)
      ≡ (db.name ∷ show_nat (length db.tabs) ∷ concat_map tab_words (tabs_of (in_order db.tabs)))
        ++ []
unfolding write_db
words-write_db db w =
    rw
      (
        word_line db.name _ w.name_word,
        word_line (show_nat (length db.tabs)) _ (show_nat-IsWord (length db.tabs)),
        words-entries (in_order db.tabs) (lookup-place_all [] db.tabs w.tables).0,
        append-nil (concat_map tab_words (tabs_of (in_order db.tabs))),
      )
      refl

lookup_in_none :
    (k : Str) (o : Option TabMeta)
    → elim o [ none ↦ lookup Str-discrete k no_db.tabs | some t ↦ some t ] ≡ o
unfolding lookup
lookup_in_none k none = refl
lookup_in_none k (some t) = refl

-- The text that `<<` writes of the metadata of a database is read by `>>` as the same metadata, the same table
-- under every name with its columns and indexes, and no word of the text is left; when no name is empty or
-- holds white space, each number fits its type, each index counts its columns, and the tables stand under
-- their names.
pub read_db-write_db :
    (db : DbMeta)
    → IsWritableDb db
    → (d : DbMeta) × (r : Str) × (read_db no_db (write_db db) ≡ some (d, r))
      × IsSameDb d db
      × (words r ≡ [])
unfolding read_db
read_db-write_db db w =
    let m = in_order db.tabs in
    let sorted = (lookup-place_all [] db.tabs w.tables).0 in
    let n = length db.tabs in
    let named = record no_db { name = db.name } in
    let same : length (tabs_of m) ≡ n = length-tabs_of m ∙ length-in_order db.tabs in
    let reading : Reads (read_db no_db) (db.name ∷ show_nat n ∷ concat_map tab_words (tabs_of m))
        (enter named (tabs_of m)) =
      word-Reads read_str _ (read_str-Reads db.name w.name_word) (
        word-Reads (read_nat size_max) _ (read_nat-Reads size_max n w.count_fits) (
          last-Reads (read_many read_tab n) _
            (subst
              (λ n. Reads (read_many read_tab n) (concat_map tab_words (tabs_of m)) (tabs_of m))
              same
              (read_many-Reads IsWritableTab read_tab tab_words read_tab-Reads (tabs_of m)
                (tabs-Each m sorted)))
            (pure-Reads (enter named (tabs_of m))))) in
    let (r, e, rest) = reading.run (write_db db) [] (words-write_db db w) in
    (
      enter named (tabs_of m),
      r,
      e,
      (
        name-enter named (tabs_of m),
        λ k.
            lookup-enter named m sorted k
            ∙ lookup_in_none k (lookup Str-discrete k m)
            ∙ (lookup-place_all k db.tabs w.tables).1,
      ),
      rest,
    )
