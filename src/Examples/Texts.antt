-- ===== src/Examples/Texts.antt =====
-- The text of the metadata of two tables, one with an index.
use uni_base.Base.{◌≡◌, refl, [], ◌∷◌, some, true, false, lookup, arith, ℕ_discrete}
use uni_base.Errors.{Str, Str-discrete}
use uni_base.Defs.{type_int, type_string}
use uni_base.Streams.{is_space}
use uni_base.Streams.Words.{words}
use uni_base.Meta.{ColMeta, IndexMeta, TabMeta, DbMeta}
use uni_base.Meta.Text.{write_db, read_db}
use uni_base.Meta.RoundTrip.{IsWritableCol}
use uni_base.Meta.Tables.{IsWritableDb, IsSameDb, no_db, read_db-write_db}

abbrev pub key : ColMeta
key = record {
  tab_name = 98 ∷ [];
  name = 107 ∷ [];
  type = type_int;
  len = 4;
  offset = 0;
  index = true;
}

abbrev by_key : IndexMeta
by_key = record { tab_name = 98 ∷ []; col_tot_len = 4; col_num = 1; cols = key ∷ [] }

abbrev table_b : TabMeta
table_b = record { name = 98 ∷ []; cols = key ∷ []; indexes = by_key ∷ [] }

abbrev table_a : TabMeta
table_a = record {
  name = 97 ∷ [];
  cols =
      record {
        tab_name = 97 ∷ [];
        name = 110 ∷ [];
        type = type_string;
        len = 12;
        offset = 0;
        index = false;
      }
      ∷ [];
  indexes = [];
}

abbrev pub two_tables : DbMeta
two_tables = record { name = 100 ∷ []; tabs = (98 ∷ [], table_b) ∷ (97 ∷ [], table_a) ∷ [] }

-- `d`, `2`, `a`, `1`, `a n 2 12 0 0`, `0`, an empty line, `b`, `1`, `b k 0 4 0 1`, `1`, `b 4 1`, `b k 0 4 0 1`, and an
-- empty line.
two_tables-text :
    write_db two_tables
    ≡ 100 ∷ 10 ∷ 50 ∷ 10 ∷ 97 ∷ 10 ∷ 49 ∷ 10 ∷ 97 ∷ 32 ∷ 110 ∷ 32 ∷ 50 ∷ 32 ∷ 49 ∷ 50 ∷ 32 ∷ 48 ∷ 32
      ∷ 48 ∷ 10 ∷ 48 ∷ 10 ∷ 10 ∷ 98 ∷ 10 ∷ 49 ∷ 10 ∷ 98 ∷ 32 ∷ 107 ∷ 32 ∷ 48 ∷ 32 ∷ 52 ∷ 32 ∷ 48
      ∷ 32 ∷ 49 ∷ 10 ∷ 49 ∷ 10 ∷ 98 ∷ 32 ∷ 52 ∷ 32 ∷ 49 ∷ 10 ∷ 98 ∷ 32 ∷ 107 ∷ 32 ∷ 48 ∷ 32 ∷ 52
      ∷ 32 ∷ 48 ∷ 32 ∷ 49 ∷ 10 ∷ 10 ∷ []
unfolding write_db
two_tables-text = refl

key-IsWritableCol : IsWritableCol key
unfolding is_space
key-IsWritableCol = record {
  tab_word = (refl, tt);
  name_word = (refl, tt);
  len_fits = omega arith;
  offset_fits = omega arith;
}

two_tables-IsWritableDb : IsWritableDb two_tables
unfolding is_space lookup Str-discrete ℕ_discrete
two_tables-IsWritableDb = record {
  name_word = (refl, tt);
  count_fits = omega arith;
  tables = (
    refl,
    refl,
    record {
      name_word = (refl, tt);
      cols_count = omega arith;
      cols_writable = (key-IsWritableCol, tt);
      indexes_count = omega arith;
      indexes_writable = (
        record {
          tab_word = (refl, tt);
          len_fits = omega arith;
          num_fits = omega arith;
          counted = refl;
          cols_writable = (key-IsWritableCol, tt);
        },
        tt,
      );
    },
    (
      refl,
      refl,
      record {
        name_word = (refl, tt);
        cols_count = omega arith;
        cols_writable = (
          record {
            tab_word = (refl, tt);
            name_word = (refl, tt);
            len_fits = omega arith;
            offset_fits = omega arith;
          },
          tt,
        );
        indexes_count = omega arith;
        indexes_writable = tt;
      },
      tt,
    ),
  );
}

read_db-write_db_example :
    (d : DbMeta) × (r : Str) × (read_db no_db (write_db two_tables) ≡ some (d, r))
    × IsSameDb d two_tables
    × (words r ≡ [])
read_db-write_db_example = read_db-write_db two_tables two_tables-IsWritableDb
