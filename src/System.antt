-- ===== src/System.antt =====
-- src/system/sm_manager.cpp: the tables of an open database. The record files are those of an `RmManager`,
-- given by its two calls; a table is created in the state of both.
pub mod Created
pub mod Shows
pub mod Stored
use uni_base.Base.{
  ℕ, ◌+◌, List, [], ◌∷◌, Option, none, some, Bool, true, false, if◌then◌else◌, lookup, insert,
}
use uni_base.Errors.{Str, Str-discrete, Step, ◌>>=◌, ◌>>◌, pure, Result, ok, throw, table_exists}
use uni_base.Meta.{ColMeta, ColDef, TabMeta, DbMeta, is_table, set_tab_meta}
use uni_base.Meta.Text.{write_db}

-- `create_file` and `open_file` of `RmManager`, on the files `T`, with the file handles `H`.
pub record RmManager (T H : Type 0) : Type 0 where
  pub create_file : Str → ℕ → Step T (Unit {0})
  pub open_file : Str → Step T H

-- `meta_file` is the text of the file of the metadata.
pub record SmManager (T H : Type 0) : Type 0 where
  pub db : DbMeta
  pub fhs : List (Str × H)
  pub meta_file : Str
  pub files : T

-- The columns of the definitions, and the size of a record.
unfoldable pub col_metas : Str → ℕ → List ColDef → List ColMeta × ℕ
col_metas tab_name curr_offset [] = ([], curr_offset)
col_metas tab_name curr_offset (d ∷ ds) =
    let rest = col_metas tab_name (curr_offset + d.len) ds in
    (
      record {
        tab_name = tab_name;
        name = d.name;
        type = d.type;
        len = d.len;
        offset = curr_offset;
        index = false;
      }
          ∷ rest.0,
      rest.1,
    )

abbrev pub tab_of : Str → List ColDef → TabMeta
tab_of tab_name col_defs = record {
  name = tab_name;
  cols = (col_metas tab_name 0 col_defs).0;
  indexes = [];
}

module _ {T H : Type 0} where
  -- A call of the record manager.
  abbrev pub in_files : {A : Type 0} → Step T A → Step (SmManager T H) A
  in_files m s = let (r, t) = m s.files in (r, record s { files = t })

  -- `tabs_[tab_name] = tab`
  unfoldable pub add_table : TabMeta → Step (SmManager T H) (Unit {0})
  unfolding set_tab_meta
  add_table tab s = (ok tt, record s { db = set_tab_meta s.db tab.name tab })

  -- `emplace`, which keeps a value that is there already.
  unfoldable pub add_handle : Str → H → Step (SmManager T H) (Unit {0})
  add_handle tab_name h s = elim (lookup Str-discrete tab_name s.fhs) [
    | some _ ↦ (ok tt, s)
    | none ↦ (ok tt, record s { fhs = insert Str-discrete tab_name h s.fhs })
  ]

  unfoldable pub flush_meta : Step (SmManager T H) (Unit {0})
  flush_meta s = (ok tt, record s { meta_file = write_db s.db })

  unfoldable pub create_table : RmManager T H → Str → List ColDef → Step (SmManager T H) (Unit {0})
  unfolding is_table col_metas add_table add_handle flush_meta
  create_table M tab_name col_defs s =
      if is_table s.db tab_name
      then (throw (table_exists tab_name), s)
      else (in_files (M.create_file tab_name (col_metas tab_name 0 col_defs).1)
            >> (add_table (tab_of tab_name col_defs)
                >> (in_files (M.open_file tab_name) >>= λ h. add_handle tab_name h >> flush_meta)))
          s
