-- ===== src/System/Created.antt =====
-- src/system/sm_manager.cpp: the tables of the database after `create_table`.
use uni_base.Base.{
  ℕ, ◌+◌, List, [], ◌∷◌, none, some, false, ite, if◌then◌else◌, ◌≡◌, refl, ap, ◌∙◌, lookup, insert,
  lookup-insert,
}
use uni_base.Errors.{Str, Str-discrete, ◌>>=◌, ◌>>◌, bind-of, Result, ok, throw, table_not_found}
use uni_base.Meta.{ColMeta, ColDef, TabMeta, DbMeta, is_table, set_tab_meta, get_table}
use uni_base.Meta.Text.{write_db}
use uni_base.System.{
  RmManager, SmManager, in_files, create_table, add_table, add_handle, flush_meta, col_metas,
  tab_of,
}

-- Columns that follow one another without a gap, from one offset to another.
unfoldable pub IsTiled : ℕ → List ColMeta → ℕ → Type 0
IsTiled start [] end = start ≡ end
IsTiled start (c ∷ cs) end = (c.offset ≡ start) × IsTiled (start + c.len) cs end

pub col_metas-IsTiled :
    (tab_name : Str) (start : ℕ) (defs : List ColDef)
    → IsTiled start (col_metas tab_name start defs).0 (col_metas tab_name start defs).1
unfolding col_metas IsTiled
col_metas-IsTiled t start [] = refl
col_metas-IsTiled t start (d ∷ ds) = (refl, col_metas-IsTiled t (start + d.len) ds)

pub get_table-set_tab_meta :
    (db : DbMeta) (n t : Str) (tab : TabMeta)
    → get_table (set_tab_meta db n tab) t ≡ ite (Str-discrete n t) (ok tab) (get_table db t)
unfolding get_table set_tab_meta
get_table-set_tab_meta db n t tab =
    rw (get_table, lookup-insert Str-discrete n t tab db.tabs)
      (elim (Str-discrete n t)
        as (λ d.
          elim (ite d (some tab) (lookup Str-discrete t db.tabs)) [
            | none ↦ throw (table_not_found t)
            | some x ↦ ok x
          ]
          ≡ ite d (ok tab) (elim (lookup Str-discrete t db.tabs) [
            | none ↦ throw (table_not_found t)
            | some x ↦ ok x
          ])) [ yes _ ↦ refl | no _ ↦ refl ])

-- `emplace` changes at most the handles.
add_handle-fhs :
    {T H : Type 0} (n : Str) (h : H) (s : SmManager T H)
    → (m : List (Str × H)) × (add_handle n h s ≡ (ok tt, record s { fhs = m }))
unfolding add_handle
add_handle-fhs {T = T} {H = H} n h s =
    elim (lookup Str-discrete n s.fhs)
      as (λ o.
        (m : List (Str × H)) × (elim o as (λ _. Result (Unit {0}) × SmManager T H) [
          | some _ ↦ (ok tt, s)
          | none ↦ (ok tt, record s { fhs = insert Str-discrete n h s.fhs })
        ]
          ≡ (ok tt, record s { fhs = m }))) [
            | some x ↦ (s.fhs, refl)
            | none ↦ (insert Str-discrete n h s.fhs, refl)
          ]

module _ {T H : Type 0} (M : RmManager T H) (tab_name : Str) (defs : List ColDef)
    (s : SmManager T H) where
  abbrev pub after_open : T → SmManager T H
  after_open g = record s { db = set_tab_meta s.db tab_name (tab_of tab_name defs); files = g }

  -- The steps of `create_table` until the file is open.
  pub create_table-opened :
      (f g : T) (h : H)
      → is_table s.db tab_name ≡ false
      → M.create_file tab_name (col_metas tab_name 0 defs).1 s.files ≡ (ok tt, f)
      → M.open_file tab_name f ≡ (ok h, g)
      → create_table M tab_name defs s ≡ (add_handle tab_name h >> flush_meta) (after_open g)
  unfolding create_table add_table
  create_table-opened f g h n c o =
      let after_file : SmManager T H = record s { files = f } in
      rw (n, if◌then◌else◌)
        (bind-of (in_files (M.create_file tab_name (col_metas tab_name 0 defs).1))
            (λ _.
              add_table (tab_of tab_name defs)
              >> (in_files (M.open_file tab_name) >>= λ x. add_handle tab_name x >> flush_meta))
            s after_file tt (ap (λ p. (p.0, record s { files = p.1 })) c)
          ∙ bind-of (in_files (M.open_file tab_name)) (λ x. add_handle tab_name x >> flush_meta)
              (after_open f) (after_open g) h (ap (λ p. (p.0, after_open p.1)) o))

  -- `create_table` of a name that is free, when the record manager creates and opens the file: the call
  -- returns, the columns of the new table follow one another from offset 0 to the size of a record, every
  -- other table is as before, and the file of the metadata holds the text of the metadata in memory.
  pub create_table-IsTiled :
      (f g : T) (h : H)
      → is_table s.db tab_name ≡ false
      → M.create_file tab_name (col_metas tab_name 0 defs).1 s.files ≡ (ok tt, f)
      → M.open_file tab_name f ≡ (ok h, g)
      → (let u = create_table M tab_name defs s in
          (u.0 ≡ ok tt)
          × IsTiled 0 (tab_of tab_name defs).cols (col_metas tab_name 0 defs).1
          × ((t : Str)
              → get_table u.1.db t
                ≡ ite (Str-discrete tab_name t) (ok (tab_of tab_name defs)) (get_table s.db t))
          × (u.1.meta_file ≡ write_db u.1.db))
  unfolding create_table add_table add_handle flush_meta
  create_table-IsTiled f g h n c o =
      let (m, e) = add_handle-fhs tab_name h (after_open g) in
      rw
        (create_table-opened f g h n c o
          ∙ bind-of (add_handle tab_name h) (λ _. flush_meta) (after_open g)
              (record (after_open g) { fhs = m }) tt e)
        (
          refl,
          col_metas-IsTiled tab_name 0 defs,
          (λ t. get_table-set_tab_meta s.db tab_name t (tab_of tab_name defs)),
          refl,
        )
