-- ===== src/System/Stored.antt =====
-- `create_table` over the record manager of src/record/rm_manager.h.
use uni_base.Base.{◌≡◌, List, ite, ℤ, pos, some, lookup}
use uni_base.Errors.{Str, Str-discrete, Result, ok}
use uni_base.Meta.{ColDef, get_table}
use uni_base.Meta.Text.{write_db}
use uni_base.Storage.Disk.Files.{fd_of}
use uni_base.Record.{new_file_hdr}
use uni_base.Record.Manager.{Store, Created, RmFileHandle, create_file, open_file}
use uni_base.System.{RmManager, SmManager, col_metas, tab_of}
use uni_base.System.Created.{IsTiled}

-- The two calls, with what the operating system answers to them.
abbrev pub rm_manager : {S : Type 0} → Created → ℤ → RmManager (Store S) RmFileHandle
rm_manager os fd = record {
  create_file = λ name n. create_file os name (pos n);
  open_file = open_file fd;
}

-- The table is created: the call returns, the table is in the metadata and its text, and its file is open, with a handle.
pub record IsStored {S : Type 0} (tab_name : Str) (defs : List ColDef) (fd : ℤ)
    (s : SmManager (Store S) RmFileHandle)
    (u : Result (Unit {0}) × SmManager (Store S) RmFileHandle) : Type 0 where
  pub done : u.0 ≡ ok tt
  pub tiled : IsTiled 0 (tab_of tab_name defs).cols (col_metas tab_name 0 defs).1
  pub tables :
      (t : Str)
      → get_table u.1.db t
        ≡ ite (Str-discrete tab_name t) (ok (tab_of tab_name defs)) (get_table s.db t)
  pub text : u.1.meta_file ≡ write_db u.1.db
  pub handle :
      lookup Str-discrete tab_name u.1.fhs
      ≡ some (record { fd = fd; file_hdr = new_file_hdr (col_metas tab_name 0 defs).1 })
  pub is_open : fd_of u.1.files.pool.disk tab_name ≡ fd
  pub next_page : u.1.files.pool.disk.fd2pageno fd ≡ pos 1
