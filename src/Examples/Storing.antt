-- ===== src/Examples/Storing.antt =====
-- A table of records of 8 bytes, created and opened in an empty store.
use uni_base.Base.{[], ◌∷◌, true, false, pos, minus_one}
use uni_base.Errors.{Str}
use uni_base.Storage.Page.{new_page_object}
use uni_base.Storage.Disk.{DiskManager}
use uni_base.Storage.Pool.{Pool}
use uni_base.Record.Manager.{Store, Created, RmFileHandle, empty_file}
use uni_base.System.{SmManager}
use uni_base.Examples.Rows.{empty_db}

abbrev disk : DiskManager
disk = record {
  file = λ _. empty_file 0;
  path2fd = [];
  fd2path = [];
  log_fd = minus_one;
  fd2pageno = λ _. pos 0;
}

abbrev pool : Pool (Unit {0})
pool = record {
  pool_size = 0;
  pages = λ _. new_page_object (pos 0);
  page_table = [];
  free_list = [];
  disk = disk;
  replacer = tt;
}

abbrev store : Store (Unit {0})
store = record { pool = pool; is_file = λ _. false; saved = λ _. empty_file 0 }

abbrev answers : Created
answers = record { made = true; room = 65536; fd = pos 5 }

abbrev name : Str
name = 98 ∷ []

abbrev opened : SmManager (Store (Unit {0})) RmFileHandle
opened = record { db = empty_db; fhs = []; meta_file = []; files = store }
