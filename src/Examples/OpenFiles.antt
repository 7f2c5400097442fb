-- ===== src/Examples/OpenFiles.antt =====
-- A directory with one file, which is closed at first.
use uni_base.Base.{◌≡◌, refl, [], ◌∷◌, pos, true, arith, insert, lookup_or, ℤ-discrete, ℕ_discrete}
use uni_base.Errors.{Str, Str-discrete, ok}
use uni_base.Storage.Disk.Files.{FileSystem, open_file, close_file, get_file_fd}
use uni_base.Storage.Disk.OpenFiles.{
  IsTable, start, opens, closes, reached-IsTable, close_file-get_file_fd,
}

abbrev closed : FileSystem
closed = record {
  disk = record {
    file = λ _. record { size = 0; limit = 40960; position = 0; bytes = λ _. 0 };
    path2fd = [];
    fd2path = [];
    log_fd = pos 0;
    fd2pageno = λ _. pos 0;
  };
  is_file = λ _. true;
}

closed-IsTable : IsTable closed.disk
unfolding lookup_or
closed-IsTable = record { open_path = λ p n. absurd (n refl); open_fd = λ fd n. absurd (n refl) }

abbrev name : Str
name = 116 ∷ []

abbrev opened : FileSystem
opened = (open_file (pos 5) name closed).1

reached-IsTable_example : IsTable (close_file (pos 5) opened).1.disk
unfolding lookup_or
reached-IsTable_example =
    reached-IsTable closed (close_file (pos 5) opened).1 closed-IsTable
      (closes opened (pos 5) (opens closed (pos 5) name (ground arith) (ground arith, refl) start))

close_file-get_file_fd_example :
    get_file_fd (pos 6) name (close_file (pos 5) opened).1
    ≡ (ok (pos 0), (close_file (pos 5) opened).1)
unfolding open_file insert lookup_or ℤ-discrete ℕ_discrete Str-discrete
close_file-get_file_fd_example = close_file-get_file_fd (pos 5) (pos 6) opened (ground arith)
