-- ===== src/Record/Manager/Reopened.antt =====
-- `open_file` after `create_file`.
use uni_base.Base.{◌≡◌, ◌≢◌, ℤ, pos}
use uni_base.Errors.{Str, Result, ok}
use uni_base.Storage.Disk.Files.{fd_of}
use uni_base.Record.{RmFileHdr}
use uni_base.Record.Manager.{Store, RmFileHandle}

module _ {S : Type 0} where
  -- The file is created, and then it is open, with a header and with 1 as the number of its next page. Whether any
  -- other path is a file, and what stands under it, is as before.
  pub record IsReopened (s : Store S) (fd : ℤ) (p : Str) (h : RmFileHdr)
      (u : Result (Unit {0}) × Store S) (v : Result RmFileHandle × Store S) : Type 0 where
    pub made : u.0 ≡ ok tt
    pub handle : v.0 ≡ ok (record { fd = fd; file_hdr = h })
    pub is_open : fd_of v.1.pool.disk p ≡ fd
    pub next_page : v.1.pool.disk.fd2pageno fd ≡ pos 1
    pub paths : (q : Str) → p ≢ q → v.1.is_file q ≡ s.is_file q
    pub contents : (q : Str) → p ≢ q → v.1.saved q ≡ s.saved q
