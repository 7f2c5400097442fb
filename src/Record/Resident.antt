-- ===== src/Record/Resident.antt =====
-- Fetching a page that the pool holds: its frame is pinned once more, and nothing else is seen.
use uni_base.Base.{
  ℕ, ◌≤◌, ◌<◌, ◌≡◌, refl, ◌∙◌, List, Option, none, some, pos, ltb-true, lookup, ℤ-discrete,
}
use uni_base.Errors.{Str, ok, Step, ◌>>=◌, ◌>>◌, bind-of}
use uni_base.Replacer.{Replacer}
use uni_base.Storage.Page.{PageId}
use uni_base.Storage.Disk.{get_file_name}
use uni_base.Storage.Pool.{M, fetch_page, fetch_hit}
use uni_base.Storage.Pool.Invariant.{frame_of}
use uni_base.Record.{RmFile, bytes, pooled, file_name, check_page_no, deref}
use uni_base.Record.Handle.{fetch_page_handle}
use uni_base.Record.Slots.{slot, IsMarkable}

module _ {S : Type 0} where
  abbrev pub page_of : RmFile S → ℕ → PageId
  page_of t n = record { fd = t.fd; page_no = pos n }

  -- The frame that holds a page of the file.
  abbrev pub frame : RmFile S → ℕ → Option ℕ
  frame t n = frame_of t.pool (page_of t n)

  -- An open file, all of whose pages of records are in the pool, each in a frame of its own.
  pub record IsResident (t : RmFile S) : Type 0 where
    pub path : Str
    pub named : lookup ℤ-discrete t.fd t.pool.disk.fd2path ≡ some path
    pub markable : IsMarkable t.file_hdr
    pub resident : (n : ℕ) → 1 ≤ n → n < t.file_hdr.num_pages → (f : ℕ) × (frame t n ≡ some f)
    pub own : (p : PageId) (f : ℕ) → frame_of t.pool p ≡ some f → (t.pool.pages f).id ≡ p

  -- What the file holds in a slot of a page.
  unfoldable pub record_in : RmFile S → Option ℕ → ℕ → Option (List ℕ)
  record_in t none k = none
  record_in t (some f) k = slot t.file_hdr (bytes t f) k

  abbrev pub record_at : RmFile S → ℕ → ℕ → Option (List ℕ)
  record_at t n k = record_in t (frame t n) k

module _ (R : Replacer) where
  open R use {S}

  abbrev pub pinned : ℕ → RmFile S → RmFile S
  pinned f t = record t { pool = (fetch_hit R f t.pool).1 }

  pub fetch_page_handle-resident :
      (t : RmFile S) (n f : ℕ) (path : Str)
      → lookup ℤ-discrete t.fd t.pool.disk.fd2path ≡ some path
      → n < t.file_hdr.num_pages
      → frame t n ≡ some f
      → fetch_page_handle R (pos n) t ≡ (ok f, pinned f t)
  unfolding fetch_page_handle file_name get_file_name check_page_no deref fetch_page fetch_hit
  fetch_page_handle-resident t n f path name l e =
      let fetch : M S (Option ℕ) = fetch_page R (page_of t n) in
      let get : Step (RmFile S) ℕ = pooled fetch >>= deref in
      bind-of file_name (λ p. check_page_no p (pos n) >> get) t t path
        (rw (name, get_file_name) refl)
      ∙ bind-of (check_page_no path (pos n)) (λ _. get) t t tt
          (rw (ltb-true n t.file_hdr.num_pages l) refl)
      ∙ bind-of (pooled fetch) deref t (pinned f t) (some f) (rw (e, fetch_page) refl)
