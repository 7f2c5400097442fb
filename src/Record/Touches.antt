-- ===== src/Record/Touches.antt =====
-- Steps that change the bytes of one frame, and the records that the file holds afterwards.
use uni_base.Base.{
  ℕ, suc, ◌<◌, ◌≡◌, ◌≢◌, refl, sym, ap, ◌∙◌, subst, some, ℤ, pos, ◌==◌, if◌then◌else◌, lookup,
  ℤ-discrete, arith, Option-cases, inl, inr, if-eq, if-ne, ap₂, negsuc,
}
use uni_base.Replacer.{Replacer}
use uni_base.Storage.Page.{Block, Page, PageId, PageId-discrete}
use uni_base.Storage.Disk.{DiskManager}
use uni_base.Storage.Pool.{fetch_hit}
use uni_base.Record.{RmFile, RmFileHdr, bytes, get_slot, slot_bytes, write_bytes, set_first_free}
use uni_base.Record.Slots.{slot, IsMarkable}
use uni_base.Record.Resident.{IsResident, page_of, frame, record_in, record_at, pinned}

abbrev number : ℤ → ℕ
number (pos n) = n
number (negsuc n) = n

-- Changing a page of an array at `f` to one of the same identity changes no identity.
same-id :
    (pages : ℕ → Page) (p : Page) (f q : ℕ)
    → p.id ≡ (pages f).id
    → (if f == q then p else pages q).id ≡ (pages q).id
same-id pages p f q e = ground arith

slot-hdr :
    (h : RmFileHdr) (n : ℤ) (b : Block) (k : ℕ)
    → slot (record h { first_free_page_no = n }) b k ≡ slot h b k
unfolding slot slot_bytes get_slot
slot-hdr h n b k = refl

module _ {S : Type 0} where
  -- From `t` to `u` the bytes of the frame `f` are changed by `g`, and those of no other frame. The
  -- header changes in its first free page at most, the pins and the replacer as they may.
  pub record Touches (f : ℕ) (g : Block → Block) (t u : RmFile S) : Type 0 where
    pub same_table : u.pool.page_table ≡ t.pool.page_table
    pub same_fd : u.fd ≡ t.fd
    pub same_disk : u.pool.disk ≡ t.pool.disk
    pub same_hdr :
        u.file_hdr ≡ record t.file_hdr { first_free_page_no = u.file_hdr.first_free_page_no }
    pub same_id : (q : ℕ) → (u.pool.pages q).id ≡ (t.pool.pages q).id
    pub here : bytes u f ≡ g (bytes t f)
    pub elsewhere : (q : ℕ) → f ≢ q → bytes u q ≡ bytes t q

  pub Touches-trans :
      (f : ℕ) (g k : Block → Block) (t u v : RmFile S)
      → Touches f g t u
      → Touches f k u v
      → Touches f (λ b. k (g b)) t v
  Touches-trans f g k t u v a b = record {
    same_table = b.same_table ∙ a.same_table;
    same_fd = b.same_fd ∙ a.same_fd;
    same_disk = b.same_disk ∙ a.same_disk;
    same_hdr =
        b.same_hdr
        ∙ ap (λ (h : RmFileHdr). record h { first_free_page_no = v.file_hdr.first_free_page_no })
            a.same_hdr;
    same_id = λ q. b.same_id q ∙ a.same_id q;
    here = b.here ∙ ap k a.here;
    elsewhere = λ q n. b.elsewhere q n ∙ a.elsewhere q n;
  }

  pub write_bytes-Touches :
      (f : ℕ) (w : RmFile S → Block → Block) (t : RmFile S)
      → Touches f (w t) t (write_bytes f w t).1
  write_bytes-Touches f w t = record {
    same_table = refl;
    same_fd = refl;
    same_disk = refl;
    same_hdr = refl;
    same_id =
        λ q. same-id t.pool.pages (record (t.pool.pages f) { content = w t (bytes t f) }) f q refl;
    here = ap (λ (p : Page). p.content) (if-eq f _ _);
    elsewhere = λ q n. ap (λ (p : Page). p.content) (if-ne f q _ _ n);
  }

  pub set_first_free-Touches :
      (f : ℕ) (n : ℤ) (t : RmFile S) → Touches f (λ b. b) t (set_first_free n t).1
  set_first_free-Touches f n t = record {
    same_table = refl;
    same_fd = refl;
    same_disk = refl;
    same_hdr = refl;
    same_id = λ q. refl;
    here = refl;
    elsewhere = λ q n. refl;
  }

  module _ (t u : RmFile S) (f : ℕ) (g : Block → Block) (c : Touches f g t u) where
    same_page : {m n : ℕ} → page_of t m ≡ page_of t n → m ≡ n
    same_page e = ap (λ (p : PageId). number p.page_no) e

    frame-Touches : (m : ℕ) → frame u m ≡ frame t m
    frame-Touches m =
        ap₂ (λ d s. lookup PageId-discrete (record { fd = d; page_no = pos m }) s) c.same_fd
          c.same_table

    pub Touches-IsResident : IsResident t → IsResident u
    Touches-IsResident w = record {
      path = w.path;
      named =
          ap₂ (λ d (k : DiskManager). lookup ℤ-discrete d k.fd2path) c.same_fd c.same_disk
          ∙ w.named;
      markable = subst (λ (h : RmFileHdr). IsMarkable h) (sym c.same_hdr) w.markable;
      resident = λ m l h.
          let (q, e) =
            w.resident m l
              (subst (λ n. m < n) (ap (λ (h : RmFileHdr). h.num_pages) c.same_hdr) h) in
          (q, frame-Touches m ∙ e);
      own = λ p q e.
          c.same_id q ∙ w.own p q (ap (λ s. lookup PageId-discrete p s) (sym c.same_table) ∙ e);
    }

    pub slot-Touches : (b : Block) (k : ℕ) → slot u.file_hdr b k ≡ slot t.file_hdr b k
    slot-Touches b k =
        ap (λ (h : RmFileHdr). slot h b k) c.same_hdr
        ∙ slot-hdr t.file_hdr u.file_hdr.first_free_page_no b k

    -- The page in the frame is changed, and no other page of the file.
    pub record_at-here :
        (n k : ℕ) → frame t n ≡ some f → record_at u n k ≡ slot t.file_hdr (g (bytes t f)) k
    unfolding record_in
    record_at-here n k e =
        ap (λ o. record_in u o k) (frame-Touches n ∙ e)
        ∙ slot-Touches (bytes u f) k
        ∙ ap (λ b. slot t.file_hdr b k) c.here

    pub record_at-elsewhere :
        (n m k : ℕ) → IsResident t → frame t n ≡ some f → m ≢ n → record_at u m k ≡ record_at t m k
    unfolding record_in
    record_at-elsewhere n m k w e d = elim (Option-cases (frame t m)) [
      | inl h ↦ ap (λ o. record_in u o k) (frame-Touches m ∙ h) ∙ sym (ap (λ o. record_in t o k) h)
      | inr (q, h) ↦
          ap (λ o. record_in u o k) (frame-Touches m ∙ h)
          ∙ slot-Touches (bytes u q) k
          ∙ ap (λ b. slot t.file_hdr b k)
              (c.elsewhere q (λ x. d (
                same_page (sym (w.own (page_of t m) q h) ∙ w.own (page_of t n) q (e ∙ ap some x)))))
          ∙ sym (ap (λ o. record_in t o k) h)
    ]

module _ (R : Replacer) where
  open R use {S}

  pub pinned-Touches : (f : ℕ) (t : RmFile S) → Touches f (λ b. b) t (pinned R f t)
  unfolding fetch_hit
  pinned-Touches f t = record {
    same_table = refl;
    same_fd = refl;
    same_disk = refl;
    same_hdr = refl;
    same_id = λ q.
        same-id t.pool.pages
          (record (t.pool.pages f) { pin_count = suc (t.pool.pages f).pin_count }) f q refl;
    here = ap (λ (p : Page). p.content) (if-eq f _ _);
    elsewhere = λ q n. ap (λ (p : Page). p.content) (if-ne f q _ _ n);
  }
