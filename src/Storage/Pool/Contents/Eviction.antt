-- ===== src/Storage/Pool/Contents/Eviction.antt =====
-- Choosing a victim and writing it back lose no byte of any page.
use uni_base.Base.{
  ℕ, ◌<◌, ◌≡◌, ◌≢◌, ◌⊎◌, refl, sym, ap, subst, ◌∙◌, inl, inr, List, [], ◌∷◌, Option, none, some,
  true, false, arith, lookup, erase, lookup-erase, mem, ite, if◌then◌else◌, Bool-cases,
  Option-cases,
}
use uni_base.Errors.{Result, ok}
use uni_base.Replacer.{Replacer}
use uni_base.Storage.Page.{Page, PageId, PageId-discrete, page_size}
use uni_base.Storage.Disk.{DiskManager}
use uni_base.Storage.Disk
use uni_base.Storage.Disk.Stored.{IsPageNo, stored, stored-write}
use uni_base.Storage.Pool.{
  Pool, take_victim, take_free, find_victim_page, write_back, write_frame, clear_dirty,
}
use uni_base.Storage.Pool.Evictable.{victim-some}
use uni_base.Storage.Pool.Invariant.{IsConsistent, frame_of}
use uni_base.Storage.Pool.Contents.{content, IsClean, IsSettled}

-- How the pool `t`, in which the frame `f` was taken, differs from `s`.
pub record IsSpare {S : Type 0} (f : ℕ) (s t : Pool S) : Type 0 where
  pub same_pages : t.pages ≡ s.pages
  pub same_disk : t.disk ≡ s.disk
  pub fewer : (q : PageId) (g : ℕ) → frame_of t q ≡ some g → frame_of s q ≡ some g
  pub absent : (q : PageId) → frame_of s q ≡ none → frame_of t q ≡ none
  pub kept :
      (q : PageId) (g : ℕ)
      → frame_of s q ≡ some g
      → (frame_of t q ≡ some g) ⊎ ((frame_of t q ≡ none) × (g ≡ f) × ((s.pages f).id ≡ q))
  pub unmapped : (s.pages f).is_dirty ≡ true → frame_of t (s.pages f).id ≡ none
  pub numbered : (s.pages f).is_dirty ≡ true → IsPageNo (s.pages f).id.page_no

module _ (R : Replacer) where
  open R use {S, victim}

  abbrev pub FoundSpare : Pool S → Option ℕ → Pool S → Type 0
  FoundSpare s none t = (t.pages ≡ s.pages) × (t.disk ≡ s.disk) × (t.page_table ≡ s.page_table)
  FoundSpare s (some f) t = IsSpare f s t

  take_free-IsSpare :
      (s : Pool S) (l : List ℕ)
      → s.free_list ≡ l
      → IsConsistent R s
      → IsSettled R s
      → FoundSpare s (take_free R s l).0 (take_free R s l).1
  unfolding take_free take_victim
  take_free-IsSpare s (f ∷ rest) e v c = record {
    same_pages = refl;
    same_disk = refl;
    fewer = λ q g m. m;
    absent = λ q m. m;
    kept = λ q g m. inl m;
    unmapped = λ d. absurd (not_dirty d);
    numbered = λ d. absurd (not_dirty d);
  }
    where
      not_dirty : (s.pages f).is_dirty ≢ true
      not_dirty d = v.free_unmapped (s.pages f).id f (rw e (ground arith)) (c.dirty_mapped f d)
  take_free-IsSpare s [] e v c = go (victim s.replacer).0 refl
    where
      go :
          (o : Option ℕ)
          → (victim s.replacer).0 ≡ o
          → FoundSpare s
              (take_victim R s (o, (victim s.replacer).1)).0
              (take_victim R s (o, (victim s.replacer).1)).1
      go none h = (refl, refl, refl)
      go (some f) h = record {
        same_pages = refl;
        same_disk = refl;
        fewer = λ q g m. ground (arith, table q);
        absent = λ q m. ground (arith, table q);
        kept = λ q g m. ground (arith, table q, mapped);
        unmapped = λ d. ground (arith, table (s.pages f).id);
        numbered = λ d. c.numbered (s.pages f).id f (c.dirty_mapped f d);
      }
        where
          table :
              (q : PageId)
              → lookup PageId-discrete q (erase PageId-discrete (s.pages f).id s.page_table)
                ≡ ite (PageId-discrete (s.pages f).id q) none (frame_of s q)
          table q = lookup-erase PageId-discrete (s.pages f).id q s.page_table

          mapped : frame_of s (s.pages f).id ≡ some f
          mapped = elim (c.evictable_mapped f (victim-some R s.replacer f v.replacer_valid h f).0) [
            | inl m ↦ absurd (cc (ap (mem f) e))
            | inr m ↦ m
          ]

  pub find_victim_page-IsSpare :
      (s : Pool S)
      → IsConsistent R s
      → IsSettled R s
      → FoundSpare s (find_victim_page R s).0 (find_victim_page R s).1
  unfolding find_victim_page
  find_victim_page-IsSpare s v c = take_free-IsSpare s s.free_list refl v c

-- The content of a page while its frame is being given away.
abbrev pub spare_content : {S : Type 0} → ℕ → Pool S → PageId → Option ℕ → ℕ → ℕ
spare_content f t q (some g) i = (t.pages g).content i
spare_content f t q none i =
    if (t.pages f).is_dirty
    then ite (PageId-discrete (t.pages f).id q) ((t.pages f).content i) (stored t.disk q i)
    else stored t.disk q i

module _ (R : Replacer) where
  open R use {S}

  pub spare-content :
      (f : ℕ) (s t : Pool S) (q : PageId) (i : ℕ)
      → IsSpare f s t
      → IsSettled R s
      → IsClean q s
      → i < page_size
      → spare_content f t q (frame_of t q) i ≡ content s q i
  spare-content f s t q i sp c clean h = elim (Option-cases (frame_of s q)) [
    | inl e ↦ rw (sp.absent q e, e, sp.same_pages, sp.same_disk) (ground (arith, c.dirty_mapped f))
    | inr (g, e) ↦ elim (sp.kept q g e) [
      | inl k ↦ rw (k, e, sp.same_pages) refl
      | inr (k, gf, id) ↦
          rw (k, e, sp.same_pages, sp.same_disk)
            (ground (arith, λ (d : (s.pages g).is_dirty ≡ false). clean g e d i h))
    ]
  ]

-- The pool after a successful `write_back` of a frame.
pub record IsWritten {S : Type 0} (f : ℕ) (t w : Pool S) : Type 0 where
  pub same_table : w.page_table ≡ t.page_table
  pub same_content : (g i : ℕ) → (w.pages g).content i ≡ (t.pages g).content i
  pub same_id : (g : ℕ) → (w.pages g).id ≡ (t.pages g).id
  pub same_dirty : (g : ℕ) → f ≢ g → (w.pages g).is_dirty ≡ (t.pages g).is_dirty
  pub not_dirty : (w.pages f).is_dirty ≡ false
  pub same_free : w.free_list ≡ t.free_list
  pub same_replacer : w.replacer ≡ t.replacer
  pub on_disk :
      (q : PageId) (i : ℕ)
      → IsPageNo q.page_no
      → i < page_size
      → stored w.disk q i ≡ (
          if (t.pages f).is_dirty
          then ite (PageId-discrete (t.pages f).id q) ((t.pages f).content i) (stored t.disk q i)
          else stored t.disk q i)

module _ {S : Type 0} (f : ℕ) (t : Pool S) where
  abbrev written : Result (Unit {0}) × DiskManager
  written =
      Disk.write_page t.disk (t.pages f).id.fd (t.pages f).id.page_no (t.pages f).content page_size

  write_back-written : (t.pages f).is_dirty ≡ true → (write_back f t).0 ≡ ok tt → written.0 ≡ ok tt
  unfolding write_back write_frame
  write_back-written d e = ground arith

  write_back-dirty :
      (t.pages f).is_dirty ≡ true
      → written.0 ≡ ok tt
      → write_back f t ≡ clear_dirty f (record t { disk = written.1 })
  unfolding write_back write_frame
  write_back-dirty d e = rw (d, write_back) (ground (arith, e))

  pub write_back-clean : (t.pages f).is_dirty ≡ false → write_back f t ≡ (ok tt, t)
  unfolding write_back
  write_back-clean d = rw (d, write_back) refl

  dirty-IsWritten :
      (t.pages f).is_dirty ≡ true
      → IsPageNo (t.pages f).id.page_no
      → written.0 ≡ ok tt
      → IsWritten f t (clear_dirty f (record t { disk = written.1 })).1
  dirty-IsWritten d n e = record {
    same_table = refl;
    same_content = λ g i. ground arith;
    same_id = λ g. ground arith;
    same_dirty = λ g ne. ground arith;
    not_dirty = ground arith;
    same_free = refl;
    same_replacer = refl;
    on_disk =
        λ q i hq hi. rw d (stored-write t.disk (t.pages f).id q (t.pages f).content i n hq hi e);
  }

  clean-IsWritten : (t.pages f).is_dirty ≡ false → IsWritten f t t
  clean-IsWritten d = record {
    same_table = refl;
    same_content = λ g i. refl;
    same_id = λ g. refl;
    same_dirty = λ g ne. refl;
    not_dirty = d;
    same_free = refl;
    same_replacer = refl;
    on_disk = λ q i hq hi. rw d refl;
  }

  -- A write-back that does not throw puts a dirty frame on disk, and changes no other page there.
  pub write_back-IsWritten :
      ((t.pages f).is_dirty ≡ true → IsPageNo (t.pages f).id.page_no)
      → (write_back f t).0 ≡ ok tt
      → IsWritten f t (write_back f t).1
  write_back-IsWritten n e = elim (Bool-cases (t.pages f).is_dirty) [
    | inl d ↦
        let w = write_back-written d e in
        subst (λ (r : Result (Unit {0}) × Pool S). IsWritten f t r.1) (sym (write_back-dirty d w))
          (dirty-IsWritten d (n d) w)
    | inr d ↦
        subst (λ (r : Result (Unit {0}) × Pool S). IsWritten f t r.1) (sym (write_back-clean d))
          (clean-IsWritten d)
  ]

pub written-content :
    {S : Type 0} (f : ℕ) (t w : Pool S) (q : PageId) (i : ℕ)
    → IsWritten f t w
    → IsPageNo q.page_no
    → i < page_size
    → content w q i ≡ spare_content f t q (frame_of t q) i
written-content f t w q i k hq hi = elim (Option-cases (frame_of t q)) [
  | inl e ↦ rw (ap (lookup PageId-discrete q) k.same_table, e) (k.on_disk q i hq hi)
  | inr (g, e) ↦ rw (ap (lookup PageId-discrete q) k.same_table, e) (k.same_content g i)
]

-- A page that agreed with the disk still does when another frame has been written back.
pub written-IsClean :
    {S : Type 0} (f : ℕ) (s t w : Pool S) (q : PageId)
    → IsSpare f s t
    → IsWritten f t w
    → IsPageNo q.page_no
    → frame_of t q ≢ some f
    → IsClean q s
    → IsClean q w
written-IsClean f s t w q sp k hq other clean g m d i hi =
    let at : frame_of t q ≡ some g = sym (ap (lookup PageId-discrete q) k.same_table) ∙ m in
    let ne : f ≢ g = λ e. other (at ∙ ap some (sym e)) in
    let same : (w.pages g).is_dirty ≡ (s.pages g).is_dirty =
      k.same_dirty g ne ∙ ap (λ (h : ℕ → Page). (h g).is_dirty) sp.same_pages in
    let old : (s.pages g).content i ≡ stored s.disk q i =
      clean g (sp.fewer q g at) (sym same ∙ d) i hi in
    let bytes : (w.pages g).content i ≡ (s.pages g).content i =
      k.same_content g i ∙ ap (λ (h : ℕ → Page). (h g).content i) sp.same_pages in
    let disk : stored t.disk q i ≡ stored s.disk q i = ap (λ d. stored d q i) sp.same_disk in
    ground (
      arith,
      k.on_disk q i hq hi,
      sp.unmapped,
      ap (λ (h : ℕ → Page). (h f).is_dirty) sp.same_pages,
      ap (λ (h : ℕ → Page). (h f).id) sp.same_pages,
    )
