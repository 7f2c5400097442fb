-- ===== src/Storage/Pool/Contents/Preserved.antt =====
-- `fetch_page` loses no byte of any page, and returns the page that was asked for.
use uni_base.Base.{
  ℕ, ◌<◌, ◌≡◌, ◌≢◌, refl, sym, ap, subst, ◌∙◌, inl, inr, Option, none, some, false, arith, lookup,
  Option-cases, pos,
}
use uni_base.Errors.{Result, ok}
use uni_base.Replacer.{Replacer}
use uni_base.Storage.Page.{Page, PageId, PageId-discrete, page_size}
use uni_base.Storage.Disk.Stored.{IsPageNo, stored}
use uni_base.Storage.Pool.{Pool, find_victim_page, write_back, load, fetch_hit, fetch_page}
use uni_base.Storage.Pool.Invariant.{IsConsistent, IsTaken, frame_of}
use uni_base.Storage.Pool.Invariant.Methods.{Found, find_victim_page-Found}
use uni_base.Storage.Pool.Contents.{content, content_at, IsClean, IsSettled}
use uni_base.Storage.Pool.Contents.Eviction.{
  IsSpare, FoundSpare, IsWritten, find_victim_page-IsSpare, spare-content, written-content,
  written-IsClean,
}
use uni_base.Storage.Pool.Contents.Fetch.{IsLoaded, load-IsLoaded, loaded-content, loaded-IsClean}

different : ¬ (
    ◌≡◌ {A = PageId}
      (record { fd = pos 0; page_no = pos 0 })
      (record { fd = pos 1; page_no = pos 0 }))
different e = cc (ap (λ (q : PageId). q.fd) e)

module _ (R : Replacer) where
  open R use {S}

  -- A page is seen in `u` as in `s`, and agrees with the disk if its frame is not marked dirty.
  abbrev pub Preserves : PageId → Pool S → Pool S → Type 0
  Preserves q s u = ((i : ℕ) → i < page_size → content u q i ≡ content s q i) × IsClean q u

  -- What `fetch_page` returns: nothing, or a pinned frame with the bytes of the page.
  abbrev pub Returns : PageId → Pool S → Option ℕ → Pool S → Type 0
  Returns p s none u = frame_of s p ≡ none
  Returns p s (some f) u =
      (frame_of u p ≡ some f)
      × (0 < (u.pages f).pin_count)
      × ((i : ℕ) → i < page_size → (u.pages f).content i ≡ content s p i)

  -- A pool with the same frames, page table and disk shows the same pages.
  unchanged-Preserves :
      (s t : Pool S) (q : PageId)
      → (t.pages ≡ s.pages) × (t.disk ≡ s.disk) × (t.page_table ≡ s.page_table)
      → IsClean q s
      → Preserves q s t
  unchanged-Preserves s t q sp k = (
    λ i hi. elim (Option-cases (frame_of s q)) [
      | inl e ↦
          ap (λ o. content_at t q o i) (table ∙ e)
          ∙ ap (λ d. stored d q i) sp.1
          ∙ sym (ap (λ o. content_at s q o i) e)
      | inr (g, e) ↦
          ap (λ o. content_at t q o i) (table ∙ e)
          ∙ ap (λ (h : ℕ → Page). (h g).content i) sp.0
          ∙ sym (ap (λ o. content_at s q o i) e)
    ],
    λ g m d i hi.
        ap (λ (h : ℕ → Page). (h g).content i) sp.0
        ∙ k g (sym table ∙ m) (sym (ap (λ (h : ℕ → Page). (h g).is_dirty) sp.0) ∙ d) i hi
        ∙ sym (ap (λ d. stored d q i) sp.1),
  )
    where
      table : frame_of t q ≡ frame_of s q
      table = ap (lookup PageId-discrete q) sp.2

  module _ (p : PageId) (s : Pool S) (v : IsConsistent R s) (c : IsSettled R s)
      (hp : IsPageNo p.page_no) where
    hit-content : (f : ℕ) (q : PageId) (i : ℕ) → content (fetch_hit R f s).1 q i ≡ content s q i
    unfolding fetch_hit
    hit-content f q i = elim (Option-cases (frame_of s q)) [
      | inl e ↦ rw e refl
      | inr (g, e) ↦ rw e (ground arith)
    ]

    hit-IsClean : (f : ℕ) (q : PageId) → IsClean q s → IsClean q (fetch_hit R f s).1
    unfolding fetch_hit
    hit-IsClean f q k g m d i hi =
        ground (arith, λ (x : (s.pages g).is_dirty ≡ false). k g m x i hi)

    hit-Returns : (f : ℕ) → frame_of s p ≡ some f → Returns p s (some f) (fetch_hit R f s).1
    unfolding fetch_hit
    hit-Returns f m = (m, ground arith, λ i hi. ground arith)

    -- The frame that was found, and what is in it when the page has been read.
    miss :
        (f : ℕ) (t : Pool S) {o : Option ℕ}
        → frame_of s p ≡ none
        → ((r : PageId) → IsTaken R f r t)
        → IsSpare f s t
        → (load R f p t).0 ≡ ok o
        → ((q : PageId) → IsPageNo q.page_no → IsClean q s → Preserves q s (load R f p t).1)
          × ((load R f p t).0 ≡ ok (some f))
          × Returns p s (some f) (load R f p t).1
    miss f t m taken sp e = (preserved, l.0, returned)
      where
        w : Pool S
        w = (write_back f t).1

        u : Pool S
        u = (load R f p t).1

        l : ((load R f p t).0 ≡ ok (some f)) × IsWritten f t w × IsLoaded R f p w u
        l = load-IsLoaded R f p s t sp e

        not_taken : (q : PageId) → frame_of t q ≢ some f
        not_taken q k = absurd (
            different (
              sym ((taken (record { fd = pos 0; page_no = pos 0 })).only q k)
              ∙ (taken (record { fd = pos 1; page_no = pos 0 })).only q k))

        in_w : (q : PageId) → frame_of w q ≡ frame_of t q
        in_w q = ap (lookup PageId-discrete q) l.1.same_table

        absent : frame_of w p ≡ none
        absent = in_w p ∙ sp.absent p m

        preserved : (q : PageId) → IsPageNo q.page_no → IsClean q s → Preserves q s u
        preserved q hq k = (
          λ i hi.
              loaded-content R f p w u q i l.2 absent (λ x. not_taken q (sym (in_w q) ∙ x)) hp hi
              ∙ written-content f t w q i l.1 hq hi
              ∙ spare-content R f s t q i sp c k hi,
          loaded-IsClean R f p w u q l.2 (λ x. not_taken q (sym (in_w q) ∙ x)) hp
              (written-IsClean f s t w q sp l.1 hq (not_taken q) k),
        )

        returned : Returns p s (some f) u
        returned = (
          l.2.here,
          omega (arith, l.2.pinned),
          λ i hi.
              sym (ap (λ o. content_at u p o i) l.2.here)
              ∙ (preserved p hp (λ g k. absurd (cc (sym m ∙ k)))).0 i hi,
        )

    abbrev Good : Result (Option ℕ) × Pool S → Type 0
    Good r =
        (o : Option ℕ)
        → r.0 ≡ ok o
        → Returns p s o r.1 × ((q : PageId) → IsPageNo q.page_no → IsClean q s → Preserves q s r.1)

    hit-Good : (f : ℕ) → frame_of s p ≡ some f → Good (fetch_hit R f s)
    unfolding fetch_hit
    hit-Good f m o e = (
      subst (λ x. Returns p s x (fetch_hit R f s).1) {x = some f} {y = o} (cc e) (hit-Returns f m),
      λ q hq k. (λ i hi. hit-content f q i, hit-IsClean f q k),
    )

    miss-Good :
        (found : Option ℕ) (t : Pool S)
        → frame_of s p ≡ none
        → Found R found t
        → FoundSpare R s found t
        → Good (
            let r : Result (Option ℕ) × Pool S = elim found [
              | none ↦ (ok none, t)
              | some f ↦ load R f p t
            ] in
            r)
    miss-Good none t m taken sp o e = (
      subst (λ x. Returns p s x t) {x = none} {y = o} (cc e) m,
      λ q hq k. unchanged-Preserves s t q sp k,
    )
    miss-Good (some f) t m taken sp o e =
        let r = miss f t m taken sp e in
        (subst (λ x. Returns p s x (load R f p t).1) {x = some f} {y = o} (cc (r.1, e)) r.2, r.0)

    fetch_page-Good : Good (fetch_page R p s)
    unfolding fetch_page
    fetch_page-Good = go (frame_of s p) refl
      where
        go : (x : Option ℕ) → frame_of s p ≡ x → Good (fetch_page R p s)
        go (some f) m = rw (m, fetch_page) (hit-Good f m)
        go none m =
            rw (m, fetch_page)
              (miss-Good (find_victim_page R s).0 (find_victim_page R s).1 m
                (find_victim_page-Found R s v) (find_victim_page-IsSpare R s v c))

    -- On a consistent pool without stale frames, a `fetch_page` of a page below 2 GiB that does not
    -- throw returns a frame that is mapped to the page, pinned, and holds the bytes that the page had; or `nullptr`, and
    -- then the page was not in the pool.
    pub fetch_page-Returns :
        (o : Option ℕ) → (fetch_page R p s).0 ≡ ok o → Returns p s o (fetch_page R p s).1
    fetch_page-Returns o e = (fetch_page-Good o e).0

    -- On a consistent pool without stale frames, a `fetch_page` of a page below 2 GiB that does not
    -- throw, whatever it evicts, leaves every page below 2 GiB that agreed with the disk, unless it
    -- was marked dirty, with the bytes that it had, and still in agreement.
    pub fetch_page-Preserves :
        (o : Option ℕ) (q : PageId)
        → (fetch_page R p s).0 ≡ ok o
        → IsPageNo q.page_no
        → IsClean q s
        → Preserves q s (fetch_page R p s).1
    fetch_page-Preserves o q e hq k = (fetch_page-Good o e).1 q hq k
