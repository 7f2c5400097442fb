-- ===== src/Execution/Inserts.antt =====
-- src/execution/executor_insert.h over the record manager: an `insert` statement on a file of records.
use uni_base.Base.{ℕ, suc, ◌≤◌, ◌<◌, List, [], none, some, ◌≡◌, ap, subst, pos}
use uni_base.Errors.{Str, Result, ok, throw}
use uni_base.Outcome.{◌>>=◌, ok-inj}
use uni_base.Bytes.{slice}
use uni_base.Storage.Page.{Block}
use uni_base.Replacer.{Replacer}
use uni_base.Record.{RmFile, Rid}
use uni_base.Record.Insert.{insert_record}
use uni_base.Record.Resident.{IsResident, record_at}
use uni_base.Record.Slots.{IsWithin}
use uni_base.Record.Rewrites.{IsUpdate}
use uni_base.Record.Methods.{rid_of}
use uni_base.Record.Inserting.{insert_record-IsUpdate}
use uni_base.System.Created.{IsTiled}
use uni_base.Execution.{InsertExecutor, fill, index_keys, insert_next}
use uni_base.Execution.Rows.{row, fill-row_bytes}

-- A slot that was free holds the bytes, and every other slot of the file what it held.
abbrev pub IsStored : {S : Type 0} → RmFile S → ℕ → List ℕ → Result Rid × RmFile S → Type 0
IsStored t n b (r, u) =
    (k : ℕ) × (r ≡ ok (rid_of n k))
    × (record_at t n k ≡ none)
    × (k < t.file_hdr.num_records_per_page)
    × IsUpdate t u n k (some b)

-- What `Next` does with a row, or with the error in place of one.
abbrev pub IsNext : {S : Type 0} → RmFile S → ℕ → Result (List ℕ) → Result Rid × RmFile S → Type 0
IsNext t n (ok b) out = IsStored t n b out
IsNext t n (throw e) out = out ≡ (throw e, t)

module _ (R : Replacer) {K : Type 0} where
  open R use {S}

  -- The insertion of a row into a table without indexes, whose columns follow one another from offset 0 to
  -- the size of a record of its file: the file is open, its pages of records are all in the pool, their slots end
  -- within the page, and the
  -- page at the head of its free pages is one of them and has a slot without a record. `Next` then stores
  -- the bytes of the values, one after the other, in a slot of that page that was free, and leaves every
  -- other slot alone; or, when a value does not fit its column, it throws the error of the first one that
  -- does not and leaves the whole file as it was. One round of the loop of insert_record is enough.
  pub insert_next-IsNext :
      (t : RmFile S) (n j rounds : ℕ) (rec : Block) (ihs : List (Str × K))
      (x : InsertExecutor (RmFile S))
      → IsResident t
      → t.file_hdr.first_free_page_no ≡ pos n
      → 1 ≤ n
      → n < t.file_hdr.num_pages
      → IsWithin t.file_hdr
      → j < t.file_hdr.num_records_per_page
      → record_at t n j ≡ none
      → IsTiled 0 x.tab.cols t.file_hdr.record_size
      → x.tab.indexes ≡ []
      → IsNext t n (row x.tab.cols x.values) (insert_next R (suc rounds) rec ihs x t)
  unfolding insert_next index_keys
  insert_next-IsNext t n j rounds rec ihs x w p l h y b d i none_left = rw (none_left) (
      go (fill rec x.tab.cols x.values) (row x.tab.cols x.values)
        (fill-row_bytes rec t.file_hdr.record_size x.tab.cols x.values i))
    where
      kept : Block → Result Rid × RmFile S → Result Rid × RmFile S
      kept buf s = elim s.0 [
        | throw e ↦ (throw e, s.1)
        | ok rid ↦ elim (index_keys ihs x.tab_name buf []) [
          | throw e ↦ (throw e, s.1)
          | ok keys ↦ (ok rid, s.1)
        ]
      ]

      stored :
          (buf : Block) (s : Result Rid × RmFile S) (bytes : List ℕ)
          → IsStored t n bytes s
          → IsStored t n bytes (kept buf s)
      stored buf (ok rid, u) bytes z = z
      stored buf (throw e, u) bytes z = z

      go :
          (f : Result Block) (r : Result (List ℕ))
          → (f >>= λ m. ok (slice m 0 t.file_hdr.record_size)) ≡ r
          → IsNext t n r (elim f [
            | throw e ↦ (throw e, t)
            | ok buf ↦ kept buf (insert_record R (suc rounds) buf t)
          ])
      go (ok buf) (ok bytes) e = stored buf (insert_record R (suc rounds) buf t) bytes (
          subst (λ m. IsStored t n m (insert_record R (suc rounds) buf t)) (ok-inj e)
            (insert_record-IsUpdate R t n j rounds buf w p l h y b d))
      go (ok buf) (throw y) e = absurd (cc (e))
      go (throw z) (ok bytes) e = absurd (cc (e))
      go (throw z) (throw y) e =
          ap (λ r. (elim r as (λ _. Result Rid) [ ok _ ↦ throw z | throw q ↦ throw q ], t)) e
