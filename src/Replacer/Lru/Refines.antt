-- ===== src/Replacer/Lru/Refines.antt =====
-- Whole histories of calls on the LRU replacer, against a queue of frames without a hash.
use uni_base.Base.{
  ℕ, ◌≡◌, refl, ap, ap₂, ◌∙◌, List, [], ◌∷◌, ◌++◌, Option, none, some, arith, if◌then◌else◌, mem,
  remove, length,
}
use uni_base.Replacer.Lru.{LruReplacer, init, victim, pin, unpin, size}
use uni_base.Replacer.Lru.Laws.{
  IsValid, evictable, init-IsValid, victim-IsValid, pin-IsValid, unpin-IsValid, evictable-pin,
  evictable-unpin, victim-empty, victim-oldest, size-evictable,
}

pub data Call : Type 0 where
  victims : Call
  pins unpins : ℕ → Call
  sizes : Call

pub data Reply : Type 0 where
  frame : Option ℕ → Reply
  done : Reply
  count : ℕ → Reply

unfoldable pub step : LruReplacer → Call → Reply × LruReplacer
step s victims = (frame (victim s).0, (victim s).1)
step s (pins f) = (done, pin s f)
step s (unpins f) = (done, unpin s f)
step s sizes = (count (size s), s)

unfoldable pub run : LruReplacer → List Call → List Reply
run s [] = []
run s (c ∷ cs) = (step s c).0 ∷ run (step s c).1 cs

-- The ideal replacer: the evictable frames in the order in which they were unpinned.
unfoldable pub ideal_step : List ℕ → Call → Reply × List ℕ
ideal_step [] victims = (frame none, [])
ideal_step (f ∷ q) victims = (frame (some f), q)
ideal_step q (pins f) = (done, remove f q)
ideal_step q (unpins f) = (done, if mem f q then q else q ++ f ∷ [])
ideal_step q sizes = (count (length q), q)

unfoldable pub ideal_run : List ℕ → List Call → List Reply
ideal_run q [] = []
ideal_run q (c ∷ cs) = (ideal_step q c).0 ∷ ideal_run (ideal_step q c).1 cs

step-IsValid : (s : LruReplacer) (c : Call) → IsValid s → IsValid (step s c).1
unfolding step
step-IsValid s victims v = victim-IsValid s v
step-IsValid s (pins f) v = pin-IsValid s f v
step-IsValid s (unpins f) v = unpin-IsValid s f v
step-IsValid s sizes v = v

abbrev Simulates : LruReplacer → List ℕ → Call → Type 0
Simulates s q c =
    ((step s c).0 ≡ (ideal_step q c).0) × (evictable (step s c).1 ≡ (ideal_step q c).1)

victims-Simulates :
    (s : LruReplacer) (q : List ℕ) → IsValid s → evictable s ≡ q → Simulates s q victims
unfolding step ideal_step
victims-Simulates s [] v e =
    let r = victim-empty s e in (ap (λ p. frame p.0) r, ap (λ p. evictable p.1) r ∙ e)
victims-Simulates s (f ∷ q) v e = let r = victim-oldest s f q v e in (ap frame r.0, r.1)

step-Simulates :
    (s : LruReplacer) (q : List ℕ) (c : Call) → IsValid s → evictable s ≡ q → Simulates s q c
unfolding step ideal_step
step-Simulates s q victims v e = victims-Simulates s q v e
step-Simulates s q (pins f) v e = ground (arith, evictable-pin s f v)
step-Simulates s q (unpins f) v e = ground (arith, evictable-unpin s f v)
step-Simulates s q sizes v e = ground (arith, size-evictable s)

run-from :
    (cs : List Call) (s : LruReplacer) (q : List ℕ)
    → IsValid s
    → evictable s ≡ q
    → run s cs ≡ ideal_run q cs
unfolding run ideal_run
run-from [] s q v e = refl
run-from (c ∷ cs) s q v e =
    let h = step-Simulates s q c v e in
    ap₂ ◌∷◌ h.0 (run-from cs (step s c).1 (ideal_step q c).1 (step-IsValid s c v) h.1)

-- Whatever `victim`, `pin`, `unpin` and `Size` are called in whatever order on a new replacer, each
-- answers as the ideal queue does: the victim is the frame that has been unpinned longest.
pub run-eq-ideal_run : (n : ℕ) (cs : List Call) → run (init n) cs ≡ ideal_run [] cs
unfolding init
run-eq-ideal_run n cs = run-from cs (init n) [] (init-IsValid n) refl
