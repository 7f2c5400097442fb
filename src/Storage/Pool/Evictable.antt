-- ===== src/Storage/Pool/Evictable.antt =====
-- Which frames a replacer holds, after each of its operations.
use uni_base.Base.{
  ℕ, ◌≡◌, refl, ap, subst, ◌∙◌, List, [], ◌∷◌, none, some, Bool, true, false, arith, mem,
  mem-remove, mem-append, IsNodup, ◌==◌, if◌then◌else◌,
}
use uni_base.Replacer.{Replacer}

module _ (R : Replacer) where
  open R use {S, IsValid, evictable, victim, pin, unpin}

  -- Whether a frame may be chosen as a victim.
  abbrev pub holds : S → ℕ → Bool
  holds r f = mem f (evictable r)

  pub holds-pin :
      (r : S) (f g : ℕ) → IsValid r → holds (pin r f) g ≡ (if f == g then false else holds r g)
  holds-pin r f g v = ap (mem g) (R.evictable-pin r f v) ∙ mem-remove f g (evictable r)

  pub holds-unpin :
      (r : S) (f g : ℕ) → IsValid r → holds (unpin r f) g ≡ (if f == g then true else holds r g)
  holds-unpin r f g v =
      ap (mem g) (R.evictable-unpin r f v) ∙ ground (arith, mem-append g (evictable r) (f ∷ []))

  victim-some_at :
      (r : S) (f : ℕ) (l : List ℕ)
      → evictable r ≡ l
      → IsValid r
      → (victim r).0 ≡ some f
      → (g : ℕ) → (mem f l ≡ true) × (holds (victim r).1 g ≡ (if f == g then false else mem g l))
  victim-some_at r f [] e v h g = absurd (cc (ap (λ p. p.0) (R.victim-empty r e)))
  victim-some_at r f (x ∷ q) e v h g =
      let o = R.victim-oldest r x q v e in
      let d = subst IsNodup e (R.evictable-IsNodup r v) in ground (arith, o.0, ap (mem g) o.1, d.0)

  -- A victim was evictable, and is so no longer; the other frames stay.
  pub victim-some :
      (r : S) (f : ℕ)
      → IsValid r
      → (victim r).0 ≡ some f
      → (g : ℕ)
      → (holds r f ≡ true) × (holds (victim r).1 g ≡ (if f == g then false else holds r g))
  victim-some r f v h g = victim-some_at r f (evictable r) refl v h g

  victim-none_at : (r : S) (l : List ℕ) → evictable r ≡ l → IsValid r → (victim r).0 ≡ none → l ≡ []
  victim-none_at r [] e v h = refl
  victim-none_at r (x ∷ q) e v h = absurd (cc (R.victim-oldest r x q v e).0)

  -- Without a victim no frame is evictable, before and after.
  pub victim-none :
      (r : S)
      → IsValid r
      → (victim r).0 ≡ none
      → (g : ℕ) → (holds r g ≡ false) × (holds (victim r).1 g ≡ false)
  victim-none r v h g =
      let e = victim-none_at r (evictable r) refl v h in
      let empty = ap (mem g) e in (empty, ap (λ p. holds p.1 g) (R.victim-empty r e) ∙ empty)
