-- ===== src/Replacer/Lru/Laws.antt =====
-- The LRU replacer refines the queue of evictable frames, and fills the interface of `Replacer`.
use uni_base.Base.{
  ℕ, suc, ◌≡◌, refl, sym, ap, subst, ◌∙◌, inl, inr, List, [], ◌∷◌, ◌++◌, none, some, arith,
  ℕ_discrete, lookup, lookup-erase, lookup-insert, if◌then◌else◌, mem, remove, length, Option-cases,
}
use uni_base.Replacer.{Replacer}
use uni_base.Replacer.Lru.{LruReplacer, init, victim, victim_front, pin, unpin, size}
use uni_base.Replacer.Lru.Nodes.{
  node_of, frames, IsChain, mem-frames, node_of-erase_node, frames-erase_node, erase_node-IsChain,
  node_of-append_one, frames-append_one, append_one-IsChain, frames-IsNodup,
}

abbrev pub evictable : LruReplacer → List ℕ
evictable s = frames s.lru_list

-- Each frame in the hash points at its one node in the list, and the other way round.
pub record IsValid (s : LruReplacer) : Type 0 where
  pub hashed : (f : ℕ) → lookup ℕ_discrete f s.lru_hash ≡ node_of f s.lru_list
  pub chain : IsChain s.next_node s.lru_list

pub init-IsValid : (n : ℕ) → IsValid (init n)
unfolding init lookup
init-IsValid n = record { hashed = λ f. refl; chain = tt }

victim_front-IsValid :
    (s : LruReplacer) (l : List (ℕ × ℕ)) → s.lru_list ≡ l → IsValid s → IsValid (victim_front s l).1
unfolding victim_front
victim_front-IsValid s [] e v = v
victim_front-IsValid s ((n, f) ∷ rest) e v =
    let c : IsChain s.next_node ((n, f) ∷ rest) = subst_chain in
    record {
      hashed = λ g.
          ground (arith, lookup-erase ℕ_discrete f g s.lru_hash, v.hashed g, ap (node_of g) e, c.1);
      chain = c.3;
    }
  where
    subst_chain : IsChain s.next_node ((n, f) ∷ rest)
    subst_chain = subst (λ l. IsChain s.next_node l) e v.chain

pub victim-IsValid : (s : LruReplacer) → IsValid s → IsValid (victim s).1
unfolding victim
victim-IsValid s v = victim_front-IsValid s s.lru_list refl v

pub pin-IsValid : (s : LruReplacer) (f : ℕ) → IsValid s → IsValid (pin s f)
unfolding pin
pin-IsValid s f v = elim (Option-cases (lookup ℕ_discrete f s.lru_hash)) [
  | inl e ↦ rw (e, pin) v
  | inr (n, e) ↦
      let at : node_of f s.lru_list ≡ some n = sym (v.hashed f) ∙ e in
      rw (e, pin)
        (record {
          hashed = λ g. ground (
            arith,
            lookup-erase ℕ_discrete f g s.lru_hash,
            v.hashed g,
            node_of-erase_node s.next_node n f g s.lru_list v.chain at,
          );
          chain = erase_node-IsChain s.next_node n s.lru_list v.chain;
        })
]

pub unpin-IsValid : (s : LruReplacer) (f : ℕ) → IsValid s → IsValid (unpin s f)
unfolding unpin
unpin-IsValid s f v = elim (Option-cases (lookup ℕ_discrete f s.lru_hash)) [
  | inl e ↦
      let at : node_of f s.lru_list ≡ none = sym (v.hashed f) ∙ e in
      rw (e, unpin)
        (record {
          hashed = λ g. ground (
            arith,
            lookup-insert ℕ_discrete f g s.next_node s.lru_hash,
            v.hashed g,
            node_of-append_one f s.next_node g s.lru_list at,
          );
          chain = append_one-IsChain s.next_node f s.lru_list v.chain at;
        })
  | inr (n, e) ↦ rw (e, unpin) v
]

victim_front-empty :
    (s : LruReplacer) (l : List (ℕ × ℕ)) → frames l ≡ [] → victim_front s l ≡ (none, s)
unfolding victim_front
victim_front-empty s [] e = refl
victim_front-empty s ((n, g) ∷ l) e = absurd (ground arith)

victim_front-oldest :
    (s : LruReplacer) (l : List (ℕ × ℕ)) (f : ℕ) (fs : List ℕ)
    → frames l ≡ f ∷ fs
    → ((victim_front s l).0 ≡ some f) × (evictable (victim_front s l).1 ≡ fs)
unfolding victim_front
victim_front-oldest s [] f fs e = absurd (ground arith)
victim_front-oldest s ((n, g) ∷ l) f fs e = ground arith

-- Pinning a frame removes it from the queue of evictable frames and keeps the others in order.
pub evictable-pin :
    (s : LruReplacer) (f : ℕ) → IsValid s → evictable (pin s f) ≡ remove f (evictable s)
unfolding pin
evictable-pin s f v = elim (Option-cases (lookup ℕ_discrete f s.lru_hash)) [
  | inl e ↦ rw (e, pin) (remove_missing f s.lru_list (sym (v.hashed f) ∙ e))
  | inr (n, e) ↦
      rw (e, pin) (frames-erase_node s.next_node n f s.lru_list v.chain (sym (v.hashed f) ∙ e))
]
  where
    remove_missing :
        (f : ℕ) (l : List (ℕ × ℕ)) → node_of f l ≡ none → frames l ≡ remove f (frames l)
    remove_missing f [] e = refl
    remove_missing f ((m, g) ∷ l) e = ground (arith, remove_missing f l)

-- Unpinning appends a frame to the end of the queue, unless it already stands there.
pub evictable-unpin :
    (s : LruReplacer) (f : ℕ)
    → IsValid s
    → evictable (unpin s f) ≡ (if mem f (evictable s) then evictable s else evictable s ++ f ∷ [])
unfolding unpin
evictable-unpin s f v = elim (Option-cases (lookup ℕ_discrete f s.lru_hash)) [
  | inl e ↦
      rw (e, unpin)
        (ground
          (arith, mem-frames f s.lru_list, v.hashed f, frames-append_one s.next_node f s.lru_list))
  | inr (n, e) ↦ rw (e, unpin) (ground (arith, mem-frames f s.lru_list, v.hashed f))
]

pub size-evictable : (s : LruReplacer) → size s ≡ length (evictable s)
unfolding size
size-evictable s = go s.lru_list
  where
    go : (l : List (ℕ × ℕ)) → length l ≡ length (frames l)
    go [] = refl
    go ((n, g) ∷ l) = ap suc (go l)

pub victim-empty : (s : LruReplacer) → evictable s ≡ [] → victim s ≡ (none, s)
unfolding victim
victim-empty s e = victim_front-empty s s.lru_list e

pub victim-oldest :
    (s : LruReplacer) (f : ℕ) (fs : List ℕ)
    → IsValid s
    → evictable s ≡ f ∷ fs
    → ((victim s).0 ≡ some f) × (evictable (victim s).1 ≡ fs)
unfolding victim
victim-oldest s f fs v e = victim_front-oldest s s.lru_list f fs e

-- The replacer that the buffer pool is built with.
abbrev pub lru : Replacer
lru = record {
  S = LruReplacer;
  IsValid = IsValid;
  evictable = evictable;
  victim = victim;
  pin = pin;
  unpin = unpin;
  size = size;
  victim-IsValid = victim-IsValid;
  pin-IsValid = pin-IsValid;
  unpin-IsValid = unpin-IsValid;
  evictable-IsNodup = λ s v. frames-IsNodup s.next_node s.lru_list v.chain;
  victim-empty = victim-empty;
  victim-oldest = victim-oldest;
  evictable-pin = evictable-pin;
  evictable-unpin = evictable-unpin;
  size-evictable = size-evictable;
}
