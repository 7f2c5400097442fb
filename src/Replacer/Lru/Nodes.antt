-- ===== src/Replacer/Lru/Nodes.antt =====
-- The nodes of `LRUlist_`: what the hash must say of them, and what `erase` of a node changes.
use uni_base.Base.{
  ℕ, suc, ◌<◌, ◌≡◌, ◌≢◌, refl, List, [], ◌∷◌, ◌++◌, Option, none, some, true, false, arith, ◌==◌,
  if◌then◌else◌, mem, remove, IsNodup,
}
use uni_base.Replacer.Lru.{erase_node}

abbrev pub node_of : ℕ → List (ℕ × ℕ) → Option ℕ
node_of f [] = none
node_of f ((n, g) ∷ l) = if g == f then some n else node_of f l

abbrev pub frames : List (ℕ × ℕ) → List ℕ
frames [] = []
frames ((n, g) ∷ l) = g ∷ frames l

abbrev pub IsFresh : ℕ → List (ℕ × ℕ) → Type 0
IsFresh n [] = Unit {0}
IsFresh n ((m, g) ∷ l) = (m ≢ n) × IsFresh n l

-- Identities are below the next one, and no node or frame stands twice.
abbrev pub IsChain : ℕ → List (ℕ × ℕ) → Type 0
IsChain b [] = Unit {0}
IsChain b ((n, g) ∷ l) = (n < b) × (node_of g l ≡ none) × IsFresh n l × IsChain b l

pub mem-frames :
    (f : ℕ) (l : List (ℕ × ℕ))
    → mem f (frames l) ≡ elim (node_of f l) [ none ↦ false | some _ ↦ true ]
mem-frames f [] = refl
mem-frames f ((n, g) ∷ l) = ground (arith, mem-frames f l)

fresh-node_of : (n f : ℕ) (l : List (ℕ × ℕ)) → IsFresh n l → node_of f l ≢ some n
fresh-node_of n f [] h = λ e. cc
fresh-node_of n f ((m, g) ∷ l) h = ground (arith, fresh-node_of n f l h.1)

pub node_of-erase_node :
    (b n f g : ℕ) (l : List (ℕ × ℕ))
    → IsChain b l
    → node_of f l ≡ some n
    → node_of g (erase_node n l) ≡ (if f == g then none else node_of g l)
unfolding erase_node
node_of-erase_node b n f g [] c e = cc
node_of-erase_node b n f g ((m, h) ∷ l) c e =
    ground (arith, node_of-erase_node b n f g l c.3, fresh-node_of m f l c.2)

remove_absent : (f : ℕ) (l : List (ℕ × ℕ)) → node_of f l ≡ none → remove f (frames l) ≡ frames l
remove_absent f [] e = refl
remove_absent f ((m, g) ∷ l) e = ground (arith, remove_absent f l)

pub frames-erase_node :
    (b n f : ℕ) (l : List (ℕ × ℕ))
    → IsChain b l
    → node_of f l ≡ some n
    → frames (erase_node n l) ≡ remove f (frames l)
unfolding erase_node
frames-erase_node b n f [] c e = cc
frames-erase_node b n f ((m, h) ∷ l) c e =
    ground (arith, frames-erase_node b n f l c.3, fresh-node_of m f l c.2, remove_absent f l)

erase_node-IsFresh : (n k : ℕ) (l : List (ℕ × ℕ)) → IsFresh k l → IsFresh k (erase_node n l)
unfolding erase_node
erase_node-IsFresh n k [] h = tt
erase_node-IsFresh n k ((m, g) ∷ l) h = ground (arith, erase_node-IsFresh n k l h.1)

erase_node-absent :
    (n g : ℕ) (l : List (ℕ × ℕ)) → node_of g l ≡ none → node_of g (erase_node n l) ≡ none
unfolding erase_node
erase_node-absent n g [] h = refl
erase_node-absent n g ((m, k) ∷ l) h = ground (arith, erase_node-absent n g l)

pub erase_node-IsChain : (b n : ℕ) (l : List (ℕ × ℕ)) → IsChain b l → IsChain b (erase_node n l)
unfolding erase_node
erase_node-IsChain b n [] c = tt
erase_node-IsChain b n ((m, g) ∷ l) c =
    ground (
      arith,
      erase_node-IsChain b n l c.3,
      erase_node-IsFresh n m l c.2,
      erase_node-absent n g l c.1,
    )

pub node_of-append_one :
    (f n g : ℕ) (l : List (ℕ × ℕ))
    → node_of f l ≡ none
    → node_of g (l ++ (n, f) ∷ []) ≡ (if f == g then some n else node_of g l)
node_of-append_one f n g [] e = refl
node_of-append_one f n g ((m, h) ∷ l) e = ground (arith, node_of-append_one f n g l)

pub frames-append_one :
    (n f : ℕ) (l : List (ℕ × ℕ)) → frames (l ++ (n, f) ∷ []) ≡ frames l ++ f ∷ []
frames-append_one n f [] = refl
frames-append_one n f ((m, h) ∷ l) = ground (arith, frames-append_one n f l)

IsFresh-append_one :
    (k n f : ℕ) (l : List (ℕ × ℕ)) → IsFresh k l → n ≢ k → IsFresh k (l ++ (n, f) ∷ [])
IsFresh-append_one k n f [] h ne = (ne, tt)
IsFresh-append_one k n f ((m, h) ∷ l) fr ne = (fr.0, IsFresh-append_one k n f l fr.1 ne)

pub append_one-IsChain :
    (b f : ℕ) (l : List (ℕ × ℕ))
    → IsChain b l
    → node_of f l ≡ none
    → IsChain (suc b) (l ++ (b, f) ∷ [])
append_one-IsChain b f [] c e = (omega arith, refl, tt, tt)
append_one-IsChain b f ((m, g) ∷ l) c e = (
  omega arith,
  ground (arith, node_of-append_one f b g l),
  IsFresh-append_one m b f l c.2 (omega arith),
  append_one-IsChain b f l c.3 (ground arith),
)

pub frames-IsNodup : (b : ℕ) (l : List (ℕ × ℕ)) → IsChain b l → IsNodup (frames l)
frames-IsNodup b [] c = tt
frames-IsNodup b ((m, g) ∷ l) c = (ground (arith, mem-frames g l), frames-IsNodup b l c.3)
