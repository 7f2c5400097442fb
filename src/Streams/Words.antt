-- ===== src/Streams/Words.antt =====
-- The words of a text, and how a text begins whose words are known.
use uni_base.Base.{
  ℕ, ◌≡◌, refl, sym, ◌∙◌, List, [], ◌∷◌, ◌++◌, Bool, true, false, if◌then◌else◌, Bool-cases, inl,
  inr, arith,
}
use uni_base.Errors.{Str}
use uni_base.Streams.{is_space, skip, not_space}

abbrev starts_word : Str → Bool
starts_word [] = false
starts_word (c ∷ s) = not_space c

-- A character of a word, in front of the words of a text that goes on with the word, or not.
abbrev in_front : ℕ → Bool → List Str → List Str
in_front c false ws = (c ∷ []) ∷ ws
in_front c true [] = (c ∷ []) ∷ []
in_front c true (w ∷ ws) = (c ∷ w) ∷ ws

unfoldable pub words : Str → List Str
words [] = []
words (c ∷ s) = if is_space c then words s else in_front c (starts_word s) (words s)

-- The text is empty or starts with white space.
abbrev pub IsBreak : Str → Type 0
IsBreak [] = Unit {0}
IsBreak (c ∷ s) = is_space c ≡ true

abbrev pub All : (ℕ → Bool) → Str → Type 0
All test [] = Unit {0}
All test (c ∷ s) = (test c ≡ true) × All test s

-- A text without white space, of one character or more.
abbrev pub IsWord : Str → Type 0
IsWord [] = ⊥
IsWord (c ∷ s) = All not_space (c ∷ s)

words-starts : (s : Str) → starts_word s ≡ true → (w : Str) × (ws : List Str) × (words s ≡ w ∷ ws)
unfolding words
words-starts [] h = cc
words-starts (c ∷ []) h = (c ∷ [], [], ground (arith, h))
words-starts (c ∷ d ∷ s) h = elim (Bool-cases (starts_word (d ∷ s))) [
  | inl e ↦ let (w, ws, f) = words-starts (d ∷ s) e in (c ∷ w, ws, ground (arith, h, e, f))
  | inr e ↦ (c ∷ [], words (d ∷ s), ground (arith, h, e))
]

pub words-append : (a b : Str) → IsBreak b → words (a ++ b) ≡ words a ++ words b
unfolding words
words-append [] b h = refl
words-append (c ∷ []) [] h = ground arith
words-append (c ∷ []) (d ∷ b) h = ground (arith, h)
words-append (c ∷ d ∷ a) b h = elim (Bool-cases (starts_word (d ∷ a))) [
  | inl e ↦
      let (w, ws, f) = words-starts (d ∷ a) e in ground (arith, words-append (d ∷ a) b h, e, f)
  | inr e ↦ ground (arith, words-append (d ∷ a) b h, e)
]

pub words-word : (w : Str) → IsWord w → words w ≡ w ∷ []
unfolding words
words-word [] h = absurd h
words-word (c ∷ []) h = ground arith
words-word (c ∷ d ∷ w) h = ground (arith, words-word (d ∷ w) h.1)

starts-IsBreak : (s : Str) → starts_word s ≡ false → IsBreak s
starts-IsBreak [] h = tt
starts-IsBreak (c ∷ s) h = ground (arith, h)

skip-starts : (s : Str) → starts_word s ≡ true → skip s ≡ s
unfolding skip
skip-starts [] h = cc
skip-starts (c ∷ s) h = ground (arith, h)

-- The text begins, behind white space, with its first word.
pub words-split :
    (s w : Str) (more : List Str)
    → words s ≡ w ∷ more
    → (r : Str) × (skip s ≡ w ++ r) × IsBreak r × (words r ≡ more)
unfolding words skip
words-split [] w more e = absurd (cc)
words-split (c ∷ s) w more e = elim (Bool-cases (is_space c)) [
  | inl h ↦
      let (r, f, b, g) = words-split s w more (ground (arith, e, h)) in
      (r, ground (arith, h, f), b, g)
  | inr h ↦ elim (Bool-cases (starts_word s)) [
    | inr d ↦ (s, ground (arith, h, d, e), starts-IsBreak s d, ground (arith, h, d, e))
    | inl d ↦
        let (v, ws, f) = words-starts s d in
        let (r, g, b, k) = words-split s v ws f in
        let whole : s ≡ v ++ r = sym (skip-starts s d) ∙ g in
        (r, ground (arith, h, d, e, f, whole), b, ground (arith, h, d, e, f, k))
  ]
]

pub words-word-append : (w b : Str) → IsWord w → IsBreak b → words (w ++ b) ≡ w ∷ words b
words-word-append w b h k = words-append w b k ∙ rw (words-word w h) refl

-- White space in front does not matter.
pub words-space : (c : ℕ) (s : Str) → is_space c ≡ true → words (c ∷ s) ≡ words s
unfolding words
words-space c s h = rw h refl
