-- ===== src/Streams/Reads.antt =====
-- Reads of a text by the words that it begins with.
use uni_base.Base.{
  ℕ, zero, suc, ◌+◌, ◌-◌, ◌*◌, ◌/◌, ◌%◌, ◌≤◌, ◌<◌, ◌≡◌, refl, ◌∙◌, subst, List, [], ◌∷◌, ◌++◌, some,
  Bool, true, false, ltb, Bool-cases, inl, inr, length, arith,
}
use mathlib.Core.List.{append_assoc, append-nil}
use uni_base.Errors.{Str}
use uni_base.Streams.{
  is_space, is_digit, skip, span, not_space, Reader, ◌>>=◌, pure, read_str, value, read_nat,
  show_from, show_nat, read_many,
}
use uni_base.Streams.Words.{words, IsBreak, All, IsWord, words-split}

abbrev Stops : (ℕ → Bool) → Str → Type 0
Stops test [] = Unit {0}
Stops test (c ∷ s) = test c ≡ false

span-append :
    (test : ℕ → Bool) (w r : Str) → All test w → Stops test r → span test (w ++ r) ≡ (w, r)
unfolding span
span-append test [] [] h b = refl
span-append test [] (c ∷ r) h b = ground (arith, b)
span-append test (c ∷ w) r h b = ground (arith, h, span-append test w r h.1 b)

-- The reader takes these words, which stand at the start of the text, and returns the value.
pub record Reads {A : Type 0} (p : Reader A) (ts : List Str) (a : A) : Type 0 where
  pub run :
      (s : Str) (more : List Str)
      → words s ≡ ts ++ more
      → (r : Str) × (p s ≡ some (a, r)) × (words r ≡ more)

break-space : (r : Str) → IsBreak r → Stops not_space r
break-space [] b = tt
break-space (c ∷ r) b = ground (arith, b)

break-digit : (r : Str) → IsBreak r → Stops is_digit r
unfolding is_space is_digit
break-digit [] b = tt
break-digit (c ∷ r) b = ground (arith, b)

pub read_str-Reads : (w : Str) → IsWord w → Reads read_str (w ∷ []) w
unfolding read_str
read_str-Reads [] h = absurd h
read_str-Reads (c ∷ w) h = record {
  run = λ s more e.
      let (r, f, b, g) = words-split s (c ∷ w) more e in
      (r, rw (f, span-append not_space (c ∷ w) r h (break-space r b)) refl, g);
}

-- Decimal numbers.
value-append : (acc : ℕ) (a b : Str) → value acc (a ++ b) ≡ value (value acc a) b
unfolding value
value-append acc [] b = refl
value-append acc (c ∷ a) b = value-append (acc * 10 + (c - 48)) a b

All-append_one :
    (test : ℕ → Bool) (a : Str) (c : ℕ) → All test a → test c ≡ true → All test (a ++ c ∷ [])
All-append_one test [] c h d = (d, tt)
All-append_one test (x ∷ a) c h d = (h.0, All-append_one test a c h.1 d)

value-show_from : (rounds n : ℕ) → n < rounds → value 0 (show_from rounds n) ≡ n
unfolding value show_from
value-show_from zero n h = absurd (omega (arith, h))
value-show_from (suc rounds) n h = elim (Bool-cases (ltb n 10)) [
  | inl e ↦ rw e (omega arith)
  | inr e ↦ rw e (
      value-append 0 (show_from rounds (n / 10)) ((48 + n % 10) ∷ [])
      ∙ rw (value-show_from rounds (n / 10) (ground (arith, h, e))) (omega arith))
]

All-show_from : (rounds n : ℕ) → All is_digit (show_from rounds n)
unfolding show_from is_digit
All-show_from zero n = tt
All-show_from (suc rounds) n = elim (Bool-cases (ltb n 10)) [
  | inl e ↦ rw e (ground (arith, e))
  | inr e ↦ rw e (
      All-append_one is_digit (show_from rounds (n / 10)) (48 + n % 10)
        (All-show_from rounds (n / 10)) (ground arith))
]

read_digits :
    (limit n : ℕ) (w r s : Str)
    → skip s ≡ w ++ r
    → All is_digit w
    → IsBreak r
    → IsWord w
    → value 0 w ≡ n
    → n ≤ limit
    → read_nat limit s ≡ some (n, r)
unfolding read_nat
read_digits limit n [] r s f h b k v l = absurd k
read_digits limit n (c ∷ w) r s f h b k v l =
    rw (f, span-append is_digit (c ∷ w) r h (break-digit r b)) (ground (arith, v, l))

digits-IsWord : (c : ℕ) (w : Str) → All is_digit (c ∷ w) → All not_space (c ∷ w)
unfolding is_space is_digit
digits-IsWord c [] h = ground (arith, h)
digits-IsWord c (d ∷ w) h = (ground (arith, h), digits-IsWord d w h.1)

IsWord-append_one : (a : Str) (c : ℕ) → All is_digit (a ++ c ∷ []) → IsWord (a ++ c ∷ [])
IsWord-append_one [] c h = digits-IsWord c [] h
IsWord-append_one (x ∷ a) c h = digits-IsWord x (a ++ c ∷ []) h

show_from-IsWord : (rounds n : ℕ) → IsWord (show_from (suc rounds) n)
unfolding show_from
show_from-IsWord rounds n = elim (Bool-cases (ltb n 10)) [
  | inl e ↦ rw e (digits-IsWord (48 + n) [] (rw e at (All-show_from (suc rounds) n)))
  | inr e ↦ rw e (
      IsWord-append_one (show_from rounds (n / 10)) (48 + n % 10)
        (rw e at (All-show_from (suc rounds) n)))
]

pub show_nat-IsWord : (n : ℕ) → IsWord (show_nat n)
unfolding show_nat
show_nat-IsWord n = show_from-IsWord n n

pub read_nat-Reads : (limit n : ℕ) → n ≤ limit → Reads (read_nat limit) (show_nat n ∷ []) n
unfolding show_nat
read_nat-Reads limit n h = record {
  run = λ s more e.
      let (r, f, b, g) = words-split s (show_nat n) more e in
      (
        r,
        read_digits limit n (show_nat n) r s f (All-show_from (suc n) n) b (show_nat-IsWord n)
            (value-show_from (suc n) n (omega arith)) h,
        g,
      );
}

-- Readers in sequence.
pub pure-Reads : {A : Type 0} (a : A) → Reads (pure a) [] a
pure-Reads a = record { run = λ s more e. (s, refl, e) }

pub bind-Reads :
    {A B : Type 0} (p : Reader A) (f : A → Reader B) {ts us : List Str} {a : A} {b : B}
    → Reads p ts a
    → Reads (f a) us b
    → Reads (p >>= f) (ts ++ us) b
bind-Reads p f {ts} {us} h k = record {
  run = λ s more e.
      let (r, x, y) = h.run s (us ++ more) (e ∙ append_assoc ts us more) in
      let (q, z, w) = k.run r more y in (q, rw (x, ◌>>=◌) z, w);
}

-- A reader of one word comes first.
pub word-Reads :
    {A B : Type 0} (p : Reader A) (f : A → Reader B) {t : Str} {us : List Str} {a : A} {b : B}
    → Reads p (t ∷ []) a
    → Reads (f a) us b
    → Reads (p >>= f) (t ∷ us) b
word-Reads p f {t} {us} h k = bind-Reads p f h k

-- A reader is followed by nothing that reads.
pub last-Reads :
    {A B : Type 0} (p : Reader A) (f : A → Reader B) {ts : List Str} {a : A} {b : B}
    → Reads p ts a
    → Reads (f a) [] b
    → Reads (p >>= f) ts b
last-Reads p f {ts} {a} {b} h k =
    subst (λ us. Reads (p >>= f) us b) (append-nil ts) (bind-Reads p f h k)

unfoldable pub concat_map : {A : Type 0} → (A → List Str) → List A → List Str
concat_map ts [] = []
concat_map ts (x ∷ xs) = ts x ++ concat_map ts xs

-- A predicate on every element.
abbrev pub Each : {A : Type 0} → (A → Type 0) → List A → Type 0
Each P [] = Unit {0}
Each P (x ∷ xs) = P x × Each P xs

pub read_many-Reads :
    {A : Type 0} (P : A → Type 0) (p : Reader A) (ts : A → List Str)
    → ((x : A) → P x → Reads p (ts x) x)
    → (xs : List A) → Each P xs
    → Reads (read_many p (length xs)) (concat_map ts xs) xs
unfolding read_many concat_map
read_many-Reads P p ts h [] k = record { run = λ s more e. (s, refl, e) }
read_many-Reads P p ts h (x ∷ xs) k = record {
  run = λ s more e.
      let (r, y, d) =
        (h x k.0).run s (concat_map ts xs ++ more)
          (e ∙ append_assoc (ts x) (concat_map ts xs) more) in
      let (q, z, w) = (read_many-Reads P p ts h xs k.1).run r more d in
      (q, rw (y, ◌>>=◌) (rw (z, ◌>>=◌) refl), w);
}
