-- ===== src/Printer/Count.antt =====
-- The last line of a table is short enough for what is kept free.
use uni_base.Base.{
  ℕ, zero, suc, ◌+◌, ◌/◌, ◌%◌, ◌^◌, ◌≤◌, ◌<◌, ◌≡◌, [], ◌∷◌, ◌++◌, Bool, true, false, ltb,
  if◌then◌else◌, length, length-append, Bool-cases, inl, inr, arith,
}
use native.Mathlib.Nat.{pow-suc}
use uni_base.Streams.{show_from, show_nat}
use uni_base.Printer.{dots, total}

length-show_from : (k rounds n : ℕ) → n < 10 ^ suc k → length (show_from rounds n) ≤ suc k
unfolding show_from
length-show_from k zero n h = omega arith
length-show_from zero (suc rounds) n h =
    (let e : ltb n 10 ≡ true = ground (arith, h) in rw e (omega arith))
length-show_from (suc k) (suc rounds) n h = elim (Bool-cases (ltb n 10)) [
  | inl e ↦ rw e (omega arith)
  | inr e ↦
      let tenth : n / 10 < 10 ^ suc k = omega (arith, h, pow-suc 10 (suc k)) in
      let ih = length-show_from k rounds (n / 10) tenth in
      rw e (omega (arith, ih, length-append {0} (show_from rounds (n / 10)) ((48 + n % 10) ∷ [])))
]

length-show_nat : (n : ℕ) → n < 10 ^ 13 → length (show_nat n) ≤ 13
unfolding show_nat
length-show_nat n h = length-show_from 12 (suc n) n h

-- The line, with the dots before it, for fewer than 10 ^ 13 records.
pub total_fits :
    (b : Bool) (n : ℕ) → n < 10 ^ 13 → length ((if b then dots else []) ++ total n) < 40
total_fits true n h = omega (arith, length-show_nat n h, length-append {0} (show_nat n) (10 ∷ []))
total_fits false n h = omega (arith, length-show_nat n h, length-append {0} (show_nat n) (10 ∷ []))
