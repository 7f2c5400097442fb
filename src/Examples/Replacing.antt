-- ===== src/Examples/Replacing.antt =====
-- The LRU replacer on a short history.
use uni_base.Base.{◌≡◌, refl, [], ◌∷◌, some, none, ℕ_discrete, lookup, erase, insert, List}
use uni_base.Replacer.Lru.{init, victim, pin, unpin, size, erase_node}
use uni_base.Replacer.Lru.Refines.{
  Call, victims, pins, unpins, sizes, Reply, frame, done, count, step, run, ideal_run,
  run-eq-ideal_run,
}

program : Unit {0}
unfolding init victim pin unpin size erase_node lookup erase insert ℕ_discrete step run
program = tt

abbrev calls : List Call
calls =
    unpins 1 ∷ unpins 2 ∷ unpins 3 ∷ unpins 1 ∷ pins 2 ∷ sizes ∷ victims ∷ victims ∷ victims ∷ []

abbrev replies : List Reply
replies =
    done ∷ done ∷ done ∷ done ∷ done ∷ count 2 ∷ frame (some 1) ∷ frame (some 3) ∷ frame none ∷ []

run-calls : run (init 7) calls ≡ replies
unfolding program
run-calls = refl

run-eq-ideal_run_example : run (init 7) calls ≡ ideal_run [] calls
run-eq-ideal_run_example = run-eq-ideal_run 7 calls
