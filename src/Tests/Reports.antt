-- ===== src/Tests/Reports.antt =====
-- Theorems on statistics reports at concrete inputs.
use jevmalloc.Prelude.{
  ℕ, ◌≤◌, ◌≡◌, arith, ◌&&◌, some, List, [], ◌∷◌, codes, contains, length, get_elem?, replicate,
}
use jevmalloc.System.{usize_bits, ok}
use jevmalloc.Tests.Toy.{toy, start, linux}
use jevmalloc.Stats.Options.{print_options, normalize_options}
use jevmalloc.Stats.Options.Kept.{kept, padded, IsDistinct, normalize_options-kept}
use jevmalloc.Stats.Buffer.{new, write_all, finish}
use jevmalloc.Stats.Print.{print}
use jevmalloc.Stats.Report.{finish-write_all}
use jevmalloc.Stats.Whole.{print-eq-report}

abbrev room : List ℕ
room = replicate 4 0

abbrev fragments : List (List ℕ)
fragments = codes "ab" ∷ codes "c" ∷ []

finish-write_all_example : finish toy (write_all toy (new room) fragments) ≡ ok (codes "abc")
unfolding usize_bits
finish-write_all_example = finish-write_all toy room fragments (omega arith)

print-eq-report_example :
    print toy (codes "ggzm") room start
    ≡ (ok (codes "abc"), record start { world = kept [] (codes "ggzm") ∷ [] })
unfolding usize_bits
print-eq-report_example = print-eq-report toy room (omega arith) (codes "ggzm") start

normalize_options-kept_example :
    (normalize_options linux (codes "ggzm")
      ≡ ok (padded (kept [] (codes "ggzm")), length (kept [] (codes "ggzm"))))
    × (length (kept [] (codes "ggzm")) ≤ 10)
    × (get_elem? (padded (kept [] (codes "ggzm"))) (length (kept [] (codes "ggzm"))) ≡ some 0)
    × IsDistinct (kept [] (codes "ggzm"))
    × ((x : ℕ)
        → contains (kept [] (codes "ggzm")) x
          ≡ (contains (codes "ggzm") x && contains print_options x))
normalize_options-kept_example = normalize_options-kept linux (codes "ggzm")
