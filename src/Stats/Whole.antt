-- ===== src/Stats/Whole.antt =====
-- `print` as a whole: options, report and buffer together.
use jevmalloc.Prelude.{
  inl, inr, Bool-cases, if◌then◌else◌, arith, ℕ, ◌^◌, ◌<◌, ◌≡◌, ap, List, [], length, contains,
  take-append, replicate, ◌-◌,
}
use jevmalloc.System.{System, Process, usize_bits}
use jevmalloc.Ctl.Error.{invalid_argument}
use jevmalloc.Stats.Options.{print_options_capacity}
use jevmalloc.Stats.Options.Kept.{kept, normalize_options-kept}
use jevmalloc.Stats.Print.{print, print_raw}
use jevmalloc.Stats.Report.{joined, report, finish-write_all}

module _ {W : Type 0} (s : System W) (buf : List ℕ)
    (word : length buf < 2 ^ usize_bits s.arch) where
  -- `print` with a NUL among the options is `EINVAL` and does not call jemalloc. Otherwise jemalloc is
  -- called once, with each requested and recognised option once, and the result is its whole
  -- report, however it is cut: the joined fragments, `EILSEQ` or `ENOSPC`.
  pub print-eq-report :
      (opts : List ℕ) (p : Process W)
      → print s opts buf p ≡ (
          if contains opts 0
          then (invalid_argument s.errno, p)
          else let (fragments, w) = s.malloc_stats_print (kept [] opts) p.world in
            (report s buf (joined fragments), record p { world = w }))
  unfolding print print_raw invalid_argument
  print-eq-report opts p =
      let e = (normalize_options-kept s.errno opts).0 in
      elim (Bool-cases (contains opts 0)) [
        | inl nul ↦ rw nul (rw e (rw nul (ground arith)))
        | inr free ↦ rw free (
            rw e (
              rw free (
                rw
                  (take-append (kept [] opts)
                    (replicate (print_options_capacity - length (kept [] opts)) 0))
                  (let (fragments, w) = s.malloc_stats_print (kept [] opts) p.world in
                    ap (λ r. (r, record p { world = w }))
                      (finish-write_all s buf fragments word)))))
      ]
