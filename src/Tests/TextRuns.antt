-- ===== src/Tests/TextRuns.antt =====
-- Masks, arguments and stored passwords on concrete texts.
use opennap.Base.{
  ◌≤◌, ℕ, ◌≡◌, ◌≤◌, ◌+◌, refl, arith, true, length, List, [], ◌∷◌, some, inr, All, ◌%◌,
}
use opennap.Text.{Bytes, codes, to_lower, is_space}
use opennap.Glob.{scan, glob_match}
use opennap.Glob.Spec.{Matches, Matches.done, Matches.one, Matches.run, ends_in_star, is_loose}
use opennap.Glob.Complete.{glob_match_complete}
use opennap.Glob.Sound.{glob_match_sound}
use opennap.Args.{split_line, split_template, skip_spaces, split_loop, split_at, is_delimiter}
use opennap.Args.Lines.{
  Arg, plain, quoted, print_args, IsClean, split_line-print_args, length-split_line,
}
use opennap.Password.{rejected, check_pass, generate_pass, get_random_bytes}
use opennap.Password.Codec.{letter}
use opennap.Password.Check.{IsDigest, check_pass-generate_pass}
use opennap.Receive.{strcmp_zero}

abbrev mask : Bytes
mask = codes "a*?b"

glob_match_sound_example : Matches (codes "a?*B") (codes "axyzb")
unfolding is_loose glob_match to_lower scan
glob_match_sound_example = glob_match_sound (codes "a?*B") (codes "axyzb") refl refl

glob_match_complete_example : glob_match (codes "a*b") (codes "axb") ≡ true
unfolding ends_in_star to_lower
glob_match_complete_example =
    glob_match_complete (codes "a*b") (codes "axb") refl
      (one (omega arith) (inr refl) (run (codes "x") refl refl (one (omega arith) (inr refl) done)))

-- `bob "be nice" 60`
abbrev line : List Arg
line = plain b'b' (codes "ob") ∷ quoted (codes "be nice") ∷ plain b'6' (codes "0") ∷ []

line-IsClean : All IsClean line
unfolding is_space
line-IsClean = (
  (omega arith, (refl, (refl, (refl, tt)))),
  (
    (
      omega arith,
      (omega arith, (omega arith, (omega arith, (omega arith, (omega arith, (omega arith, tt)))))),
    ),
    ((omega arith, (refl, (refl, tt))), tt),
  ),
)

split_line-print_args_example :
    split_line 3 (print_args line) ≡ some (codes "bob" ∷ codes "be nice" ∷ codes "60" ∷ [])
split_line-print_args_example = split_line-print_args 3 line (omega arith) line-IsClean

-- The quote is not closed: both entries are written, and the result is -1.
unclosed : split_template 2 (codes "a \"b c") ≡ (true, codes "a" ∷ codes "b c" ∷ [])
unfolding split_template skip_spaces split_loop split_at is_space is_delimiter
unclosed = refl

length-split_line_example :
    (length (split_template 2 (codes "a \"b c")).1 ≤ 2)
    × ((fs : List Bytes) → split_line 2 (codes "a \"b c") ≡ some fs → length fs ≤ 2)
length-split_line_example = length-split_line 2 (codes "a \"b c")

abbrev sum : Bytes → ℕ
sum [] = 0
sum (c ∷ s) = c + sum s

-- A digest of sixteen bytes that tells apart texts of different sums.
abbrev sum_digest : Bytes → Bytes
sum_digest m = (sum m % 256) ∷ 1 ∷ 2 ∷ 3 ∷ 4 ∷ 5 ∷ 6 ∷ 7 ∷ 8 ∷ 9 ∷ 10 ∷ 11 ∷ 12 ∷ 13 ∷ 14 ∷ 15 ∷ []

sum_digest-IsDigest : IsDigest sum_digest
sum_digest-IsDigest m = (
  refl,
  (
    omega arith,
    (
      omega arith,
      (
        omega arith,
        (
          omega arith,
          (
            omega arith,
            (
              omega arith,
              (
                omega arith,
                (
                  omega arith,
                  (
                    omega arith,
                    (
                      omega arith,
                      (
                        omega arith,
                        (
                          omega arith,
                          (omega arith, (omega arith, (omega arith, (omega arith, tt)))),
                        ),
                      ),
                    ),
                  ),
                ),
              ),
            ),
          ),
        ),
      ),
    ),
  ),
)

check_pass-generate_pass_example :
    check_pass sum_digest (generate_pass sum_digest (λ k. 5) (codes "secret")) (codes "secreT")
    ≡ rejected
unfolding strcmp_zero get_random_bytes letter
check_pass-generate_pass_example =
    check_pass-generate_pass sum_digest sum_digest-IsDigest (λ k. 5) (codes "secret")
      (codes "secreT")
