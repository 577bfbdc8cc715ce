-- ===== src/Main/Shown.antt =====
-- What `main` of src/mysh.c itself shows at the end of a round.
use c_based_linux_shell.Prelude.{
  length-append, take-eq_self, ap, ◌∙◌, ◌≡◌, ◌^◌, ℕ, zero, suc, ◌+◌, ◌-◌, ◌*◌, ◌/◌, ◌%◌, ◌≤◌, ◌<◌,
  List, [], ◌∷◌, ◌++◌, arith, length, take,
}
use c_based_linux_shell.Prelude.Int.{ℤ, pos}
use c_based_linux_shell.CString.{Str, codes, max_str_len}
use c_based_linux_shell.CString.Number.{decimal, decimal_onto}
use c_based_linux_shell.Display.{display_message, display_error}
use c_based_linux_shell.Hosting.{int_text}
use c_based_linux_shell.Main.{Shell, Round, exited, idle, fork_failed, table_full, started, ran}

-- "[%d] %d\n" in a buffer that `snprintf` fills with less than MAX_STR_LEN bytes.
abbrev pub job_line : ℕ → ℤ → Str
job_line index pid = b'[' ∷ (decimal (index + 1) ++ b']' ∷ b' ' ∷ (int_text pid ++ b'\n' ∷ []))

abbrev pub announcement : ℕ → ℤ → Str
announcement index pid = take (max_str_len - 1) (job_line index pid)

unfoldable pub round_shown : Round → List Str
round_shown (exited session) = []
round_shown (idle sh) = []
round_shown (fork_failed sh) = display_error (codes "ERROR: Fork Failed") [] ∷ []
round_shown (table_full sh) = display_error (codes "ERROR: Too many background processes") [] ∷ []
round_shown (started index pid sh) = display_message (announcement index pid) ∷ []
round_shown (ran done sh) = []

-- A number below a power of ten has at most as many digits.
abbrev pub power_of_ten : ℕ → ℕ
power_of_ten zero = 1
power_of_ten (suc d) = power_of_ten d * 10

decimal_onto-digits :
    (fuel d n : ℕ) (rest : Str)
    → n < power_of_ten (suc d)
    → length (decimal_onto fuel n rest) ≤ suc d + length rest
unfolding decimal_onto
decimal_onto-digits zero d n rest small = omega arith
decimal_onto-digits (suc fuel) zero n rest small = ground arith
decimal_onto-digits (suc fuel) (suc d) n rest small =
    ground (arith, decimal_onto-digits fuel d (n / 10) ((b'0' + n % 10) ∷ rest) (omega arith))

pub decimal-digits : (d n : ℕ) → n < power_of_ten (suc d) → length (decimal n) ≤ suc d
unfolding decimal
decimal-digits d n small = omega (arith, decimal_onto-digits (n + 1) d n [] small)

job_line-length :
    (index n : ℕ) → index < 1000 → n < 2 ^ 31 → length (job_line index (pos n)) ≤ max_str_len - 1
job_line-length index n few small = omega (
  arith,
  decimal-digits 3 (index + 1) (omega arith),
  decimal-digits 9 n (omega arith),
  length-append (decimal (index + 1)) (b']' ∷ b' ' ∷ (decimal n ++ b'\n' ∷ [])),
  length-append (decimal n) (b'\n' ∷ []),
)

-- A job that is started in one of the 1000 slots, with a process id that is an `int`, is announced by
-- its whole line: the number of the job in brackets, the process id and a newline, not cut by the
-- buffer nor by `display_message`.
pub round_shown-started :
    (index n : ℕ) (sh : Shell)
    → index < 1000
    → n < 2 ^ 31
    → round_shown (started index (pos n) sh) ≡ job_line index (pos n) ∷ []
unfolding round_shown
round_shown-started index n sh few small =
    let short = job_line-length index n few small in
    let whole : announcement index (pos n) ≡ job_line index (pos n) =
      take-eq_self (max_str_len - 1) (job_line index (pos n)) short in
    ap (λ t. t ∷ [])
      (ap display_message whole
        ∙ take-eq_self max_str_len (job_line index (pos n)) (omega (arith, short)))
