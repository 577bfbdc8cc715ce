-- ===== src/Input/Long.antt =====
-- Lines that are too long for `get_input`.
use c_based_linux_shell.Prelude.{◌<◌, ◌≡◌, refl, false, [], ◌∷◌, ◌++◌, arith, length, All, lt→ltb}
use c_based_linux_shell.CString.{Str, max_str_len}
use c_based_linux_shell.CString.Lines.{IsText}
use c_based_linux_shell.Input.{bytes, line, get_input, get_line, drop_line}

drop_line-append : (tail later : Str) → All IsText tail → drop_line (tail ++ b'\n' ∷ later) ≡ later
unfolding drop_line
drop_line-append [] later text = refl
drop_line-append (c ∷ tail) later (here, text) = rw here (drop_line-append tail later text)

-- A read of more than MAX_STR_LEN bytes gives an empty line and an error, and what is left of the input
-- begins behind its next newline: the rest of a line that is too long is dropped, and where the
-- bytes that were read end in a newline themselves, the whole next line is.
pub get_line_drops :
    (got tail later : Str)
    → max_str_len < length got
    → All IsText tail
    → get_line (bytes got) (tail ++ b'\n' ∷ later) ≡ (line false [], later)
unfolding get_line get_input
get_line_drops [] tail later long text = absurd (omega arith)
get_line_drops (c ∷ got) tail later long text =
    rw (lt→ltb max_str_len (length (c ∷ got)) long, drop_line-append tail later text) refl
