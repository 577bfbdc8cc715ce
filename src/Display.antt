-- ===== src/Display.antt =====
-- The output functions of src/io_helpers.c. A text has no byte 0, so `strnlen` is the smaller of its
-- length and MAX_STR_LEN.
use c_based_linux_shell.Prelude.{[], ◌∷◌, ◌++◌, take}
use c_based_linux_shell.CString.{Str, max_str_len}

-- What `display_message` writes to the standard output.
abbrev pub display_message : Str → Str
display_message str = take max_str_len str

-- What `display_error` writes to the standard error.
abbrev pub display_error : Str → Str → Str
display_error pre_str str = take max_str_len pre_str ++ take max_str_len str ++ b'\n' ∷ []
