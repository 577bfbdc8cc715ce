-- ===== src/Builtins/Tests.antt =====
-- The theorems about `echo` and `send` at concrete arguments.
use c_based_linux_shell.Prelude.{
  length, ◌≡◌, refl, true, some, [], ◌∷◌, ◌++◌, arith, take, replicate,
}
use c_based_linux_shell.Prelude.Int.{pos}
use c_based_linux_shell.CString.{Str, codes, strncmp_eq}
use c_based_linux_shell.CString.Number.{atoi}
use c_based_linux_shell.CString.Tokens.{join}
use c_based_linux_shell.Variables.{Vars, find_val_with_key}
use c_based_linux_shell.Expand.{expand_variables}
use c_based_linux_shell.Socket.{max_user_msg, get_message}
use c_based_linux_shell.Builtins.{bn_echo, printed, nil, cons, bn_send, sent}
use c_based_linux_shell.Builtins.Echo.{bn_echo_lem}
use c_based_linux_shell.Builtins.Send.{send_get_message}

-- x is 128 bytes long.
abbrev long_var : Vars
long_var = record { key = codes "x"; value = replicate 128 b'a' } ∷ []

a_is : expand_variables true long_var (some (codes "a")) ≡ some (codes "a")
unfolding expand_variables
a_is = refl

x_is : expand_variables true long_var (some (codes "$x")) ≡ some (replicate 128 b'a')
unfolding expand_variables find_val_with_key strncmp_eq
x_is = refl

bn_echo_example :
    bn_echo long_var (codes "echo" ∷ codes "a" ∷ codes "a" ∷ [])
    ≡ some (printed (codes "a a" ++ b'\n' ∷ []))
bn_echo_example =
    bn_echo_lem long_var (codes "echo") {ts = codes "a" ∷ codes "a" ∷ []}
      {values = codes "a" ∷ codes "a" ∷ []} (cons a_is (cons a_is nil)) (omega arith)

valid_port : atoi (codes "2000") ≡ pos 2000
unfolding atoi
valid_port = refl

send_get_message_example :
    (bytes : Str) × (bn_send
        (λ _ _. true)
        (λ bytes. some (length bytes))
        (codes "send" ∷ codes "2000" ∷ codes "host" ∷ codes "hi" ∷ codes "you" ∷ [])
      ≡ some (sent (atoi (codes "2000")) (codes "host") bytes))
    × (get_message bytes ≡ some (take max_user_msg (join b' ' (codes "hi" ∷ codes "you" ∷ [])), []))
unfolding atoi
send_get_message_example =
    send_get_message (λ _ _. true) (λ bytes. some (length bytes)) (codes "send") (codes "2000")
      (codes "host") (codes "hi") (codes "you" ∷ []) refl refl (λ bytes. refl) refl
