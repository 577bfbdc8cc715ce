-- ===== src/Hosting/Tests.antt =====
-- The theorems about servers at one that is started on port 4000, and at a second one.
use c_based_linux_shell.Prelude.{◌≡◌, refl, true, some, List, [], ◌∷◌, arith, success}
use c_based_linux_shell.CString.{Str, codes}
use c_based_linux_shell.CString.Number.{atoi}
use c_based_linux_shell.Display.{display_message}
use c_based_linux_shell.Hosting.{
  Host, no_server, started, bn_start_server, bn_close_server, closed_text,
}
use c_based_linux_shell.Hosting.Lifecycle.{start_close, start_twice_orphans}

abbrev start_word : Str
start_word = codes "start-server"

abbrev close_tokens : List Str
close_tokens = codes "close-server" ∷ []

start_close_example :
    (h' : Host) × (bn_start_server (some 77) (start_word ∷ codes "4000" ∷ []) (no_server [])
      ≡ some (started h'))
    × (bn_close_server true close_tokens h' ≡ record {
      status = success;
      shown = display_message (closed_text (atoi (codes "4000"))) ∷ [];
      host = no_server [];
    })
unfolding atoi
start_close_example =
    start_close 77 start_word (codes "4000") [] close_tokens (no_server []) refl (omega arith) refl

start_twice_orphans_example :
    (h₁ h₂ h₃ : Host) × (bn_start_server (some 77) (start_word ∷ codes "4000" ∷ []) (no_server [])
      ≡ some (started h₁))
    × (bn_start_server (some 78) (start_word ∷ codes "4001" ∷ []) h₁ ≡ some (started h₂))
    × (h₂.alive ≡ 78 ∷ 77 ∷ [])
    × ((bn_close_server true close_tokens h₂).host ≡ h₃)
    × (h₃.alive ≡ 77 ∷ [])
    × (bn_close_server true close_tokens h₃ ≡ record { status = success; shown = []; host = h₃ })
unfolding atoi
start_twice_orphans_example =
    start_twice_orphans 77 78 start_word (codes "4000") (codes "4001") [] close_tokens true
      (no_server []) refl refl (omega arith) refl refl
