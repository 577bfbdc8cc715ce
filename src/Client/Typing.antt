-- ===== src/Client/Typing.antt =====
-- From the line that is typed to the messages that the server reads.
use c_based_linux_shell.Prelude.{some, ◌≡◌, true, false, List, [], ◌∷◌, ◌++◌, map}
use c_based_linux_shell.Display.{display_message}
use c_based_linux_shell.CString.{Str}
use c_based_linux_shell.Socket.{client_read}
use c_based_linux_shell.Socket.Receive.{sent as sent_bytes}
use c_based_linux_shell.Client.{
  shown, client_text, sends, Session, ready, Event, Effect, sent, going, client_round, client_loop,
}
use c_based_linux_shell.Socket.Send.{IsTaking}

-- Rounds that go on: the standard input is ready, the socket takes at least a byte at each call of
-- `write`, and where it can be read the server is still there and sends what makes up some messages,
-- maybe none. The two buffers are the received bytes before and behind the rounds, and the text is
-- what the messages show.
pub data GoOn : List Event → Str → Str → List Str → Type 0 where
  no_round : {buf : Str} → GoOn [] buf buf []
  quiet :
      {ev : Event} {evs : List Event} {buf buf' : Str} {heard : List Str}
      → ev.disconnect ≡ false
      → ev.selected ≡ ready true false
      → IsTaking ev.write
      → GoOn evs buf buf' heard
      → GoOn (ev ∷ evs) buf buf' heard
  hears :
      {ev : Event} {evs : List Event} {buf buf₁ buf' : Str} {msgs heard : List Str}
      → ev.disconnect ≡ false
      → ev.selected ≡ ready true true
      → IsTaking ev.write
      → client_read ev.recv buf ≡ some (msgs, buf₁)
      → GoOn evs buf₁ buf' heard
      → GoOn (ev ∷ evs) buf buf' (map (λ m. display_message (client_text m)) msgs ++ heard)

-- What is sent, and what is shown, of the effects.
abbrev pub sent_of : List Effect → List Str
sent_of [] = []
sent_of (sent bytes ∷ out) = bytes ∷ sent_of out
sent_of (shown text ∷ out) = sent_of out

abbrev pub shown_of : List Effect → List Str
shown_of [] = []
shown_of (sent bytes ∷ out) = shown_of out
shown_of (shown text ∷ out) = text ∷ shown_of out

-- A round of these that sends `bytes`: it goes on with the rest of the input, and with a buffer with
-- which the later rounds go on.
pub record Sends (ev : Event) (evs : List Event) (s s' : Session) (buf' : Str) (heard : List Str)
    (bytes : Str) : Type 0 where
  pub out : List Effect
  pub buf : Str
  pub shows : List Str
  pub later : List Str
  pub runs : client_round ev s ≡ (going (record s' { buf = buf }), out)
  pub sends : sent_of out ≡ bytes ∷ []
  pub shown_here : shown_of out ≡ shows
  pub all_heard : heard ≡ shows ++ later
  pub others : GoOn evs buf buf' later

-- What rounds come to: the session, what they send and what they show.
pub record Ran (evs : List Event) (s s' : Session) (bytes shows : List Str) : Type 0 where
  pub ends : (client_loop evs s).0 ≡ going s'
  pub sends : sent_of (client_loop evs s).1 ≡ bytes
  pub shows_just : shown_of (client_loop evs s).1 ≡ shows
