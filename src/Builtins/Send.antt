-- ===== src/Builtins/Send.antt =====
-- The bytes that `send` writes: the tokens with a space between each two, cut to MAX_USER_MSG, and a
-- network newline.
use c_based_linux_shell.Prelude.{
  Option, take-eq_self, ℕ, ◌+◌, ◌-◌, ◌≤◌, ◌<◌, min, ◌≡◌, refl, ap, sym, ◌∙◌, inl, inr, Bool, true,
  false, some, List, [], ◌∷◌, ◌++◌, arith, ltb, length, take, Bool-cases, ltb→lt, ltb→ge, le→leb,
  append-nil, append_assoc, length-append, length-take, take-append_split, take-min,
}
use c_based_linux_shell.Prelude.Int.{ℤ, in_range}
use c_based_linux_shell.CString.{Str}
use c_based_linux_shell.CString.Compare.{strncat-take}
use c_based_linux_shell.CString.Number.{atoi}
use c_based_linux_shell.CString.Tokens.{join}
use c_based_linux_shell.Socket.{max_user_msg, get_message}
use c_based_linux_shell.Socket.Newline.{encode, no_crlf, get_message-encode}
use c_based_linux_shell.Builtins.{
  Draft, draft_size, draft_space, draft_token, draft_loop, close_draft, behind_write, sent, send_to,
  bn_send,
}

-- The draft of the text `f`.
abbrev drafted : Str → Draft
drafted f = record { message = take max_user_msg f; left = max_user_msg - length f }

-- A text put behind, when there is room and when there is none.
drafted-append :
    (f text : Str)
    → 0 < max_user_msg - length f
    → record {
      message = take max_user_msg f ++ take (max_user_msg - length f) text;
      left = max_user_msg - length f - min (length text) (max_user_msg - length f);
    }
      ≡ drafted (f ++ text)
drafted-append f text room =
    let e : max_user_msg - length f - min (length text) (max_user_msg - length f)
        ≡ max_user_msg - length (f ++ text) =
      omega (arith, length-append f text) in
    cc (e, take-append_split max_user_msg f text)

drafted-full : (f text : Str) → max_user_msg - length f ≤ 0 → drafted f ≡ drafted (f ++ text)
drafted-full f text no_room =
    let e : max_user_msg - length f ≡ max_user_msg - length (f ++ text) =
      omega (arith, length-append f text) in
    let z : max_user_msg - length f ≡ 0 = omega arith in
    let t : take max_user_msg f ≡ take max_user_msg (f ++ text) =
      sym (append-nil (take max_user_msg f))
      ∙ ap (λ k. take max_user_msg f ++ take k text) (sym z)
      ∙ sym (take-append_split max_user_msg f text) in
    cc (e, t)

draft_token-drafted : (t f : Str) → draft_token t (drafted f) ≡ some (drafted (f ++ t))
unfolding draft_token
draft_token-drafted t f = elim (Bool-cases (ltb 0 (max_user_msg - length f))) [
  | inl room ↦
      rw
        (
          room,
          strncat-take draft_size (take max_user_msg f) t (min (length t) (max_user_msg - length f))
              (omega (arith, length-take max_user_msg f)),
          take-min (max_user_msg - length f) t,
        )
        (ap some (drafted-append f t (ltb→lt 0 (max_user_msg - length f) room)))
  | inr no_room ↦
      rw no_room (ap some (drafted-full f t (ltb→ge 0 (max_user_msg - length f) no_room)))
]

space_left : (n : ℕ) → 0 < n → n - 1 ≡ n - min 1 n
space_left n h = omega arith

draft_space-drafted : (f : Str) → draft_space false (drafted f) ≡ some (drafted (f ++ b' ' ∷ []))
unfolding draft_space
draft_space-drafted f = elim (Bool-cases (ltb 0 (max_user_msg - length f))) [
  | inl room ↦
      rw
        (
          room,
          strncat-take draft_size (take max_user_msg f) (b' ' ∷ []) (max_user_msg - length f)
              (omega (arith, length-take max_user_msg f)),
        )
        (let r = ltb→lt 0 (max_user_msg - length f) room in
          ap some (
            ap
              (λ k. record {
                message = take max_user_msg f ++ take (max_user_msg - length f) (b' ' ∷ []);
                left = k;
              })
              (space_left (max_user_msg - length f) r)
            ∙ drafted-append f (b' ' ∷ []) r))
  | inr no_room ↦
      rw no_room (ap some (drafted-full f (b' ' ∷ []) (ltb→ge 0 (max_user_msg - length f) no_room)))
]

-- The tokens behind the first, each with its space.
abbrev spaced : List Str → Str
spaced [] = []
spaced (t ∷ ts) = b' ' ∷ (t ++ spaced ts)

join-spaced : (t : Str) (ts : List Str) → join b' ' (t ∷ ts) ≡ t ++ spaced ts
join-spaced t [] = sym (append-nil t)
join-spaced t (u ∷ ts) = ap (λ r. t ++ b' ' ∷ r) (join-spaced u ts)

draft_loop-drafted :
    (f : Str) (ts : List Str) → draft_loop false (drafted f) ts ≡ some (drafted (f ++ spaced ts))
unfolding draft_loop
draft_loop-drafted f [] = ap (λ r. some (drafted r)) (sym (append-nil f))
draft_loop-drafted f (t ∷ ts) =
    rw (draft_space-drafted f, draft_token-drafted t (f ++ b' ' ∷ []))
      (draft_loop-drafted ((f ++ b' ' ∷ []) ++ t) ts
        ∙ ap (λ r. some (drafted r))
            (append_assoc (f ++ b' ' ∷ []) t (spaced ts)
              ∙ append_assoc f (b' ' ∷ []) (t ++ spaced ts)))

close_draft-drafted : (f : Str) → close_draft (drafted f) ≡ some (encode (take max_user_msg f))
unfolding close_draft
close_draft-drafted f =
    let n = length-take max_user_msg f in
    rw (le→leb (length (take max_user_msg f) + 2) draft_size (omega (arith, n))) refl

-- With arguments for a valid port, a host and at least one word, and a connection, `send` gives the
-- words with a space between each two, cut to MAX_USER_MSG bytes, and a network newline to `write`: it
-- never writes behind its buffer, whatever the words are.
pub bn_send_lem :
    (connect : ℤ → Str → Bool) (write : Str → Option ℕ) (name port host t : Str) (ts : List Str)
    → in_range 1024 65535 (atoi port) ≡ true
    → connect (atoi port) host ≡ true
    → let bytes = encode (take max_user_msg (join b' ' (t ∷ ts))) in
      bn_send connect write (name ∷ port ∷ host ∷ t ∷ ts)
      ≡ some (behind_write (atoi port) host bytes (write bytes))
unfolding bn_send send_to draft_loop draft_space
bn_send_lem connect write name port host t ts valid connected =
    rw
      (
        valid,
        connected,
        draft_token-drafted t [],
        draft_loop-drafted t ts,
        close_draft-drafted (t ++ spaced ts),
        join-spaced t ts,
      )
      refl

-- With a valid port and a connection, where `write` takes all the bytes that it is given, what is sent
-- arrives: of the bytes that `send` writes, `get_message` takes the words with a space between each
-- two, cut to MAX_USER_MSG bytes, and nothing is left, if the cut text itself holds no network newline.
pub send_get_message :
    (connect : ℤ → Str → Bool) (write : Str → Option ℕ) (name port host t : Str) (ts : List Str)
    → in_range 1024 65535 (atoi port) ≡ true
    → connect (atoi port) host ≡ true
    → ((bytes : Str) → write bytes ≡ some (length bytes))
    → no_crlf (take max_user_msg (join b' ' (t ∷ ts))) ≡ true
    → (bytes : Str) × (bn_send connect write (name ∷ port ∷ host ∷ t ∷ ts)
        ≡ some (sent (atoi port) host bytes))
      × (get_message bytes ≡ some (take max_user_msg (join b' ' (t ∷ ts)), []))
send_get_message connect write name port host t ts valid connected takes_all clean =
    let bytes = encode (take max_user_msg (join b' ' (t ∷ ts))) in
    (
      bytes,
      bn_send_lem connect write name port host t ts valid connected
          ∙ ap (λ n. some (behind_write (atoi port) host bytes n)) (takes_all bytes)
          ∙ ap (λ b. some (sent (atoi port) host b))
              (take-eq_self (length bytes) bytes (omega arith)),
      get_message-encode (take max_user_msg (join b' ' (t ∷ ts))) [] clean,
    )

-- A short write is a success for `send` all the same: it sends just the first bytes.
pub bn_send_short :
    (connect : ℤ → Str → Bool) (write : Str → Option ℕ) (name port host t : Str) (ts : List Str)
    (n : ℕ)
    → in_range 1024 65535 (atoi port) ≡ true
    → connect (atoi port) host ≡ true
    → write (encode (take max_user_msg (join b' ' (t ∷ ts)))) ≡ some n
    → bn_send connect write (name ∷ port ∷ host ∷ t ∷ ts)
      ≡ some (sent (atoi port) host (take n (encode (take max_user_msg (join b' ' (t ∷ ts))))))
bn_send_short connect write name port host t ts n valid connected short =
    let bytes = encode (take max_user_msg (join b' ' (t ∷ ts))) in
    bn_send_lem connect write name port host t ts valid connected
    ∙ ap (λ m. some (behind_write (atoi port) host bytes m)) short
