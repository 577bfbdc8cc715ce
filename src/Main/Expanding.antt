-- ===== src/Main/Expanding.antt =====
-- The expansion of the tokens of a line, and the table that keeps the expanded ones.
use c_based_linux_shell.Prelude.{
  ℕ, ◌+◌, ◌≤◌, ◌<◌, ◌≡◌, refl, ◌∙◌, inl, inr, true, false, some, none, List, [], ◌∷◌, arith, ltb,
  if◌then◌else◌, set, Bool-cases, lt→ltb, ltb→lt, ◌>>=◌,
}
use c_based_linux_shell.CString.{Str, contains}
use c_based_linux_shell.Variables.{Session, Vars}
use c_based_linux_shell.Expand.{expand_variables}
use c_based_linux_shell.Main.{table_size, record_token, expand_tokens}

-- The tokens with a `$`.
abbrev pub dollars : List Str → ℕ
dollars [] = 0
dollars (t ∷ ts) = let rest = dollars ts in if contains t b'$' then rest + 1 else rest

-- Each token with a `$` is expanded, the others stay.
pub data Expanded (vars : Vars) : List Str → List Str → Type 0 where
  nil : Expanded vars [] []
  plain :
      {t : Str} {ts vs : List Str}
      → contains t b'$' ≡ false
      → Expanded vars ts vs
      → Expanded vars (t ∷ ts) (t ∷ vs)
  sign :
      {t v : Str} {ts vs : List Str}
      → contains t b'$' ≡ true
      → expand_variables true vars (some t) ≡ some v
      → Expanded vars ts vs
      → Expanded vars (t ∷ ts) (v ∷ vs)

dollars-sign :
    (t : Str) (ts : List Str) → contains t b'$' ≡ true → dollars (t ∷ ts) ≡ dollars ts + 1
dollars-sign t ts dollar = rw dollar refl

-- The session with one more token in its table.
abbrev recorded : Str → Session → Session
recorded v s = record s {
  expanded_tokens = set s.expanded_tokens s.expanded_token_count (some v);
  expanded_token_count = s.expanded_token_count + 1;
}

record_token-recorded :
    (v : Str) (s : Session)
    → s.expanded_token_count < table_size
    → record_token v s ≡ some (recorded v s)
unfolding record_token
record_token-recorded v s room = rw (lt→ltb s.expanded_token_count table_size room) refl

record_token-full :
    (v : Str) (s : Session)
    → ltb s.expanded_token_count table_size ≡ false
    → record_token v s ≡ none
unfolding record_token
record_token-full v s full = rw full refl

expand_tokens-sign :
    (s : Session) (t v : Str) (ts : List Str)
    → contains t b'$' ≡ true
    → expand_variables true s.head (some t) ≡ some v
    → s.expanded_token_count < table_size
    → expand_tokens s (t ∷ ts) ≡ (expand_tokens (recorded v s) ts >>= λ r. some (r.0, v ∷ r.1))
unfolding expand_tokens
expand_tokens-sign s t v ts dollar value room =
    rw (dollar, value, record_token-recorded v s room) refl

expand_tokens-fits :
    {vars : Vars} (s : Session) {ts vs : List Str}
    → Expanded vars ts vs
    → s.head ≡ vars
    → s.expanded_token_count + dollars ts ≤ table_size
    → (s' : Session) × (expand_tokens s ts ≡ some (s', vs))
      × (s'.head ≡ s.head)
      × (s'.expanded_token_count ≡ s.expanded_token_count + dollars ts)
unfolding expand_tokens
expand_tokens-fits s nil h room = (s, refl, refl, omega arith)
expand_tokens-fits s (plain {t = t} {ts = ts} text others) h room =
    let (s', e, head, count) = expand_tokens-fits s others h (rw text at room) in
    (s', rw (text, e) refl, head, rw text count)
expand_tokens-fits s (sign {t = t} {v = v} {ts = ts} dollar value others) h room =
    let d = dollars-sign t ts dollar in
    let fits : s.expanded_token_count + 1 + dollars ts ≤ table_size = omega (arith, d) in
    let (s', e, head, count) = expand_tokens-fits (recorded v s) others h fits in
    (
      s',
      expand_tokens-sign s t v ts dollar (rw h value) (omega (arith, fits)) ∙ rw e refl,
      head,
      omega (arith, count, d),
    )

expand_tokens-over :
    {vars : Vars} (s : Session) {ts vs : List Str}
    → Expanded vars ts vs
    → s.head ≡ vars
    → table_size < s.expanded_token_count + dollars ts
    → s.expanded_token_count ≤ table_size
    → expand_tokens s ts ≡ none
unfolding expand_tokens
expand_tokens-over s nil h over start = absurd (omega arith)
expand_tokens-over s (plain {t = t} {ts = ts} text others) h over start =
    rw (text, expand_tokens-over s others h (rw text at over) start) refl
expand_tokens-over s (sign {t = t} {v = v} {ts = ts} dollar value others) h over start =
    let d = dollars-sign t ts dollar in
    elim (Bool-cases (ltb s.expanded_token_count table_size)) [
      | inl room ↦
          let fits = ltb→lt s.expanded_token_count table_size room in
          expand_tokens-sign s t v ts dollar (rw h value) fits
          ∙ rw (expand_tokens-over (recorded v s) others h (omega (arith, d)) (omega (arith, fits)))
              refl
      | inr full ↦
          let value' : expand_variables true s.head (some t) ≡ some v = rw h value in
          rw (dollar, value', record_token-full v s full) refl
    ]

-- While the table has room, the tokens with a `$`, if each can be expanded, are replaced by
-- their values and counted; the other tokens and the variables stay.
pub expand_tokens_lem :
    (s : Session) {ts vs : List Str}
    → Expanded s.head ts vs
    → s.expanded_token_count + dollars ts ≤ table_size
    → (s' : Session) × (expand_tokens s ts ≡ some (s', vs))
      × (s'.head ≡ s.head)
      × (s'.expanded_token_count ≡ s.expanded_token_count + dollars ts)
expand_tokens_lem s tokens room = expand_tokens-fits s tokens refl room

-- If the tokens with a `$` of a line, each of which can be expanded, and those counted before it
-- are more than the table holds, a token is written behind the table.
pub expand_tokens_overflow :
    (s : Session) {ts vs : List Str}
    → Expanded s.head ts vs
    → table_size < s.expanded_token_count + dollars ts
    → s.expanded_token_count ≤ table_size
    → expand_tokens s ts ≡ none
expand_tokens_overflow s tokens over start = expand_tokens-over s tokens refl over start
