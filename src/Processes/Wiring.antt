-- ===== src/Processes/Wiring.antt =====
-- The descriptors of the children: which ends of the pipes they hold.
use c_based_linux_shell.Prelude.{
  ℕ, zero, suc, ◌+◌, ◌≤◌, ◌<◌, ◌≡◌, refl, ap, sym, ◌∙◌, inl, inr, Bool, true, false, some, [], ◌∷◌,
  ◌++◌, ◌==◌, arith, ltb, if◌then◌else◌, length, get_elem?, Bool-cases, append_assoc, ==_iff,
  ltb→lt, append-nil, ◌&&◌,
}
use mathlib.Core.Path.{fun_ext}
use c_based_linux_shell.Processes.{
  Desc, closed, read_end, write_end, Table, set_fd, Pipes, close_all, Kernel, connect_input,
  connect_output, child_table, made, make_pipes,
}

abbrev pub is_end : ℕ → Pipes → Bool
is_end fd [] = false
is_end fd ((r, w) ∷ pipes) =
    let rest = is_end fd pipes in if fd == r then true else if fd == w then true else rest

abbrev pub Distinct : Pipes → Type 0
Distinct [] = Unit
Distinct ((r, w) ∷ pipes) =
    (is_end r pipes ≡ false) × (is_end w pipes ≡ false) × ((r == w) ≡ false) × Distinct pipes

-- Descriptors as the kernel gives them: all different, above those of the standard streams, and not
-- open before.
pub record IsFresh (t : Table) (pipes : Pipes) : Type 0 where
  pub distinct : Distinct pipes
  pub above : (fd : ℕ) → is_end fd pipes ≡ true → 3 ≤ fd
  pub unused : (fd : ℕ) → is_end fd pipes ≡ true → t fd ≡ closed

-- The table behind the loop that makes the pipes.
abbrev pub opened : ℕ → Pipes → Table → Table
opened i [] t = t
opened i ((r, w) ∷ pipes) t =
    opened (i + 1) pipes (set_fd w (write_end i) (set_fd r (read_end i) t))

abbrev pub Offers : Kernel → ℕ → Pipes → Type 0
Offers k i [] = Unit
Offers k i (p ∷ pipes) = (k.pipe_fds i ≡ some p) × Offers k (i + 1) pipes

pub make_pipes-opened :
    (k : Kernel) (i : ℕ) (before pipes : Pipes) (t : Table)
    → Offers k i pipes
    → make_pipes k (length pipes) i before t ≡ made (before ++ pipes) (opened i pipes t)
unfolding make_pipes
make_pipes-opened k i before [] t offers = ap (λ p. made p t) (sym (append-nil before))
make_pipes-opened k i before ((r, w) ∷ pipes) t (offer, offers) = rw offer (
    make_pipes-opened k (i + 1) (before ++ (r, w) ∷ []) pipes
      (set_fd w (write_end i) (set_fd r (read_end i) t)) offers
    ∙ ap (λ p. made p (opened i ((r, w) ∷ pipes) t)) (append_assoc before ((r, w) ∷ []) pipes))

-- What a table says behind the loops, at one descriptor.
pub close_all_at :
    (pipes : Pipes) (t : Table) (fd : ℕ)
    → close_all pipes t fd ≡ (if is_end fd pipes then closed else t fd)
unfolding close_all
close_all_at [] t fd = refl
close_all_at ((r, w) ∷ pipes) t fd =
    let ih = close_all_at pipes (set_fd w closed (set_fd r closed t)) fd in ground (arith, ih)

pub opened-other :
    (i : ℕ) (pipes : Pipes) (t : Table) (fd : ℕ)
    → is_end fd pipes ≡ false
    → opened i pipes t fd ≡ t fd
opened-other i [] t fd other = refl
opened-other i ((r, w) ∷ pipes) t fd other =
    let later : is_end fd pipes ≡ false = ground arith in
    let ih =
      opened-other (i + 1) pipes (set_fd w (write_end i) (set_fd r (read_end i) t)) fd later in
    ground (arith, ih)

-- A pipe that was made, and its ends.
record Found (i k : ℕ) (pipes : Pipes) (t : Table) : Type 0 where
  r : ℕ
  w : ℕ
  found : get_elem? pipes k ≡ some (r, w)
  r-is_end : is_end r pipes ≡ true
  w-is_end : is_end w pipes ≡ true
  reads : opened i pipes t r ≡ read_end (i + k)
  writes : opened i pipes t w ≡ write_end (i + k)

get_elem?-Found :
    (i k : ℕ) (pipes : Pipes) (t : Table) → k < length pipes → Distinct pipes → Found i k pipes t
get_elem?-Found i k [] t inside distinct = absurd (omega arith)
get_elem?-Found i zero ((r, w) ∷ pipes) t inside (r_other, w_other, differ, distinct) =
    let t' = set_fd w (write_end i) (set_fd r (read_end i) t) in
    record {
      r = r;
      w = w;
      found = refl;
      r-is_end = ground arith;
      w-is_end = ground arith;
      reads = opened-other (i + 1) pipes t' r r_other ∙ ground arith;
      writes = opened-other (i + 1) pipes t' w w_other ∙ ground arith;
    }
get_elem?-Found i (suc k) ((r, w) ∷ pipes) t inside (r_other, w_other, differ, distinct) =
    let t' = set_fd w (write_end i) (set_fd r (read_end i) t) in
    let f = get_elem?-Found (i + 1) k pipes t' (omega arith) distinct in
    record {
      r = f.r;
      w = f.w;
      found = f.found;
      r-is_end = ground (arith, f.r-is_end);
      w-is_end = ground (arith, f.w-is_end);
      reads = f.reads ∙ ap read_end (omega arith);
      writes = f.writes ∙ ap write_end (omega arith);
    }

-- The descriptors of the child `i` of `n + 1`: it reads from the pipe before it and writes to the
-- pipe behind it, where there are such; all others are those of the shell.
abbrev pub wired_input : Table → ℕ → Desc
wired_input t zero = t 0
wired_input t (suc i) = read_end i

abbrev pub wired : Table → ℕ → ℕ → Table
wired t n i fd =
    if fd == 0 then wired_input t i else if fd == 1 && ltb i n then write_end i else t fd

-- Closing the ends leaves the standard streams.
closed-wired :
    (pipes : Pipes) (t t' : Table) (n i : ℕ)
    → IsFresh t pipes
    → ((fd : ℕ) → is_end fd pipes ≡ false → t' fd ≡ wired t n i fd)
    → close_all pipes t' ≡ wired t n i
closed-wired pipes t t' n i fresh agree = fun_ext (λ fd. elim (Bool-cases (is_end fd pipes)) [
  | inr other ↦ close_all_at pipes t' fd ∙ rw other (agree fd other)
  | inl end ↦
      let high = fresh.above fd end in
      let gone = fresh.unused fd end in
      close_all_at pipes t' fd ∙ rw end (ground (arith, high, gone))
])

-- A standard stream is no end of a pipe.
standard_other :
    (pipes : Pipes) (t : Table) (fd : ℕ) → IsFresh t pipes → fd < 3 → is_end fd pipes ≡ false
standard_other pipes t fd fresh low = elim (Bool-cases (is_end fd pipes)) [
  | inr other ↦ other
  | inl end ↦ let high = fresh.above fd end in absurd (omega arith)
]

connect_input-opened :
    (pipes : Pipes) (t : Table) (i : ℕ)
    → IsFresh t pipes
    → i ≤ length pipes
    → connect_input pipes i (opened 0 pipes t)
      ≡ some (set_fd 0 (wired_input t i) (opened 0 pipes t))
unfolding connect_input
connect_input-opened pipes t zero fresh inside = ap some (
    fun_ext (λ fd.
      let same = opened-other 0 pipes t 0 (standard_other pipes t 0 fresh (omega arith)) in
      elim (Bool-cases (fd == 0)) [
        | inr other ↦ rw other refl
        | inl first ↦ rw first (ap (opened 0 pipes t) ((==_iff fd 0).0 first) ∙ same)
      ]))
connect_input-opened pipes t (suc i) fresh inside =
    let f = get_elem?-Found 0 i pipes t (omega arith) fresh.distinct in
    let reads : opened 0 pipes t f.r ≡ read_end i = f.reads ∙ ap read_end (omega arith) in
    rw (f.found, reads) refl

connect_output-opened :
    (pipes : Pipes) (t : Table) (d : Desc) (i : ℕ)
    → IsFresh t pipes
    → connect_output pipes (length pipes) i (set_fd 0 d (opened 0 pipes t))
      ≡ some (
          if ltb i (length pipes)
          then set_fd 1 (write_end i) (set_fd 0 d (opened 0 pipes t))
          else set_fd 0 d (opened 0 pipes t))
unfolding connect_output
connect_output-opened pipes t d i fresh = elim (Bool-cases (ltb i (length pipes))) [
  | inr last ↦ rw last refl
  | inl inner ↦
      let f = get_elem?-Found 0 i pipes t (ltb→lt i (length pipes) inner) fresh.distinct in
      let high = fresh.above f.w f.w-is_end in
      let other : (f.w == 0) ≡ false = ground (arith, high) in
      let writes : opened 0 pipes t f.w ≡ write_end i = f.writes ∙ ap write_end (omega arith) in
      rw (inner, f.found, other, writes) refl
]

pub child_table-wired :
    (pipes : Pipes) (t : Table) (i : ℕ)
    → IsFresh t pipes
    → i ≤ length pipes
    → child_table pipes (length pipes) i (opened 0 pipes t) ≡ some (wired t (length pipes) i)
unfolding child_table
child_table-wired pipes t i fresh inside =
    rw
      (
        connect_input-opened pipes t i fresh inside,
        connect_output-opened pipes t (wired_input t i) i fresh,
      )
      (ap some (
        closed-wired pipes t _ (length pipes) i fresh (λ fd other.
          let same = opened-other 0 pipes t fd other in
          elim (Bool-cases (ltb i (length pipes))) [
            | inl inner ↦ rw inner (ground (arith, same))
            | inr last ↦ rw last (ground (arith, same))
          ])))
