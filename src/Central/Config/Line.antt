-- ===== src/Central/Config/Line.antt =====
-- One line of the configuration file: spaces go, and a key and a value come out.
use liburing_server.Prelude.{
  ℕ, suc, ◌+◌, ◌-◌, ◌<◌, ◌≡◌, ◌≢◌, refl, sym, ap, ap₂, some, ◌∙◌, arith, List, [], ◌∷◌, ◌++◌,
  length, get_elem?, set, set-append, ok, undefined, ◌>>=◌, if◌then◌else◌, ◌==◌, All, append_assoc,
  append-nil, length-append, ne→not-==, Bool-cases, inl, inr, lt→ltb, get_elem?-append_right,
}
use liburing_server.Central.Config.{
  Config, squeeze, remove_spaces, skip_delims, scan, strtok, add_line,
}

abbrev pub keep : List ℕ → List ℕ
keep [] = []
keep (c ∷ cs) = if c == 32 then keep cs else c ∷ keep cs

abbrev pub spaces : List ℕ → ℕ
spaces [] = 0
spaces (c ∷ cs) = if c == 32 then suc (spaces cs) else spaces cs

-- A byte moves over the gap, which stays as long.
shift :
    (done gap : List ℕ) (c : ℕ) (cs : List ℕ)
    → (gap' : List ℕ) × (set (done ++ (gap ++ (c ∷ cs))) (length done) c
        ≡ (done ++ (c ∷ [])) ++ (gap' ++ cs))
      × (length gap' ≡ length gap)
shift done [] c cs = ([], set-append done c c cs ∙ sym (append_assoc done (c ∷ []) cs), refl)
shift done (g ∷ gap) c cs = (
  gap ++ (c ∷ []),
  set-append done g c (gap ++ (c ∷ cs))
      ∙ ap (λ r. done ++ (c ∷ r)) (sym (append_assoc gap (c ∷ []) cs))
      ∙ sym (append_assoc done (c ∷ []) ((gap ++ (c ∷ [])) ++ cs)),
  omega (arith, length-append gap (c ∷ [])),
)

-- What `squeeze` has done so far, the bytes it has passed, and the bytes to come.
squeeze_lem :
    (todo done gap mem : List ℕ) (i s : ℕ)
    → mem ≡ done ++ (gap ++ todo)
    → i ≡ length done + length gap
    → s ≡ length gap
    → (gap' : List ℕ) × (squeeze (length todo) i s mem
        ≡ ok (s + spaces todo, done ++ (keep todo ++ gap')))
      × (length gap' ≡ s + spaces todo)
unfolding squeeze
squeeze_lem [] done gap mem i s e hi hs = (
  gap,
  ap (λ m. ok (s, m)) (e ∙ ap (λ r. done ++ r) (append-nil gap))
      ∙ ap (λ n. ok (n, done ++ gap)) (omega arith),
  omega arith,
)
squeeze_lem (c ∷ cs) done gap mem i s e hi hs = elim (Bool-cases (c == 32)) [
  | inl space ↦
      let (gap', run, len) =
        squeeze_lem cs done (gap ++ (c ∷ [])) mem (i + 1) (s + 1)
          (e ∙ ap (λ r. done ++ r) (sym (append_assoc gap (c ∷ []) cs)))
          (omega (arith, length-append gap (c ∷ []))) (omega (arith, length-append gap (c ∷ []))) in
      rw (here, space)
        (gap', run ∙ ap (λ n. ok (n, done ++ (keep cs ++ gap'))) (omega arith), omega arith)
  | inr byte ↦
      let (gap1, moved, same) = shift done gap c cs in
      let (gap', run, len) =
        squeeze_lem cs (done ++ (c ∷ [])) gap1 (set mem (i - s) c) (i + 1) s
          (ap₂ (λ m k. set m k c) e (omega arith) ∙ moved)
          (omega (arith, length-append done (c ∷ []))) (omega arith) in
      rw (here, byte)
        (
          gap',
          run ∙ ap (λ r. ok (s + spaces cs, r)) (append_assoc done (c ∷ []) (keep cs ++ gap')),
          len,
        )
]
  where
    here : get_elem? mem i ≡ some c
    here =
        ap (λ m. get_elem? m i) e
        ∙ get_elem?-append_right done (gap ++ (c ∷ cs)) i (length gap) hi
        ∙ get_elem?-append_right gap (c ∷ cs) (length gap) 0 (omega arith)

cut_at :
    (xs : List ℕ) (x : ℕ) (rest : List ℕ) (n c : ℕ)
    → n ≡ length xs
    → set (xs ++ (x ∷ rest)) n c ≡ xs ++ (c ∷ rest)
cut_at xs x rest n c e = ap (λ k. set (xs ++ (x ∷ rest)) k c) e ∙ set-append xs x c rest

length-keep : (xs : List ℕ) → length (keep xs) + spaces xs ≡ length xs
length-keep [] = refl
length-keep (c ∷ cs) = ground (arith, length-keep cs)

-- A line with spaces loses them, and a zero ends it.
pub remove_spaces_lem :
    (line : List ℕ)
    → 0 < spaces line
    → (junk : List ℕ) × (remove_spaces line ≡ ok (keep line ++ (0 ∷ junk)))
unfolding remove_spaces
remove_spaces_lem line some_space =
    let (gap, run, len) = squeeze_lem line [] [] line 0 0 refl refl refl in
    ended gap (run ∙ ap (λ n. ok (n, keep line ++ gap)) (omega arith)) (omega arith)
  where
    ended :
        (gap : List ℕ)
        → squeeze (length line) 0 0 line ≡ ok (spaces line, keep line ++ gap)
        → length gap ≡ spaces line
        → (junk : List ℕ) × (remove_spaces line ≡ ok (keep line ++ (0 ∷ junk)))
    ended [] run len = absurd (omega arith)
    ended (g ∷ gap) run len = (
      gap,
      rw (run, lt→ltb 0 (spaces line) some_space)
          (ap ok (
            cut_at (keep line) g gap (length line - spaces line) 0
              (omega (arith, length-keep line)))),
    )

remove_spaces_none : (line : List ℕ) → spaces line ≡ 0 → remove_spaces line ≡ ok (keep line)
unfolding remove_spaces
remove_spaces_none line none_here =
    let (gap, run, len) = squeeze_lem line [] [] line 0 0 refl refl refl in
    nothing gap (run ∙ ap (λ n. ok (n, keep line ++ gap)) (omega arith)) (omega arith)
  where
    nothing :
        (gap : List ℕ)
        → squeeze (length line) 0 0 line ≡ ok (0, keep line ++ gap)
        → length gap ≡ 0
        → remove_spaces line ≡ ok (keep line)
    nothing [] run len = rw run (ap ok (append-nil (keep line)))
    nothing (g ∷ gap) run len = absurd (omega arith)

-- A byte that has no meaning of its own in the file.
abbrev pub IsPlain : ℕ → Type 0
IsPlain c = (c ≢ 0) × (c ≢ 10) × (c ≢ 32) × (c ≢ 58)

abbrev pub IsKey : List ℕ → Type 0
IsKey [] = ⊥
IsKey (c ∷ cs) = (c ≢ 35) × All IsPlain (c ∷ cs)

abbrev pub IsValue : List ℕ → Type 0
IsValue [] = ⊥
IsValue (c ∷ cs) = All IsPlain (c ∷ cs)

-- `KEY: value`, as in the README.
abbrev pub print_line : List ℕ → List ℕ → List ℕ
print_line key value = key ++ (58 ∷ 32 ∷ value)

keep-plain : (xs rest : List ℕ) → All IsPlain xs → keep (xs ++ rest) ≡ xs ++ keep rest
keep-plain [] rest h = refl
keep-plain (c ∷ cs) rest ((h0, h1, h2, h3), hs) =
    rw (ne→not-== c 32 h2) (ap (◌∷◌ c) (keep-plain cs rest hs))

keep_whole : (xs : List ℕ) → All IsPlain xs → keep xs ≡ xs
keep_whole xs h = ap keep (sym (append-nil xs)) ∙ keep-plain xs [] h ∙ append-nil xs

spaces-plain : (xs rest : List ℕ) → All IsPlain xs → spaces (xs ++ rest) ≡ spaces rest
spaces-plain [] rest h = refl
spaces-plain (c ∷ cs) rest ((h0, h1, h2, h3), hs) = rw (ne→not-== c 32 h2) (spaces-plain cs rest hs)

keep-print_line :
    (key value : List ℕ)
    → All IsPlain key
    → All IsPlain value
    → keep (print_line key value) ≡ key ++ (58 ∷ value)
keep-print_line key value hk hv =
    keep-plain key (58 ∷ 32 ∷ value) hk ∙ ap (λ v. key ++ (58 ∷ v)) (keep_whole value hv)

scan-plain_delim : (xs rest : List ℕ) → All IsPlain xs → scan 58 (xs ++ (58 ∷ rest)) ≡ ok (xs, rest)
unfolding scan
scan-plain_delim [] rest h = refl
scan-plain_delim (c ∷ cs) rest ((h0, h1, h2, h3), hs) =
    rw (ne→not-== c 0 h0, ne→not-== c 58 h3, scan-plain_delim cs rest hs) refl

scan-plain_zero :
    (xs rest : List ℕ) → All IsPlain xs → scan 58 (xs ++ (0 ∷ rest)) ≡ ok (xs, 0 ∷ rest)
unfolding scan
scan-plain_zero [] rest h = refl
scan-plain_zero (c ∷ cs) rest ((h0, h1, h2, h3), hs) =
    rw (ne→not-== c 0 h0, ne→not-== c 58 h3, scan-plain_zero cs rest hs) refl

-- A text that begins with a plain byte has no delimiter to skip.
strtok-plain : (c : ℕ) (rest : List ℕ) → IsPlain c → strtok 58 (c ∷ rest) ≡ scan 58 (c ∷ rest)
unfolding strtok skip_delims
strtok-plain c rest (h0, h1, h2, h3) = rw (ne→not-== c 58 h3, ne→not-== c 0 h0) refl

settled :
    (key value junk : List ℕ) (config : Config)
    → IsKey key
    → IsValue value
    → (strtok 58 (key ++ (58 ∷ (value ++ (0 ∷ junk))))
        >>= (λ (k, left). strtok 58 left >>= (λ (v, rest). ok ((k, v) ∷ config))))
      ≡ ok ((key, value) ∷ config)
settled [] value junk config hk hv = absurd hk
settled (c ∷ cs) [] junk config hk hv = absurd hv
settled (c ∷ cs) (d ∷ ds) junk config (h35, (hc, hcs)) (hd, hds) =
    rw
      (
        strtok-plain c (cs ++ (58 ∷ (d ∷ (ds ++ (0 ∷ junk))))) hc,
        scan-plain_delim (c ∷ cs) (d ∷ (ds ++ (0 ∷ junk))) (hc, hcs),
        strtok-plain d (ds ++ (0 ∷ junk)) hd,
        scan-plain_zero (d ∷ ds) junk (hd, hds),
      )
      refl

pub add_line-print_line :
    (key value : List ℕ) (config : Config)
    → IsKey key
    → IsValue value
    → add_line (print_line key value) config ≡ ok ((key, value) ∷ config)
unfolding add_line
add_line-print_line [] value config hk hv = absurd hk
add_line-print_line (c ∷ cs) [] config hk hv = absurd hv
add_line-print_line (c ∷ cs) (d ∷ ds) config (h35, h) hv =
    let (junk, run) = remove_spaces_lem (print_line (c ∷ cs) (d ∷ ds)) some_space in
    let text = keep-print_line (c ∷ cs) (d ∷ ds) h hv in
    rw (run, text, append_assoc (c ∷ cs) (58 ∷ d ∷ ds) (0 ∷ junk), ne→not-== c 35 h35)
      (settled (c ∷ cs) (d ∷ ds) junk config (h35, h) hv)
  where
    some_space : 0 < spaces (print_line (c ∷ cs) (d ∷ ds))
    some_space = omega (arith, spaces-plain (c ∷ cs) (58 ∷ 32 ∷ d ∷ ds) h)

scan-plain_end : (xs : List ℕ) → All IsPlain xs → scan 58 xs ≡ undefined
unfolding scan
scan-plain_end [] h = refl
scan-plain_end (c ∷ cs) ((h0, h1, h2, h3), hs) =
    rw (ne→not-== c 0 h0, ne→not-== c 58 h3, scan-plain_end cs hs) refl

unsettled :
    (key value : List ℕ) (config : Config)
    → IsKey key
    → IsValue value
    → (strtok 58 (key ++ (58 ∷ value))
        >>= (λ (k, left). strtok 58 left >>= (λ (v, rest). ok ((k, v) ∷ config))))
      ≡ undefined
unsettled [] value config hk hv = absurd hk
unsettled (c ∷ cs) [] config hk hv = absurd hv
unsettled (c ∷ cs) (d ∷ ds) config (h35, (hc, hcs)) (hd, hds) =
    rw
      (
        strtok-plain c (cs ++ (58 ∷ d ∷ ds)) hc,
        scan-plain_delim (c ∷ cs) (d ∷ ds) (hc, hcs),
        strtok-plain d ds hd,
        scan-plain_end (d ∷ ds) (hd, hds),
      )
      refl

-- A line of a key, a colon and a value, with no space in it, key and value being as in the lines
-- that are read back, is read past its end.
pub add_line_tight :
    (key value : List ℕ) (config : Config)
    → IsKey key
    → IsValue value
    → add_line (key ++ (58 ∷ value)) config ≡ undefined
unfolding add_line
add_line_tight [] value config hk hv = absurd hk
add_line_tight (c ∷ cs) [] config hk hv = absurd hv
add_line_tight (c ∷ cs) (d ∷ ds) config (h35, h) hv =
    rw
      (
        remove_spaces_none ((c ∷ cs) ++ (58 ∷ d ∷ ds)) (
            spaces-plain (c ∷ cs) (58 ∷ d ∷ ds) h
            ∙ ap spaces (sym (append-nil (d ∷ ds)))
            ∙ spaces-plain (d ∷ ds) [] hv),
        keep-plain (c ∷ cs) (58 ∷ d ∷ ds) h,
        keep_whole (d ∷ ds) hv,
        ne→not-== c 35 h35,
      )
      (unsettled (c ∷ cs) (d ∷ ds) config (h35, h) hv)
