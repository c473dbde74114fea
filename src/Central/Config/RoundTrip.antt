-- ===== src/Central/Config/RoundTrip.antt =====
-- A configuration file in the form of the README is read back as its settings.
use liburing_server.Prelude.{
  ℕ, ◌≡◌, ◌≢◌, refl, sym, ap, ◌∙◌, arith, List, [], ◌∷◌, ◌++◌, ok, All, All-append, append_assoc,
  append-nil, ne→not-==,
}
use liburing_server.Web.Text.{c_string, tokens, tokens_from, flush}
use liburing_server.Central.Config.{Config, add_lines, parse_config}
use liburing_server.Central.Config.Line.{IsPlain, IsKey, IsValue, print_line, add_line-print_line}

abbrev pub print_config : Config → List ℕ
print_config [] = []
print_config ((key, value) ∷ rest) = print_line key value ++ (10 ∷ print_config rest)

abbrev pub AllSettings : Config → Type 0
AllSettings [] = Unit {0}
AllSettings ((key, value) ∷ rest) = (IsKey key × IsValue value) × AllSettings rest

-- `config_data_map` after the settings of a file, one after the other.
abbrev pub settings : Config → Config → Config
settings [] config = config
settings (entry ∷ rest) config = settings rest (entry ∷ config)

-- Neither the end of the text nor the end of a line.
abbrev IsInner : ℕ → Type 0
IsInner c = (c ≢ 0) × (c ≢ 10)

plain-IsInner : (xs : List ℕ) → All IsPlain xs → All IsInner xs
plain-IsInner [] h = tt
plain-IsInner (c ∷ cs) ((h0, h1, h2, h3), hs) = ((h0, h1), plain-IsInner cs hs)

key-IsPlain : (key : List ℕ) → IsKey key → All IsPlain key
key-IsPlain [] h = absurd h
key-IsPlain (c ∷ cs) (h35, h) = h

value-IsPlain : (value : List ℕ) → IsValue value → All IsPlain value
value-IsPlain [] h = absurd h
value-IsPlain (c ∷ cs) h = h

print_line-IsInner :
    (key value : List ℕ) → IsKey key → IsValue value → All IsInner (print_line key value)
print_line-IsInner key value hk hv =
    All-append IsInner key (58 ∷ 32 ∷ value) (plain-IsInner key (key-IsPlain key hk)) (
      ((λ e. omega (arith, e)), (λ e. omega (arith, e))),
      (
        ((λ e. omega (arith, e)), (λ e. omega (arith, e))),
        plain-IsInner value (value-IsPlain value hv),
      ),
    )

c_string-inner :
    (xs rest text : List ℕ)
    → All IsInner xs
    → c_string rest ≡ ok text
    → c_string (xs ++ rest) ≡ ok (xs ++ text)
unfolding c_string
c_string-inner [] rest text h e = e
c_string-inner (c ∷ cs) rest text ((h0, h1), hs) e =
    rw (ne→not-== c 0 h0, c_string-inner cs rest text hs e) refl

c_string-print_config :
    (es : Config) (junk : List ℕ)
    → AllSettings es
    → c_string (print_config es ++ (0 ∷ junk)) ≡ ok (print_config es)
unfolding c_string
c_string-print_config [] junk h = refl
c_string-print_config ((key, value) ∷ es) junk ((hk, hv), hs) =
    ap c_string (append_assoc (print_line key value) (10 ∷ print_config es) (0 ∷ junk))
    ∙ c_string-inner (print_line key value) (10 ∷ (print_config es ++ (0 ∷ junk)))
        (10 ∷ print_config es) (print_line-IsInner key value hk hv)
        (rw (c_string-print_config es junk hs) refl)

tokens_from-inner :
    (xs token rest : List ℕ)
    → All IsInner xs
    → tokens_from (10 ∷ []) token (xs ++ (10 ∷ rest))
      ≡ flush (token ++ xs) (tokens_from (10 ∷ []) [] rest)
unfolding tokens_from
tokens_from-inner [] token rest h = rw (append-nil token) refl
tokens_from-inner (c ∷ cs) token rest ((h0, h1), hs) = rw (ne→not-== 10 c (λ e. h1 (sym e))) (
    tokens_from-inner cs (token ++ (c ∷ [])) rest hs
    ∙ ap (λ t. flush t (tokens_from (10 ∷ []) [] rest)) (append_assoc token (c ∷ []) cs))

-- The lines of a printed file are its settings.
add_lines-tokens :
    (es config : Config)
    → AllSettings es
    → add_lines (tokens_from (10 ∷ []) [] (print_config es)) config ≡ ok (settings es config)
unfolding add_lines tokens_from
add_lines-tokens [] config h = refl
add_lines-tokens (([], value) ∷ es) config ((hk, hv), hs) = absurd hk
add_lines-tokens ((c ∷ cs, value) ∷ es) config ((hk, hv), hs) =
    rw
      (tokens_from-inner (print_line (c ∷ cs) value) [] (print_config es)
        (print_line-IsInner (c ∷ cs) value hk hv))
      (rw (add_line-print_line (c ∷ cs) value config hk hv)
        (add_lines-tokens es ((c ∷ cs, value) ∷ config) hs))

-- A file of lines KEY: value, each ended, with keys and values that are not empty and hold no
-- zero, line end, space or colon, and keys that do not begin with #, is read back as its
-- settings, whatever follows its final zero.
pub parse_config-print_config :
    (es : Config) (junk : List ℕ)
    → AllSettings es
    → parse_config (print_config es ++ (0 ∷ junk)) ≡ ok (settings es [])
unfolding parse_config tokens
parse_config-print_config es junk h =
    rw (c_string-print_config es junk h) (add_lines-tokens es [] h)
