-- ===== src/Central/Config/Started.antt =====
-- What `start_server` comes to, told from the settings as the file has them.
use liburing_server.Prelude.{
  ℕ, ◌<◌, ◌^◌, ◌≡◌, ◌≢◌, refl, ap, ◌∙◌, Bool, true, false, ◌&&◌, List, [], ◌∷◌, length, Option,
  none, some, Outcome, ok, ◌>>=◌, if◌then◌else◌, ℤ, pos, same_bytes, inl, inr, Bool-cases,
}
use liburing_server.Web.Text.{codes}
use liburing_server.Central.Config.{
  Config, ReadResult, got, start_server, runs, fatal_error, stoi, setting, has_settings,
  num_threads, is_yes, is_set,
}
use liburing_server.Central.Config.RoundTrip.{
  print_config, AllSettings, settings, parse_config-print_config,
}
use liburing_server.Central.Config.Reading.{read_config-once}

-- The value of the last line of the file that sets a key.
abbrev pub last_value : Config → List ℕ → Option (List ℕ)
last_value [] key = none
last_value ((name, value) ∷ rest) key = elim (last_value rest key) [
  | none ↦ if same_bytes name key then some value else none
  | some later ↦ some later
]

abbrev pub asks_tls : Config → Bool
asks_tls es = elim (last_value es (codes "TLS")) [
  | none ↦ false
  | some value ↦ same_bytes value (codes "yes")
]

abbrev pub needed : Config → List (List ℕ)
needed es =
    if asks_tls es
    then codes "FULLCHAIN" ∷ codes "PKEY" ∷ codes "TLS_PORT" ∷ []
    else codes "PORT" ∷ []

abbrev pub all_given : Config → List (List ℕ) → Bool
all_given es [] = true
all_given es (key ∷ keys) = elim (last_value es key) [
  | none ↦ false
  | some value ↦ all_given es keys
]

abbrev pub threads_asked : Config → Outcome ℤ
threads_asked es = elim (last_value es (codes "SERVER_THREADS")) [
  | none ↦ ok (pos 3)
  | some value ↦ stoi value
]

abbrev is_given : Option (List ℕ) → Bool
is_given found = elim found [ none ↦ false | some value ↦ true ]

abbrev or_else : Option (List ℕ) → Option (List ℕ) → Option (List ℕ)
or_else none fallback = fallback
or_else (some value) fallback = some value

or_else-elim :
    (found : Option (List ℕ)) (same : Bool) (value : List ℕ) (fallback : Option (List ℕ))
    → or_else found (if same then some value else fallback)
      ≡ or_else
          (elim found [ none ↦ if same then some value else none | some later ↦ some later ])
          fallback
or_else-elim none true value fallback = refl
or_else-elim none false value fallback = refl
or_else-elim (some later) same value fallback = refl

setting-settings_onto :
    (es config : Config) (key : List ℕ)
    → setting (settings es config) key ≡ or_else (last_value es key) (setting config key)
unfolding setting
setting-settings_onto [] config key = refl
setting-settings_onto ((name, value) ∷ rest) config key =
    setting-settings_onto rest ((name, value) ∷ config) key
    ∙ or_else-elim (last_value rest key) (same_bytes name key) value (setting config key)

or_else-none : (found : Option (List ℕ)) → or_else found none ≡ found
or_else-none none = refl
or_else-none (some value) = refl

-- The map that the code makes of a file holds the last value of each key.
setting-settings : (es : Config) (key : List ℕ) → setting (settings es []) key ≡ last_value es key
unfolding setting
setting-settings es key = setting-settings_onto es [] key ∙ or_else-none (last_value es key)

is_set-settings :
    (es : Config) (key : List ℕ) → is_set (settings es []) key ≡ is_given (last_value es key)
is_set-settings es key = ap is_given (setting-settings es key)

is_yes_lem :
    (found : Option (List ℕ))
    → is_yes found ≡ elim found [ none ↦ false | some value ↦ same_bytes value (codes "yes") ]
is_yes_lem none = refl
is_yes_lem (some value) = refl

is_yes-settings : (es : Config) → is_yes (setting (settings es []) (codes "TLS")) ≡ asks_tls es
is_yes-settings es =
    ap is_yes (setting-settings es (codes "TLS")) ∙ is_yes_lem (last_value es (codes "TLS"))

num_threads-settings : (es : Config) → num_threads (settings es []) ≡ threads_asked es
unfolding num_threads
num_threads-settings es =
    ap (λ found. elim found [ none ↦ ok (pos 3) | some value ↦ stoi value ])
      (setting-settings es (codes "SERVER_THREADS"))

three_given :
    (a b c : Option (List ℕ))
    → (is_given a && is_given b && is_given c) ≡ elim a [
      | none ↦ false
      | some u ↦ elim b [ none ↦ false | some v ↦ elim c [ none ↦ false | some w ↦ true ] ]
    ]
three_given none b c = refl
three_given (some u) none c = refl
three_given (some u) (some v) none = refl
three_given (some u) (some v) (some w) = refl

has_settings-settings : (es : Config) → has_settings (settings es []) ≡ all_given es (needed es)
unfolding has_settings
has_settings-settings es = elim (Bool-cases (asks_tls es)) [
  | inl tls ↦
      rw
        (
          is_yes-settings es,
          tls,
          is_set-settings es (codes "FULLCHAIN"),
          is_set-settings es (codes "PKEY"),
          is_set-settings es (codes "TLS_PORT"),
        )
        (three_given (last_value es (codes "FULLCHAIN")) (last_value es (codes "PKEY"))
          (last_value es (codes "TLS_PORT")))
  | inr plain ↦ rw (is_yes-settings es, plain, is_set-settings es (codes "PORT")) refl
]

-- With a file that is not empty, of below 2^31 bytes, of lines as those of
-- parse_config-print_config, read at once: where a key that is needed is missing, the start is a
-- fatal error, and else it is the run, with TLS if the last value of TLS is yes, on as many
-- threads as std::stoi makes of the last value of SERVER_THREADS, or 3 where there is none.
-- Needed are FULLCHAIN, PKEY and TLS_PORT with TLS, and PORT without.
pub start_server-print_config :
    (es : Config) (results : List ReadResult)
    → AllSettings es
    → print_config es ≢ []
    → length (print_config es) < 2 ^ 31
    → start_server (some (length (print_config es), got (print_config es) ∷ results)) ≡ (
        if all_given es (needed es)
        then threads_asked es >>= (λ threads. ok (runs (asks_tls es) threads))
        else ok fatal_error)
unfolding start_server
start_server-print_config es results h some_text small =
    rw
      (
        read_config-once (print_config es) results some_text small,
        parse_config-print_config es [] h,
        has_settings-settings es,
        num_threads-settings es,
      )
      (ap
        (λ tls.
          if all_given es (needed es)
          then threads_asked es >>= (λ threads. ok (runs tls threads))
          else ok fatal_error)
        (is_yes-settings es))
