-- ===== src/Central/Config.antt =====
-- `start_server`: the configuration file is read, cut into lines and into settings, and decides what
-- is run. `strtok_r` and `stoi` are written out as the source uses them.
pub mod Line
pub mod RoundTrip
pub mod Reading
pub mod Started
use liburing_server.Prelude.{
  ℕ, zero, suc, ◌+◌, ◌-◌, ◌*◌, ◌%◌, ◌^◌, Bool, true, false, not, ◌&&◌, ◌||◌, List, [], ◌∷◌, ◌++◌,
  length, get_elem?, set, drop, Option, none, some, Outcome, ok, undefined, thrown, stuck, access,
  ◌>>=◌, if◌then◌else◌, ◌==◌, ltb, leb, ℤ, pos, negsuc, increment, decrement, same_bytes, replicate,
}
use liburing_server.Tcp.{size_mod}
use liburing_server.Tcp.Loop.{to_size}
use liburing_server.Web.Text.{codes, c_string, tokens}
use liburing_server.Web.Http.{copy_front}

-- What `read` answers: some bytes of the file, or -1.
pub data ReadResult : Type 0 where
  got : List ℕ → ReadResult
  failed : ReadResult

abbrev pub plus : ℤ → ℕ → ℤ
plus z zero = z
plus z (suc n) = plus (increment z) n

-- `int`, of 32 bits: a sum is cut to them.
abbrev pub cut_to_int : ℕ → ℤ
cut_to_int n =
    let low = n % 2 ^ 32 in if ltb low (2 ^ 31) then pos low else negsuc (2 ^ 32 - 1 - low)

abbrev pub wrap_int : ℤ → ℤ
wrap_int (pos n) = cut_to_int n
wrap_int (negsuc n) = cut_to_int (2 ^ 32 - 1 - n % 2 ^ 32)

-- `while(read_amount != file_size)`: every read puts its bytes at the front of the buffer. The
-- results of the reads come from outside; with no more of them the loop still runs.
unfoldable pub read_loop : List ReadResult → ℕ → ℤ → List ℕ → Outcome (List ℕ)
unfolding copy_front
read_loop [] file_size read_amount config =
    if to_size read_amount == file_size then ok config else stuck
read_loop (failed ∷ results) file_size read_amount config =
    let rest = read_loop results file_size (wrap_int (decrement read_amount)) config in
    if to_size read_amount == file_size then ok config else rest
read_loop (got chunk ∷ results) file_size read_amount config =
    if to_size read_amount == file_size
    then ok config
    else copy_front config chunk >>= (λ config'.
      read_loop results file_size (wrap_int (plus read_amount (length chunk))) config')

-- The text of the file, ended by a zero.
unfoldable pub read_config : List ReadResult → ℕ → Outcome (List ℕ)
read_config results file_size = do
  config ← read_loop results file_size (pos 0) (replicate ((file_size + 1) % size_mod) 0)
  if ltb file_size (length config) then ok (set config file_size 0) else undefined

-- `for(int i = 0; i < length; i++)`, with the rounds left: spaces are counted, and the bytes behind
-- them move up.
unfoldable pub squeeze : ℕ → ℕ → ℕ → List ℕ → Outcome (ℕ × List ℕ)
squeeze zero i shrink_by line = ok (shrink_by, line)
squeeze (suc rounds) i shrink_by line = access (get_elem? line i) >>= (λ c.
    let counted = squeeze rounds (i + 1) (shrink_by + 1) line in
    let moved = squeeze rounds (i + 1) shrink_by (set line (i - shrink_by) c) in
    if c == 32 then counted else moved)

-- A zero goes behind the last byte if there were spaces. Without any, nothing ends the line.
unfoldable pub remove_spaces : List ℕ → Outcome (List ℕ)
unfolding squeeze
remove_spaces line = squeeze (length line) 0 0 line >>= (λ (shrink_by, squeezed).
    ok (if ltb 0 shrink_by then set squeezed (length line - shrink_by) 0 else squeezed))

-- `strtok_r` with one delimiter, on all the memory behind its pointer: the token, and where the next
-- call goes on. A call that finds no end in the memory reads past it.
unfoldable pub skip_delims : ℕ → List ℕ → Outcome (List ℕ)
skip_delims d [] = undefined
skip_delims d (x ∷ xs) = let rest = skip_delims d xs in if x == d then rest else ok (x ∷ xs)

unfoldable pub scan : ℕ → List ℕ → Outcome (List ℕ × List ℕ)
scan d [] = undefined
scan d (x ∷ xs) =
    let rest = scan d xs in
    if x == 0
    then ok ([], x ∷ xs)
    else if x == d
    then ok ([], xs)
    else rest >>= (λ (token, left). ok (x ∷ token, left))

-- A string made of the null pointer that stands for no token is undefined.
abbrev pub token_of : ℕ → List ℕ → Outcome (List ℕ × List ℕ)
token_of d [] = undefined
token_of d (x ∷ xs) = if x == 0 then undefined else scan d (x ∷ xs)

unfoldable pub strtok : ℕ → List ℕ → Outcome (List ℕ × List ℕ)
strtok d mem = skip_delims d mem >>= (λ begin. token_of d begin)

-- `config_data_map`, the latest setting of a key in front.
abbrev pub Config : Type 0
Config = List (List ℕ × List ℕ)

unfoldable pub setting : Config → List ℕ → Option (List ℕ)
unfolding same_bytes
setting [] key = none
setting ((name, value) ∷ rest) key = if same_bytes name key then some value else setting rest key

-- One line: a comment is left out, and any other is a key and a value around a colon.
unfoldable pub add_line : List ℕ → Config → Outcome Config
unfolding remove_spaces strtok
add_line line config = do
  text ← remove_spaces line
  first ← access (get_elem? text 0)
  if first == 35
      then ok config
      else strtok 58 text
        >>= (λ (key, left). strtok 58 left >>= (λ (value, rest). ok ((key, value) ∷ config)))

unfoldable pub add_lines : List (List ℕ) → Config → Outcome Config
unfolding add_line
add_lines [] config = ok config
add_lines (line ∷ lines) config = add_line line config >>= add_lines lines

unfoldable pub parse_config : List ℕ → Outcome Config
unfolding c_string tokens add_lines
parse_config config = c_string config >>= (λ text. add_lines (tokens (codes "\n") text) [])

-- `std::stoi`: blanks, a sign, digits; without a digit or out of the range of an `int` it throws.
abbrev pub is_digit : ℕ → Bool
is_digit c = leb 48 c && leb c 57

abbrev pub is_blank : ℕ → Bool
is_blank c = c == 32 || (leb 9 c && leb c 13)

unfoldable pub digits : ℕ → List ℕ → ℕ
digits n [] = n
digits n (c ∷ cs) = let more = digits (n * 10 + (c - 48)) cs in if is_digit c then more else n

abbrev pub starts_with_digit : List ℕ → Bool
starts_with_digit [] = false
starts_with_digit (c ∷ cs) = is_digit c

unfoldable pub unsigned_stoi : Bool → List ℕ → Outcome ℤ
unfolding digits
unsigned_stoi negative text =
    let n = digits 0 text in
    if not (starts_with_digit text)
    then thrown
    else if negative
    then (if leb n (2 ^ 31) then ok (if n == 0 then pos 0 else negsuc (n - 1)) else thrown)
    else if ltb n (2 ^ 31)
    then ok (pos n)
    else thrown

unfoldable pub stoi : List ℕ → Outcome ℤ
unfolding unsigned_stoi
stoi [] = thrown
stoi (c ∷ cs) =
    let rest = stoi cs in
    if is_blank c
    then rest
    else if c == 45
    then unsigned_stoi true cs
    else if c == 43
    then unsigned_stoi false cs
    else unsigned_stoi false (c ∷ cs)

-- What `start_server` comes to: the end of the process with a message, or `run` on some threads.
pub data Start : Type 0 where
  fatal_error : Start
  runs : Bool → ℤ → Start

abbrev pub is_set : Config → List ℕ → Bool
is_set config key = elim (setting config key) [ none ↦ false | some value ↦ true ]

abbrev pub is_yes : Option (List ℕ) → Bool
is_yes none = false
is_yes (some value) = same_bytes value (codes "yes")

unfoldable pub has_settings : Config → Bool
unfolding setting same_bytes
has_settings config =
    if is_yes (setting config (codes "TLS"))
    then is_set config (codes "FULLCHAIN")
      && is_set config (codes "PKEY")
      && is_set config (codes "TLS_PORT")
    else is_set config (codes "PORT")

unfoldable pub num_threads : Config → Outcome ℤ
unfolding setting stoi
num_threads config = elim (setting config (codes "SERVER_THREADS")) [
  | none ↦ ok (pos 3)
  | some value ↦ stoi value
]

-- `none` is a file that does not open.
unfoldable pub start_server : Option (ℕ × List ReadResult) → Outcome Start
unfolding read_config parse_config has_settings num_threads
start_server none = ok fatal_error
start_server (some (file_size, results)) = do
  text ← read_config results file_size
  config ← parse_config text
  if has_settings config
      then num_threads config
        >>= (λ threads. ok (runs (is_yes (setting config (codes "TLS"))) threads))
      else ok fatal_error
