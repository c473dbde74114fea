-- ===== src/Web/Text.antt =====
-- Text as bytes, and what the web server uses of the C and C++ libraries on it.
use Prim.Native.Char.{code}
use Prim.Native.String.{String}
use liburing_server.Prelude.{
  ℕ, zero, suc, ◌+◌, ◌/◌, ◌%◌, Bool, true, false, List, [], ◌∷◌, ◌++◌, Outcome, ok, undefined,
  ◌>>=◌, if◌then◌else◌, ◌==◌, ltb, has,
}

-- The bytes of a literal of the source.
abbrev pub codes : String → List ℕ
codes String.[] = []
codes (String.◌∷◌ c s) = code c ∷ codes s

-- A C string in memory ends at the first zero; without one the read runs past the memory.
unfoldable pub c_string : List ℕ → Outcome (List ℕ)
c_string [] = undefined
c_string (x ∷ xs) = let rest = c_string xs in if x == 0 then ok [] else rest >>= (λ s. ok (x ∷ s))

abbrev pub flush : List ℕ → List (List ℕ) → List (List ℕ)
flush [] rest = rest
flush (x ∷ token) rest = (x ∷ token) ∷ rest

-- The tokens that `strtok_r` gives one after the other: the longest runs without a delimiter.
unfoldable pub tokens_from : List ℕ → List ℕ → List ℕ → List (List ℕ)
tokens_from delims token [] = flush token []
tokens_from delims token (x ∷ xs) =
    let ended = flush token (tokens_from delims [] xs) in
    let longer = tokens_from delims (token ++ (x ∷ [])) xs in if has x delims then ended else longer

unfoldable pub tokens : List ℕ → List ℕ → List (List ℕ)
unfolding tokens_from
tokens delims text = tokens_from delims [] text

unfoldable pub starts_with : List ℕ → List ℕ → Bool
starts_with [] text = true
starts_with (c ∷ cs) [] = false
starts_with (c ∷ cs) (x ∷ xs) = if c == x then starts_with cs xs else false

-- `find(part) != npos`.
unfoldable pub contains : List ℕ → List ℕ → Bool
unfolding starts_with
contains part [] = starts_with part []
contains part (x ∷ xs) = if starts_with part (x ∷ xs) then true else contains part xs

-- `std::to_string` of a number below 10 ^ fuel.
unfoldable pub decimal : ℕ → ℕ → List ℕ
decimal zero n = []
decimal (suc fuel) n =
    let front = decimal fuel (n / 10) in
    if ltb n 10 then (48 + n) ∷ [] else front ++ ((48 + n % 10) ∷ [])

-- A `uint64_t` has 20 digits at most.
unfoldable pub to_string : ℕ → List ℕ
unfolding decimal
to_string n = decimal 20 n
