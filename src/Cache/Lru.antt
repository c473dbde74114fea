-- ===== src/Cache/Lru.antt =====
-- The cache as a list of its files, from the least to the most recently used: the specification of
-- src/header/web_server/cache.h while no file changes on the disk.
mod Moves
mod Paths
pub mod Fetch
pub mod Insert
pub mod Finish
pub mod Runs
use liburing_server.Prelude.{
  ℕ, ◌+◌, ◌<◌, ◌≡◌, Bool, true, false, List, [], ◌∷◌, ◌++◌, map, length, Option, none, some,
  if◌then◌else◌, ◌==◌, ℤ, pos, increment, decrement, equals, has, same_bytes, All, IsSetList,
  put_index, erase,
}
use liburing_server.DataStore.{HashOrder}
use liburing_server.Cache.{Cache, CacheItem, TcpClient, FetchedItem}
use liburing_server.Cache.Linked.{Linked, front_of, back_of}

-- A file in the cache, its slot, and how often it is locked.
pub record Entry : Type 0 where
  pub slot : ℕ
  pub filepath : List ℕ
  pub bytes : List ℕ
  pub locks : ℤ

abbrev pub slots_of : List Entry → List ℕ
slots_of [] = []
slots_of (e ∷ es) = e.slot ∷ slots_of es

-- The entry of a path, between those that were used before it and those that were used after it.
pub record Place : Type 0 where
  pub before : List Entry
  pub here : Entry
  pub after : List Entry

abbrev pub behind : Entry → Option Place → Option Place
behind e none = none
behind e (some place) = some (record place { before = e ∷ place.before })

unfoldable pub find : List ℕ → List Entry → Option Place
find p [] = none
find p (e ∷ es) =
    let rest = find p es in
    if same_bytes e.filepath p
    then some (record { before = []; here = e; after = es })
    else behind e rest

abbrev pub slot_of : List ℕ → List Entry → Option ℕ
slot_of p [] = none
slot_of p (e ∷ es) = if same_bytes e.filepath p then some e.slot else slot_of p es

-- A fetch of a path that is there makes it the most recent, and locks it once more.
abbrev pub locked_once : Entry → Entry
locked_once e = record e { locks = increment e.locks }

abbrev pub touched : Place → List Entry
touched place = place.before ++ (place.after ++ (locked_once place.here ∷ []))

abbrev pub fetched : List Entry → Option Place → Option FetchedItem × List Entry
fetched es none = (none, es)
fetched es (some place) =
    (some (record { slot = place.here.slot; size = length place.here.bytes }), touched place)

-- An insertion into a cache with no free slot replaces the least recent file, if it is not locked.
abbrev pub fresh_entry : ℕ → List ℕ → List ℕ → Entry
fresh_entry i p bytes = record { slot = i; filepath = p; bytes = bytes; locks = pos 0 }

abbrev pub replaced : List ℕ → List ℕ → List Entry → Bool × List Entry
replaced p bytes [] = (false, [])
replaced p bytes (e ∷ es) =
    if equals e.locks 0 then (true, es ++ (fresh_entry e.slot p bytes ∷ [])) else (false, e ∷ es)

-- With a free slot, the file goes into one of them.
abbrev pub inserted : HashOrder → List ℕ → List ℕ → List ℕ → List Entry → Bool × List Entry
inserted order [] p bytes es = replaced p bytes es
inserted order (x ∷ xs) p bytes es = (true, es ++ (fresh_entry (order.first x xs) p bytes ∷ []))

-- The free slots that an insertion leaves.
abbrev pub left : HashOrder → List ℕ → List ℕ
left order [] = []
left order (x ∷ xs) = erase (order.first x xs) (x ∷ xs)

-- The client that fetched a file has its slot.
abbrev pub assigned : (ℕ → Option ℕ) → ℕ → Option Place → ℕ → Option ℕ
assigned m client_idx none = m
assigned m client_idx (some place) = put_index m client_idx (some place.here.slot)

-- A client that was given a file is using it.
abbrev pub using : TcpClient → Option Place → TcpClient
using client none = client
using client (some place) = record client { using_file = true }

-- The file in a slot, when a client has finished with it.
abbrev pub unlocked : ℕ → List Entry → List Entry
unlocked i [] = []
unlocked i (e ∷ es) =
    record e { locks = if e.slot == i then decrement e.locks else e.locks } ∷ unlocked i es

-- The slot of an entry is that of its file, its bytes and its locks.
abbrev pub Holds : Cache → Entry → Type 0
Holds c e =
    (e.slot < c.slots)
    × (has e.slot c.free_idxs ≡ false)
    × ((c.cache_buffer e.slot).buffer ≡ e.bytes)
    × ((c.cache_buffer e.slot).lock_number ≡ e.locks)
    × ((c.cache_buffer e.slot).outdated ≡ false)
    × (c.cache_idx_to_filepath e.slot ≡ some e.filepath)

-- A free slot is blank.
abbrev pub IsBlank : Cache → ℕ → Type 0
IsBlank c i =
    (i < c.slots) × ((c.cache_buffer i).lock_number ≡ pos 0) × ((c.cache_buffer i).outdated ≡ false)

abbrev pub DistinctPaths : List Entry → Type 0
DistinctPaths [] = Unit {0}
DistinctPaths (e ∷ es) = (slot_of e.filepath es ≡ none) × DistinctPaths es

pub record Represents (c : Cache) (es : List Entry) : Type 0 where
  pub linked : Linked c.cache_buffer none (slots_of es) none
  pub lowest : c.lowest_idx ≡ front_of (slots_of es) none
  pub highest : c.highest_idx ≡ back_of none (slots_of es)
  pub distinct : IsSetList (slots_of es)
  pub paths : (p : List ℕ) → c.filepath_to_cache_idx p ≡ slot_of p es
  pub once : DistinctPaths es
  pub held : All (Holds c) es
  pub free : (i : ℕ) → has i c.free_idxs ≡ true → IsBlank c i
  pub unique : IsSetList c.free_idxs
  pub all : length c.free_idxs + length es ≡ c.slots
