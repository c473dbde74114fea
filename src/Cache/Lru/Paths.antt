-- ===== src/Cache/Lru/Paths.antt =====
-- The paths of the files in the cache, over the changes of its list.
use liburing_server.Prelude.{
  false_ne_true, ℕ, ◌≡◌, refl, sym, ap, ◌∙◌, false, List, [], ◌∷◌, ◌++◌, Option, none, some,
  if◌then◌else◌, same_bytes, same_bytes_refl, eq_of_same_bytes, All, Bool-cases, inl, inr,
}
use liburing_server.Cache.Lru.{
  Entry, Place, behind, find, slots_of, slot_of, locked_once, DistinctPaths,
}

pub slots_of-append : (xs ys : List Entry) → slots_of (xs ++ ys) ≡ slots_of xs ++ slots_of ys
slots_of-append [] ys = refl
slots_of-append (x ∷ xs) ys = ap (◌∷◌ x.slot) (slots_of-append xs ys)

abbrev pub or_else : Option ℕ → Option ℕ → Option ℕ
or_else none o = o
or_else (some i) o = some i

or_else-none : (o : Option ℕ) → or_else o none ≡ o
or_else-none none = refl
or_else-none (some i) = refl

slot_of-append :
    (p : List ℕ) (xs ys : List Entry) → slot_of p (xs ++ ys) ≡ or_else (slot_of p xs) (slot_of p ys)
slot_of-append p [] ys = refl
slot_of-append p (x ∷ xs) ys = elim (Bool-cases (same_bytes x.filepath p)) [
  | inl hit ↦ rw hit refl
  | inr miss ↦ rw miss (slot_of-append p xs ys)
]

-- What `find` answers.
abbrev pub Found : List ℕ → List Entry → Option Place → Type 0
Found p es none = slot_of p es ≡ none
Found p es (some place) =
    (es ≡ place.before ++ (place.here ∷ place.after)) × (slot_of p es ≡ some place.here.slot)

pub find-Found : (p : List ℕ) (es : List Entry) → Found p es (find p es)
unfolding find
find-Found p [] = refl
find-Found p (e ∷ es) = elim (Bool-cases (same_bytes e.filepath p)) [
  | inl hit ↦ rw hit (refl, rw hit refl)
  | inr miss ↦ rw miss (later miss (find p es) (find-Found p es))
]
  where
    later :
        same_bytes e.filepath p ≡ false
        → (o : Option Place) → Found p es o
        → Found p (e ∷ es) (behind e o)
    later miss none h = rw miss h
    later miss (some place) (split, here) = (ap (◌∷◌ e) split, rw miss here)

-- No path of the first is among the second.
abbrev pub Apart : List Entry → List Entry → Type 0
Apart xs ys = All (λ e. slot_of e.filepath ys ≡ none) xs

DistinctPaths-append :
    (xs ys : List Entry)
    → DistinctPaths xs
    → DistinctPaths ys
    → Apart xs ys
    → DistinctPaths (xs ++ ys)
DistinctPaths-append [] ys h g apart = g
DistinctPaths-append (x ∷ xs) ys (out, h) g (away, apart) =
    (slot_of-append x.filepath xs ys ∙ rw out away, DistinctPaths-append xs ys h g apart)

left_none : (o o' : Option ℕ) → or_else o o' ≡ none → (o ≡ none) × (o' ≡ none)
left_none none o' h = (refl, h)
left_none (some i) o' h = cc

DistinctPaths-parts :
    (xs ys : List Entry)
    → DistinctPaths (xs ++ ys)
    → DistinctPaths xs × DistinctPaths ys × Apart xs ys
DistinctPaths-parts [] ys g = (tt, g, tt)
DistinctPaths-parts (x ∷ xs) ys (out, g) =
    let (h, h', apart) = DistinctPaths-parts xs ys g in
    let (out', away) =
      left_none (slot_of x.filepath xs) (slot_of x.filepath ys)
        (sym (slot_of-append x.filepath xs ys) ∙ out) in
    ((out', h), h', (away, apart))

not_same : (p q : List ℕ) → same_bytes q p ≡ false → same_bytes p q ≡ false
not_same p q h = elim (Bool-cases (same_bytes p q)) [
  | inl same ↦ absurd (
      false_ne_true
        (sym h ∙ ap (λ k. same_bytes k p) (sym (eq_of_same_bytes p q same)) ∙ same_bytes_refl p))
  | inr differ ↦ differ
]

-- A path that is not among some entries, as the last one behind them.
Apart-last : (e : Entry) (xs : List Entry) → slot_of e.filepath xs ≡ none → Apart xs (e ∷ [])
Apart-last e [] h = tt
Apart-last e (x ∷ xs) h = elim (Bool-cases (same_bytes x.filepath e.filepath)) [
  | inl hit ↦ absurd (found (sym (rw hit refl) ∙ h))
  | inr miss ↦
      (rw (not_same e.filepath x.filepath miss) refl, Apart-last e xs (sym (rw miss refl) ∙ h))
]
  where
    found : some x.slot ≡ none → ⊥
    found q = cc

-- An entry behind all others.
pub slot_of-snoc :
    (q : List ℕ) (xs : List Entry) (e : Entry)
    → slot_of e.filepath xs ≡ none
    → slot_of q (xs ++ (e ∷ [])) ≡ (if same_bytes e.filepath q then some e.slot else slot_of q xs)
slot_of-snoc q xs e out = elim (Bool-cases (same_bytes e.filepath q)) [
  | inl hit ↦
      let none_there : slot_of q xs ≡ none =
        ap (λ k. slot_of k xs) (sym (eq_of_same_bytes e.filepath q hit)) ∙ out in
      slot_of-append q xs (e ∷ []) ∙ rw (hit, none_there) refl
  | inr miss ↦ slot_of-append q xs (e ∷ []) ∙ rw miss (or_else-none (slot_of q xs))
]

pub DistinctPaths-snoc :
    (xs : List Entry) (e : Entry)
    → DistinctPaths xs
    → slot_of e.filepath xs ≡ none
    → DistinctPaths (xs ++ (e ∷ []))
DistinctPaths-snoc xs e h out = DistinctPaths-append xs (e ∷ []) h (refl, tt) (Apart-last e xs out)

-- An entry goes to the end: every path has the slot that it had.
pub slot_of-moved :
    (q : List ℕ) (xs : List Entry) (e : Entry) (ys : List Entry)
    → DistinctPaths (xs ++ (e ∷ ys))
    → slot_of q (xs ++ (ys ++ (locked_once e ∷ []))) ≡ slot_of q (xs ++ (e ∷ ys))
slot_of-moved q xs e ys h =
    let (hx, (out, hy), apart) = DistinctPaths-parts xs (e ∷ ys) h in
    slot_of-append q xs (ys ++ (locked_once e ∷ []))
    ∙ ap (or_else (slot_of q xs)) (slot_of-snoc q ys (locked_once e) out)
    ∙ sym (slot_of-append q xs (e ∷ ys))

pub DistinctPaths-moved :
    (xs : List Entry) (e : Entry) (ys : List Entry)
    → DistinctPaths (xs ++ (e ∷ ys))
    → DistinctPaths (xs ++ (ys ++ (locked_once e ∷ [])))
DistinctPaths-moved xs e ys h =
    let (hx, (out, hy), apart) = DistinctPaths-parts xs (e ∷ ys) h in
    DistinctPaths-append xs (ys ++ (locked_once e ∷ [])) hx
      (DistinctPaths-snoc ys (locked_once e) hy out) (moved_apart xs apart out)
  where
    moved_apart :
        (xs : List Entry)
        → Apart xs (e ∷ ys)
        → slot_of e.filepath ys ≡ none
        → Apart xs (ys ++ (locked_once e ∷ []))
    moved_apart [] a out = tt
    moved_apart (x ∷ xs) (away, a) out =
        (slot_of-snoc x.filepath ys (locked_once e) out ∙ away, moved_apart xs a out)
