-- ===== src/Tcp/Slots.antt =====
-- The slots of `clients` (src/tcp_server/server_base.tcc, src/tcp_server/server_non_tls.cpp): which
-- are taken by a connection, which are free, and what a new connection gets.
use liburing_server.Prelude.{
  ℕ, ◌+◌, ◌%◌, ◌<◌, ◌≡◌, ◌≢◌, refl, sym, ap, ◌∙◌, arith, true, false, List, [], ◌∷◌, length,
  get_elem?, Option, none, some, if◌then◌else◌, ◌==◌, ℤ, has, erase, insert, insert_sorted,
  has-erase, has-insert, has-insert_sorted, length-append, length-set, get_elem?-set,
  get_elem?-snoc, get_elem?-some_of_lt, get_elem?-length, equals, Returns, Bool-cases, inl, inr,
  ne→not-==, ==_iff, eq→==, get_elem?-set_self,
}
use mathlib.Core.Path.{subst}
use liburing_server.Tcp.{
  Tcp, Client, new_client, put_client, close_fd, next_id, setup_client, reuse_client,
}
use liburing_server.Tcp.NonTls.{close_connection}
use liburing_server.Tcp.Loop.{same_id}

-- Active and free indices are slots, and no slot is both.
abbrev pub Slotted : ℕ → List ℕ → List ℕ → Type 0
Slotted size active free =
    ((i : ℕ) → has i active ≡ true → i < size)
    × ((i : ℕ) → has i free ≡ true → (i < size) × (has i active ≡ false))

abbrev pub IsSlotted : Tcp → Type 0
IsSlotted t = Slotted (length t.clients) t.active_connections t.freed_indexes

-- What `req_event_handler` makes of a new index.
abbrev pub activated : ℕ → Tcp → Tcp
activated i u = record u { active_connections = insert i u.active_connections }

next_id_new : (id : Option ℕ) → same_id id (some (next_id id)) ≡ false
next_id_new none = refl
next_id_new (some n) = ne→not-== n ((n + 1) % 100) (λ e. omega (arith, e))

-- What a new connection is to get: a slot that no active one has, under an id other than that of the
-- slot's last client. The slots of the others are to stay as they were.
abbrev pub GivesSlot : Tcp → ℤ → ℕ × Tcp → Type 0
GivesSlot t socket (i, u) =
    (has i t.active_connections ≡ false)
    × IsSlotted (activated i u)
    × ((c : Client) × (get_elem? u.clients i ≡ some c)
        × (c.sockfd ≡ socket)
        × ((old : Client) → get_elem? t.clients i ≡ some old → same_id old.id c.id ≡ false))
    × ((j : ℕ) → j ≢ i → get_elem? u.clients j ≡ get_elem? t.clients j)

one_client : {a b : Client} → some a ≡ some b → a ≡ b
one_client e = cc

no_client : {a : Client} → none ≡ some a → ⊥
no_client e = cc

unused : (size : ℕ) (active free : List ℕ) → Slotted size active free → has size active ≡ false
unused size active free (act, idle) = elim (Bool-cases (has size active)) [
  | inl taken ↦ absurd (omega (arith, act size taken))
  | inr out ↦ out
]

has_front : (x : ℕ) (rest : List ℕ) → has x (x ∷ rest) ≡ true
has_front x rest = ground arith

activate :
    (size x : ℕ) (active free : List ℕ)
    → x < size
    → Slotted size active free
    → Slotted size (insert x active) (erase x free)
activate size x active free inside (act, idle) = (
  λ i e. elim (Bool-cases (x == i)) [
    | inl same ↦ omega (arith, (==_iff x i).0 same)
    | inr other ↦ act i (ground (arith, has-insert x i active))
  ],
  λ i e.
      let (small, out) = idle i (ground (arith, has-erase x i free)) in
      (small, ground (arith, has-insert x i active, has-erase x i free)),
)

grow :
    (size : ℕ) (active : List ℕ)
    → Slotted size active []
    → Slotted (size + 1) (insert size active) []
grow size active (act, idle) = (
  λ i e. elim (Bool-cases (size == i)) [
    | inl same ↦ omega (arith, (==_iff size i).0 same)
    | inr other ↦ omega (arith, act i (ground (arith, has-insert size i active)))
  ],
  λ i e. absurd (ground arith),
)

reuse_found :
    (t : Tcp) (x : ℕ) (rest : List ℕ) (socket : ℤ) (freed : Client)
    → Slotted (length t.clients) t.active_connections (x ∷ rest)
    → get_elem? t.clients x ≡ some freed
    → GivesSlot t socket (x, reuse_client t x (x ∷ rest) socket freed)
reuse_found t x rest socket freed h e =
    let (inside, idle) = h.1 x (has_front x rest) in
    let new = record new_client { id = some (next_id freed.id); sockfd = socket } in
    (
      idle,
      rw (length-set t.clients x new)
          (activate (length t.clients) x t.active_connections (x ∷ rest) inside h),
      (
        new,
        get_elem?-set_self t.clients x new inside,
        refl,
        λ old f.
            ap (λ c. same_id c.id (some (next_id freed.id))) (one_client (sym f ∙ e))
            ∙ next_id_new freed.id,
      ),
      λ j other.
          get_elem?-set t.clients x j new inside ∙ rw (ne→not-== x j (λ s. other (sym s))) refl,
    )

-- Where active and free indices are slots and no slot is both, a new connection returns with a
-- slot that no active connection has and with its socket, under an id other than that of the last
-- client of the slot; the other slots are as they were, and with the slot made active no slot is
-- both again.
pub setup_client-GivesSlot :
    (t : Tcp) (socket : ℤ)
    → IsSlotted t
    → Returns (GivesSlot t socket) (setup_client t t.freed_indexes socket)
unfolding setup_client
setup_client-GivesSlot t socket h = by_free t.freed_indexes refl
  where
    new : Client
    new = record new_client { sockfd = socket }

    by_free :
        (free : List ℕ)
        → t.freed_indexes ≡ free
        → Returns (GivesSlot t socket) (setup_client t free socket)
    by_free [] none_free = (
      unused (length t.clients) t.active_connections t.freed_indexes h,
      rw (none_free, length-append t.clients (new ∷ []))
          (grow (length t.clients) t.active_connections
            (subst (Slotted (length t.clients) t.active_connections) none_free h)),
      (
        new,
        get_elem?-snoc t.clients new (length t.clients)
            ∙ rw (eq→== (length t.clients) (length t.clients) refl) refl,
        refl,
        λ old f. absurd (no_client (sym (get_elem?-length t.clients) ∙ f)),
      ),
      λ j other.
          get_elem?-snoc t.clients new j
          ∙ rw (ne→not-== (length t.clients) j (λ e. other (sym e))) refl,
    )
    by_free (x ∷ rest) some_free =
        let g : Slotted (length t.clients) t.active_connections (x ∷ rest) =
          subst (Slotted (length t.clients) t.active_connections) some_free h in
        let (freed, e) = get_elem?-some_of_lt t.clients x (g.1 x (has_front x rest)).0 in
        rw e (reuse_found t x rest socket freed g e)

deactivate :
    (size i : ℕ) (active free : List ℕ)
    → i < size
    → Slotted size active free
    → Slotted size (erase i active) (insert_sorted i free)
deactivate size i active free inside (act, idle) = (
  λ j e. act j (ground (arith, has-erase i j active)),
  λ j e. elim (Bool-cases (i == j)) [
    | inl same ↦ (omega (arith, (==_iff i j).0 same), ground (arith, has-erase i j active))
    | inr other ↦
        let (small, out) = idle j (ground (arith, has-insert_sorted i j free)) in
        (small, ground (arith, has-erase i j active))
  ],
)

pub close_found :
    (t : Tcp) (i : ℕ) (c : Client)
    → IsSlotted t
    → i < length t.clients
    → IsSlotted (
        if equals c.num_write_reqs 0
        then record (close_fd (put_client t i (record c { send_data = [] })) c.sockfd) {
          active_connections = erase i t.active_connections;
          freed_indexes = insert_sorted i t.freed_indexes;
        }
        else t)
close_found t i c h inside = elim (Bool-cases (equals c.num_write_reqs 0)) [
  | inl idle ↦
      rw (idle, length-set t.clients i (record c { send_data = [] }))
        (deactivate (length t.clients) i t.active_connections t.freed_indexes inside h)
  | inr busy ↦ rw busy h
]

-- Where active and free indices are slots and no slot is both, closing an existing client
-- returns, and leaves it so.
close_connection-IsSlotted :
    (t : Tcp) (i : ℕ)
    → IsSlotted t
    → i < length t.clients
    → Returns IsSlotted (close_connection t i)
unfolding close_connection
close_connection-IsSlotted t i h inside =
    let (c, e) = get_elem?-some_of_lt t.clients i inside in rw e (close_found t i c h inside)
