-- ===== src/Web/Accept.antt =====
-- A new connection, through the event loop and the callback of the web server: `event_type::ACCEPT`
-- of src/tcp_server/server_non_tls.cpp with src/web_server/callbacks.tcc.
use liburing_server.Prelude.{
  ℕ, ◌<◌, refl, true, List, [], ◌∷◌, length, get_elem?, Outcome, ok, undefined, thrown, stuck, ℤ,
  Returns, Returns-bind, All-set, All-get, All-append, length-set, get_elem?-some_of_lt, Bool-cases,
  Option-cases, lt_of_get_elem?, inl, inr,
}
use liburing_server.Tcp.{Tcp, EventType, read, setup_client, add_read_req, add_tcp_accept_req}
use liburing_server.Tcp.Plain.{handle_accept}
use liburing_server.Tcp.Writes.{AllOrderly, IsOrderly}
use liburing_server.Tcp.Slots.{IsSlotted, GivesSlot, activated, setup_client-GivesSlot}
use liburing_server.Web.{Env, Server}
use liburing_server.Web.Callbacks.{web_callbacks, accept_cb}

-- What the event loop keeps between two completions.
abbrev pub IsSound : Tcp → Type 0
IsSound t = IsSlotted t × AllOrderly t

Returns-both :
    {A : Type 0} (P Q : A → Type 0) (m : Outcome A)
    → Returns P m
    → Returns Q m
    → Returns (λ a. P a × Q a) m
Returns-both P Q (ok a) p q = (p, q)
Returns-both P Q undefined p q = absurd p
Returns-both P Q thrown p q = absurd p
Returns-both P Q stuck p q = absurd p

setup_client-AllOrderly :
    (t : Tcp) (free : List ℕ) (socket : ℤ)
    → AllOrderly t
    → Returns (GivesSlot t socket) (setup_client t free socket)
    → Returns (λ (i, u). AllOrderly u) (setup_client t free socket)
unfolding setup_client
setup_client-AllOrderly t [] socket h g = All-append IsOrderly t.clients _ h (refl, tt)
setup_client-AllOrderly t (x ∷ rest) socket h g = elim (Option-cases (get_elem? t.clients x)) [
  | inl m ↦ absurd (rw m at g)
  | inr (freed, m) ↦ rw m (All-set IsOrderly t.clients x _ h refl)
]

read_started :
    (t : Tcp) (i : ℕ) (event : EventType)
    → i < length t.clients
    → IsSound t
    → Returns IsSound (add_read_req t i event)
unfolding add_read_req
read_started t i event inside (slots, h) =
    let (c, e) = get_elem?-some_of_lt t.clients i inside in
    rw e (elim (Bool-cases c.read_req_active) [
      | inl busy ↦ rw busy (slots, h)
      | inr idle ↦ rw idle (
        rw (length-set t.clients i (record c { read_req_active = true })) slots,
        All-set IsOrderly t.clients i (record c { read_req_active = true }) h
            (All-get IsOrderly t.clients i h e),
      )
    ])

-- Where active and free indices are slots and no slot is both, and every client has
-- num_write_reqs 1 with data in its queue and 0 without, the handling of a completed accept with
-- the callbacks of the web server returns, and leaves it so, whatever the result of the accept
-- is.
pub handle_accept-IsSound :
    (env : Env) (res : ℤ) (s : Server)
    → IsSound s.tcp
    → Returns (λ s'. IsSound s'.tcp) (handle_accept (web_callbacks env) res s)
unfolding handle_accept add_tcp_accept_req accept_cb
handle_accept-IsSound env res s (slots, h) =
    let listening = add_tcp_accept_req s.tcp in
    let given = setup_client-GivesSlot listening res slots in
    Returns-bind (λ r. GivesSlot listening res r × AllOrderly r.1) (λ s'. IsSound s'.tcp)
      (setup_client listening listening.freed_indexes res) _
      (Returns-both (GivesSlot listening res) (λ r. AllOrderly r.1)
        (setup_client listening listening.freed_indexes res) given
        (setup_client-AllOrderly listening listening.freed_indexes res h given))
      (λ (i, u) ((unused, slotted, (c, at, same, fresh), others), orderly).
        Returns-bind IsSound (λ s'. IsSound s'.tcp) (add_read_req (activated i u) i read) _
          (read_started (activated i u) i read (lt_of_get_elem? u.clients i at) (slotted, orderly))
          (λ v sound. sound))
