-- ===== src/Web/Broadcast.antt =====
-- The count of the clients that a broadcast is still to be written to: `close_cb` and `write_cb` of
-- src/web_server/callbacks.tcc.
use liburing_server.Prelude.{
  ℕ, zero, suc, ◌≤◌, ◌<◌, ◌≡◌, refl, ◌∙◌, arith, true, [], ◌∷◌, ◌++◌, get_elem?, set, some, Outcome,
  ok, ◌>>=◌, if◌then◌else◌, ◌==◌, Returns, Returns-mono, get_elem?-set_self, lt_of_get_elem?,
  ne→not-==,
}
use liburing_server.Tcp.{size_mod}
use liburing_server.Web.{Web, Message, broadcast_finished, BroadcastItem, post_message_to_program}
use liburing_server.Web.Callbacks.{finish_broadcast, one_use_less}

-- `k` clients are done with the broadcast of index `i`, one after the other.
unfoldable pub finish_times : ℕ → Web → ℕ → Outcome Web
finish_times zero w i = ok w
finish_times (suc k) w i = finish_broadcast w (some i) >>= (λ u. finish_times k u i)

abbrev pub finished : BroadcastItem → ℕ → Message
finished item i = record {
  msg_type = broadcast_finished;
  buff_ptr = item.buff_ptr;
  length = item.data_len;
  item_idx = i;
}

one_less : (m : ℕ) → suc m < size_mod → one_use_less (suc m) ≡ m
one_less m h = omega arith

pub next_times :
    (w : Web) (i m : ℕ) (item : BroadcastItem)
    → get_elem? w.broadcast_data i ≡ some item
    → item.uses ≡ suc m
    → suc m < size_mod
    → finish_broadcast w (some i)
      ≡ ok (
          if m == 0
          then post_message_to_program
              (record w { broadcast_data = set w.broadcast_data i (record item { uses = m }) })
              (finished item i)
          else record w { broadcast_data = set w.broadcast_data i (record item { uses = m }) })
unfolding finish_broadcast
next_times w i m item e uses small = rw (e, uses, one_less m small) refl

-- With the TCP server set and a broadcast that counts between 1 and 2^64 - 1 clients, and up to
-- as many of them done with it one after the other, the code returns, and the queue to the
-- program thread has one message more, that it is finished, if the last of them is done, and is
-- as it was if not.
pub finish_broadcast-once :
    (k : ℕ) (w : Web) (i m : ℕ) (item : BroadcastItem)
    → w.has_tcp_server ≡ true
    → get_elem? w.broadcast_data i ≡ some item
    → item.uses ≡ suc m
    → suc m < size_mod
    → k ≤ suc m
    → Returns
        (λ u. u.to_program_queue ≡ (
          if k == suc m then w.to_program_queue ++ (finished item i ∷ []) else w.to_program_queue))
        (finish_times k w i)
unfolding finish_times post_message_to_program
finish_broadcast-once zero w i m item on e uses small h = ground arith
finish_broadcast-once (suc zero) w i zero item on e uses small h =
    rw (next_times w i zero item e uses small, on) refl
finish_broadcast-once (suc (suc k)) w i zero item on e uses small h = absurd (omega arith)
finish_broadcast-once (suc k) w i (suc m) item on e uses small h =
    rw (next_times w i (suc m) item e uses small, ne→not-== (suc m) 0 (λ z. omega arith))
      (Returns-mono _ _ (finish_times k counted i) (λ u q. q ∙ ground arith)
        (finish_broadcast-once k counted i m (record item { uses = suc m }) on
          (get_elem?-set_self w.broadcast_data i _ (lt_of_get_elem? w.broadcast_data i e)) refl
          (omega arith) (omega arith)))
  where
    counted : Web
    counted = record w { broadcast_data = set w.broadcast_data i (record item { uses = suc m }) }
