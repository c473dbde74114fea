-- ===== src/Ws/Stream.antt =====
-- Client frames are frames for the receiving side, and so are their beginnings of ten bytes or more.
use liburing_server.Prelude.{
  ℕ, ◌+◌, ◌<◌, ◌≤◌, ◌≡◌, sym, ap, ◌∙◌, arith, Bool, List, [], ◌++◌, length, drop, le→leb,
  append-nil, length-append, drop-append_left, take-append_left, length-drop, get_elem?-append_left,
}
use liburing_server.Ws.Frame.{get_ws_frame_length, extended_length, read_bytes, u64_mod}
use liburing_server.Ws.Decode.Unmask.{mask_key}
use liburing_server.Ws.Decode.RoundTrip.{
  client_frame, length-client_frame, get_ws_frame_length-client_frame,
}
use liburing_server.Ws.Reassembly.Whole.{IsFrame, IsBeginning}
use liburing_server.Ws.Frame.Length.{header_size}

read_bytes_prefix :
    (part rest : List ℕ) (offset n : ℕ)
    → offset + n ≤ length part
    → read_bytes (part ++ rest) offset n ≡ read_bytes part offset n
unfolding read_bytes
read_bytes_prefix part rest offset n h = rw (
  le→leb (offset + n) (length part) h,
  le→leb (offset + n) (length (part ++ rest)) (omega (arith, length-append part rest)),
  drop-append_left offset part rest (omega arith),
  take-append_left n (drop offset part) rest (omega (arith, length-drop offset part)),
)

-- The length is read from the first ten bytes at most.
get_ws_frame_length_prefix :
    (part rest : List ℕ)
    → 10 ≤ length part
    → get_ws_frame_length (part ++ rest) ≡ get_ws_frame_length part
unfolding get_ws_frame_length extended_length
get_ws_frame_length_prefix part rest h = rw (
  get_elem?-append_left part rest 1 (omega arith),
  read_bytes_prefix part rest 2 2 (omega arith),
  read_bytes_prefix part rest 2 8 (omega arith),
)

module _ (fin : Bool) (opcode k0 k1 k2 k3 : ℕ) (payload : List ℕ)
    (fits : length payload + 14 < u64_mod) where
  -- A client frame is measured right wherever it stands.
  pub client_frame-IsFrame : IsFrame (client_frame fin opcode (mask_key k0 k1 k2 k3) payload)
  client_frame-IsFrame = (
    omega (
      arith,
      length-client_frame fin opcode k0 k1 k2 k3 payload,
      header_size_ge (length payload),
    ),
    λ rest. get_ws_frame_length-client_frame fin opcode k0 k1 k2 k3 payload rest fits,
  )
    where
      header_size_ge : (n : ℕ) → 6 ≤ header_size n
      header_size_ge n = ground arith

  -- So is what a read brings of it, if that is not all and ten bytes at least.
  pub client_frame-IsBeginning :
      (part more : List ℕ)
      → client_frame fin opcode (mask_key k0 k1 k2 k3) payload ≡ part ++ more
      → 10 ≤ length part
      → 0 < length more
      → IsBeginning part (length (client_frame fin opcode (mask_key k0 k1 k2 k3) payload))
  client_frame-IsBeginning part more e h some_left = (
    omega (arith, ap length e, length-append part more),
    λ rest long.
        get_ws_frame_length_prefix part rest h
        ∙ sym (get_ws_frame_length_prefix part (more ++ []) h)
        ∙ ap get_ws_frame_length joined
        ∙ get_ws_frame_length-client_frame fin opcode k0 k1 k2 k3 payload [] fits,
  )
    where
      joined : part ++ (more ++ []) ≡ client_frame fin opcode (mask_key k0 k1 k2 k3) payload ++ []
      joined =
          ap (◌++◌ part) (append-nil more)
          ∙ sym e
          ∙ sym (append-nil (client_frame fin opcode (mask_key k0 k1 k2 k3) payload))
