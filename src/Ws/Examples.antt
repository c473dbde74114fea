-- ===== src/Ws/Examples.antt =====
-- Tests, and the theorems about frames at concrete inputs.
use liburing_server.Prelude.{
  ℕ, ◌+◌, ◌≡◌, refl, arith, true, List, [], ◌∷◌, ◌++◌, length, take, drop, some, ok, stuck, pos,
  negsuc,
}
use liburing_server.Ws.Frame.{make_ws_frame, get_ws_frame_length, text_frame}
use liburing_server.Ws.Frame.Laws.{make_ws_frame_lem, server_frame}
use liburing_server.Ws.Decode.{decode_websocket_frame, final}
use liburing_server.Ws.Decode.Unmask.{mask_key}
use liburing_server.Ws.Decode.RoundTrip.{
  client_frame, decode-client_frame, get_ws_frame_length-client_frame,
}
use liburing_server.Ws.Reassembly.{no_receiving_data, known_length, receive}
use liburing_server.Ws.Frame.Length.{masked_size}
use liburing_server.Ws.Reassembly.Whole.{concat, kept, receive_whole, IsBeginning}
use liburing_server.Ws.Reassembly.Split.{receive_rest}
use liburing_server.Ws.Reassembly.Faults.{huge, receive_endless, known_length_misread}
use liburing_server.Ws.Stream.{client_frame-IsFrame, client_frame-IsBeginning}

-- "Hi", and a key.
abbrev greeting : List ℕ
greeting = 72 ∷ 105 ∷ []

abbrev key : List ℕ
key = mask_key 1 2 3 255

abbrev frame : List ℕ
frame = 129 ∷ 130 ∷ 1 ∷ 2 ∷ 3 ∷ 255 ∷ 73 ∷ 107 ∷ []

client_frame_run : client_frame true 1 key greeting ≡ frame
unfolding client_frame
client_frame_run = refl

make_ws_frame_lem_example : make_ws_frame greeting text_frame ≡ server_frame greeting text_frame
make_ws_frame_lem_example = make_ws_frame_lem greeting text_frame (omega arith)

decode-client_frame_example :
    decode_websocket_frame (client_frame true 1 key greeting) ≡ ok (final, greeting)
decode-client_frame_example =
    decode-client_frame true 1 1 2 3 255 greeting (omega arith) (omega arith) (omega arith)
      (omega arith) (omega arith) (omega arith)

get_ws_frame_length-client_frame_example :
    get_ws_frame_length (client_frame true 1 key greeting ++ (7 ∷ []))
    ≡ ok (length (client_frame true 1 key greeting))
get_ws_frame_length-client_frame_example =
    get_ws_frame_length-client_frame true 1 1 2 3 255 greeting (7 ∷ []) (omega arith)

-- Eleven bytes of a frame with eight payload bytes, and the last three.
abbrev long_frame : List ℕ
long_frame = client_frame true 2 key (1 ∷ 2 ∷ 3 ∷ 4 ∷ 5 ∷ 6 ∷ 7 ∷ 8 ∷ [])

begun_IsBeginning : IsBeginning (take 11 long_frame) 14
unfolding client_frame
begun_IsBeginning =
    client_frame-IsBeginning true 2 1 2 3 255 (1 ∷ 2 ∷ 3 ∷ 4 ∷ 5 ∷ 6 ∷ 7 ∷ 8 ∷ []) (omega arith)
      (take 11 long_frame) (drop 11 long_frame) refl (omega arith) (omega arith)

receive_whole_example :
    receive
      (length (concat (client_frame true 1 key greeting ∷ []) ++ take 11 long_frame) + 1)
      no_receiving_data
      ((concat (client_frame true 1 key greeting ∷ []) ++ take 11 long_frame) ++ (0 ∷ []))
      (length (concat (client_frame true 1 key greeting ∷ []) ++ take 11 long_frame))
    ≡ ok (
      some (client_frame true 1 key greeting ∷ []),
      kept (take 11 long_frame) 14 no_receiving_data,
    )
receive_whole_example =
    receive_whole (client_frame true 1 key greeting ∷ []) 14 (take 11 long_frame) (0 ∷ [])
      (client_frame-IsFrame true 1 1 2 3 255 greeting (omega arith), tt) begun_IsBeginning

receive_rest_example :
    receive
      (length (drop 11 long_frame ++ []) + 1)
      (kept
        (take 11 long_frame)
        (length (take 11 long_frame ++ drop 11 long_frame))
        no_receiving_data)
      ((drop 11 long_frame ++ []) ++ [])
      (length (drop 11 long_frame ++ []))
    ≡ ok (some ((take 11 long_frame ++ drop 11 long_frame) ∷ []), no_receiving_data)
unfolding client_frame
receive_rest_example =
    receive_rest (take 11 long_frame) (drop 11 long_frame) [] 14 [] [] (omega arith) (omega arith)
      tt (omega arith, λ rest long. absurd (omega arith))

receive_endless_example :
    receive 100 no_receiving_data
      (130 ∷ (masked_size huge ++ []))
      (length (130 ∷ (masked_size huge ++ [])))
    ≡ stuck
receive_endless_example = receive_endless 100 130 []

known_length_misread_example :
    known_length
      (record { length = negsuc 0; buffer = take 5 long_frame })
      (254 ∷ 0 ∷ 0 ∷ 6 ∷ 5 ∷ [])
      5
    ≡ ok (some (pos 6))
unfolding client_frame
known_length_misread_example =
    known_length_misread (take 5 long_frame) 254 0 (0 ∷ 6 ∷ 5 ∷ []) (omega arith) (omega arith)
      (omega arith) (omega arith)
