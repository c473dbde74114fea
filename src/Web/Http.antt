-- ===== src/Web/Http.antt =====
-- HTTP requests: `is_valid_http_req`, `get_content_type` and `send_file_request` of
-- src/web_server/web_server.tcc.
pub mod Valid
use liburing_server.Prelude.{
  ℕ, zero, suc, ◌+◌, ◌/◌, ◌%◌, ◌^◌, Bool, true, false, not, List, [], ◌∷◌, ◌++◌, length, get_elem?,
  set, Option, none, some, Outcome, ok, undefined, access, ◌>>=◌, if◌then◌else◌, ◌==◌, ltb, leb,
  pos, bit_and, bit_xor, same_bytes, replicate,
}
use liburing_server.Cache.{fetch_item}
use liburing_server.Tcp.{cache_slot, custom_read_req, size_mod}
use liburing_server.Tcp.NonTls.{write_connection_ptr}
use liburing_server.Ws.Frame.{write_bytes}
use liburing_server.Web.{Env, Server, on_server, get_file_size, tcp_client_at}
use liburing_server.Web.Text.{codes, tokens, to_string}

abbrev pub types : List (List ℕ)
types = codes "GET " ∷ codes "POST " ∷ codes "PUT " ∷ codes "DELETE " ∷ codes "PATCH " ∷ []

-- The innermost statement of the two loops: `type` is `types[j]`, and `c` is `buff[i]`.
unfoldable pub check_type : ℕ → ℕ → List ℕ → ℕ → ℕ → ℕ
check_type i j type c valid = elim (get_elem? type i) [
  | none ↦ valid
  | some t ↦
      if bit_and (valid / 2 ^ j) 0x1 == 0
      then valid
      else if t == c
      then valid
      else bit_and valid (bit_xor 0x1f (2 ^ j))
]

unfoldable pub check_types : ℕ → ℕ → List (List ℕ) → ℕ → ℕ → ℕ
unfolding check_type
check_types i j [] c valid = valid
check_types i j (type ∷ rest) c valid = check_types i (j + 1) rest c (check_type i j type c valid)

-- `for(int i = 0; i < 7; i++)`, with the rounds left.
unfoldable pub check_bytes : ℕ → ℕ → List ℕ → ℕ → Outcome ℕ
unfolding check_types
check_bytes zero i buff valid = ok valid
check_bytes (suc rounds) i buff valid =
    access (get_elem? buff i)
    >>= (λ c. check_bytes rounds (i + 1) buff (check_types i 0 types c valid))

unfoldable pub is_valid_http_req : List ℕ → ℕ → Outcome Bool
unfolding check_bytes
is_valid_http_req buff length =
    if ltb length 16
    then ok false
    else check_bytes 7 0 buff 0x1f >>= (λ valid. ok (not (valid == 0)))

-- The last of the tokens between dots.
abbrev pub last_token : List ℕ → List (List ℕ) → List ℕ
last_token found [] = found
last_token found (token ∷ rest) = last_token token rest

abbrev pub first_match : List (List ℕ × List ℕ) → List ℕ → List ℕ → List ℕ
first_match [] extension otherwise = otherwise
first_match ((name, content_type) ∷ rest) extension otherwise =
    if same_bytes extension name then content_type else first_match rest extension otherwise

abbrev pub content_types : List (List ℕ × List ℕ)
content_types =
    (codes "html", codes "Content-Type: text/html\r\n")
    ∷ (codes "htm", codes "Content-Type: text/html\r\n")
    ∷ (codes "css", codes "Content-Type: text/css\r\n")
    ∷ (codes "js", codes "Content-Type: text/javascript\r\n")
    ∷ (codes "opus", codes "Content-Type: audio/opus\r\n")
    ∷ (codes "mp3", codes "Content-Type: audio/mpeg\r\n")
    ∷ (codes "mp4", codes "Content-Type: video/mp4\r\n")
    ∷ (codes "gif", codes "Content-Type: image/gif\r\n")
    ∷ (codes "png", codes "Content-Type: image/png\r\n")
    ∷ (codes "jpg", codes "Content-Type: image/jpeg\r\n")
    ∷ (codes "jpeg", codes "Content-Type: image/jpeg\r\n")
    ∷ (codes "txt", codes "Content-Type: text/plain\r\n")
    ∷ (codes "wasm", codes "Content-Type: application/wasm\r\n")
    ∷ []

unfoldable pub get_content_type : List ℕ → List ℕ
unfolding tokens same_bytes
get_content_type filepath =
    first_match content_types (last_token [] (tokens (codes ".") filepath))
      (codes "Content-Type: application/octet-stream\r\n")

abbrev pub header_first_line : ℕ → List ℕ
header_first_line response_code =
    if response_code == 200 then codes "HTTP/1.0 200 OK\r\n" else codes "HTTP/1.0 404 Not Found\r\n"

unfoldable pub response_headers : Bool → ℕ → List ℕ → List ℕ → Bool → List ℕ
response_headers accept_bytes response_code content_type content_length cached =
    header_first_line response_code
    ++ (content_type
        ++ ((if accept_bytes
              then codes "Accept-Ranges: bytes\r\nContent-Length: "
                ++ (content_length
                    ++ (codes "\r\nRange: bytes=0-" ++ (content_length ++ codes "/")))
              else codes "Content-Length: ")
            ++ (content_length
                ++ (codes "\r\n"
                    ++ ((if cached
                          then []
                          else codes
                              "Cache-Control: no-cache, no-store, must-revalidate\r\nPragma: no-cache\r\nExpires: 0\r\n")
                        ++ codes "\r\n")))))

-- `memcpy` to the front of a vector: past its end it is undefined.
unfoldable pub copy_front : List ℕ → List ℕ → Outcome (List ℕ)
unfolding write_bytes
copy_front target source =
    if leb (length source) (length target) then ok (write_bytes target 0 source) else undefined

abbrev pub is_found {ℓ} : {A : Type ℓ} → Option A → Bool
is_found none = false
is_found (some a) = true

-- A file of the cache is sent from there. Any other is read behind its headers first.
unfoldable pub send_file_request : Env → Server → ℕ → List ℕ → Bool → ℕ → Outcome (Bool × Server)
send_file_request env s client_idx filepath accept_bytes response_code =
    elim (env.open_file filepath) [
      | none ↦ ok (false, s)
      | some file_fd ↦ do
        let file_size = get_file_size (env.file_kind file_fd)
        client ← tcp_client_at s.custom_obj client_idx
        (cache_data, cache, client') ← fetch_item s.custom_obj.web_cache filepath client_idx client
        let headers =
            response_headers accept_bytes response_code (get_content_type filepath)
              (to_string file_size) (is_found cache_data)
        send_buffer ← copy_front (replicate ((file_size + length headers) % size_mod) 0) headers
        let fetched = record s {
          custom_obj = record (s.custom_obj) {
            web_cache = cache;
            tcp_clients = set s.custom_obj.tcp_clients client_idx client';
            opened = file_fd ∷ s.custom_obj.opened;
          };
        }
        sent ← elim cache_data [
          | some item ↦
              on_server fetched
                (write_connection_ptr s.tcp client_idx (cache_slot item.slot) item.size)
          | none ↦ ok (record fetched {
            tcp =
                custom_read_req s.tcp (pos file_fd) file_size (some client_idx) send_buffer
                  (length headers);
            custom_obj = record (fetched.custom_obj) {
              tcp_clients =
                  set s.custom_obj.tcp_clients client_idx
                    (record client' { last_requested_read_filepath = filepath });
            };
          })
        ]
        ok (true, sent)
    ]
