-- ===== src/Proxy/Forward.antt =====
-- The request that proxylab_code/client.c sends on. The network is the argument `remote`: it refuses a
-- connection to a host and port, or it answers the bytes that are sent with the pieces of a response.
pub mod Excess
use csapp_lab_code.Base.{
  ℕ, zero, suc, ◌+◌, Option, none, some, List, [], ◌∷◌, ◌++◌, length, ltb, if◌then◌else◌,
}
use csapp_lab_code.Proxy.Scan.{Text, colon}
use csapp_lab_code.Proxy.Headers.{Header, modify_header_entries}
use csapp_lab_code.Proxy.Request.{RequestLine, decimal}

abbrev pub maxline : ℕ
maxline = 8192

abbrev pub crlf : Text
crlf = 13 ∷ 10 ∷ []

abbrev pub http_version : Text
http_version = b'H' ∷ b'T' ∷ b'T' ∷ b'P' ∷ b'/' ∷ b'1' ∷ b'.' ∷ b'0' ∷ []

abbrev pub take : ℕ → Text → Text
take zero t = []
take (suc n) [] = []
take (suc n) (c ∷ cs) = c ∷ take n cs

-- `"%s %s %s\r\n"`
abbrev pub first_line : RequestLine → Text
first_line r = r.method ++ (32 ∷ (r.uri.path ++ (32 ∷ (r.version ++ crlf))))

-- `"%s: %s\r\n"`
abbrev pub entry_line : Header → Text
entry_line h = h.key ++ (colon ∷ 32 ∷ (h.value ++ crlf))

-- The loop over the entries: what it writes, and what is in the buffer after it.
unfoldable pub send_entries : Text → List Header → Text × Text
send_entries buffer [] = ([], buffer)
send_entries buffer (h ∷ hs) =
    let rest = send_entries (entry_line h) hs in (entry_line h ++ rest.0, rest.1)

-- The bytes that are written. `after` are the bytes in memory behind the characters of the last literal,
-- of which as many are written as are in the buffer. `none`: the request outgrows the array `temp`.
unfoldable pub send_request_string : Text → RequestLine → List Header → Option Text
unfolding send_entries
send_request_string after r hs =
    let entries = send_entries (first_line r) hs in
    let text = first_line r ++ entries.0 in
    let end = take (length entries.1) (crlf ++ after) in
    if ltb (length text + 2) maxline then some (text ++ end) else none

pub data Forward : Type 0 where
  forwarded : Text → List Text → Forward
  unreachable : Forward
  undefined : Forward

-- Without a connection the first `Rio_writen`, to a negative descriptor, ends the process.
unfoldable pub forward_request :
    (remote : Text → Text → Option (Text → List Text)) (agent after : Text)
    → RequestLine
    → List Header
    → Forward
unfolding modify_header_entries send_request_string
forward_request remote agent after r hs =
    let line = record r { version = http_version } in
    elim (modify_header_entries decimal agent r.uri.hostname r.uri.port hs) [
      | none ↦ undefined
      | some modified ↦ elim (remote r.uri.hostname (decimal r.uri.port)) [
        | none ↦ unreachable
        | some answer ↦ elim (send_request_string after line modified) [
          | none ↦ undefined
          | some sent ↦ forwarded sent (answer sent)
        ]
      ]
    ]
