-- ===== src/Proxy/Service.antt =====
-- The service of one connection in proxylab_code/server.c: the request is read, looked up in the cache,
-- and forwarded if it is not there. What `Rio_readlineb` returns is a list of lines, each a text up to
-- its NUL, and 0 at the list's end; what `Rio_readnb` returns is a list of pieces; no call returns an
-- error. What is written to the client is a list of bytes.
pub mod Reading
pub mod Written
pub mod Cached
pub mod Tests
use csapp_lab_code.Base.{
  ℕ, zero, suc, ◌+◌, ◌%◌, ◌^◌, Bool, true, false, Option, none, some, List, [], ◌∷◌, ◌++◌, length,
  set, ltb, leb, if◌then◌else◌,
}
use csapp_lab_code.Proxy.Scan.{Text, colon}
use csapp_lab_code.Proxy.Headers.{Header}
use csapp_lab_code.Proxy.Request.{
  RequestLine, ParsedLine, accepted, refused, overflow, decimal, parse_http_request_line,
  parse_and_add_reqhdr_entry,
}
use csapp_lab_code.Proxy.Forward.{crlf, take, forwarded, unreachable, undefined, forward_request}
use csapp_lab_code.Proxy.ObjectCache.{
  ObjectCache, max_object_size, same_key, cache_insert_if_possible, cache_retrieve_if_possible,
}

abbrev pub is_end : Text → Bool
is_end t = same_key t crlf

-- `none`: no line, or one that is not valid.
unfoldable pub read_request_line : Text → List Text → Option (ParsedLine × List Text)
unfolding parse_http_request_line
read_request_line left [] = none
read_request_line left (t ∷ ts) = some (parse_http_request_line left t, ts)

-- `Rio_readlineb`: the buffer after the call, and the lines left. At the end of the input, where it returns 0,
-- the buffer keeps what it holds.
abbrev pub next_line : Text → List Text → Text × List Text
next_line buffer [] = (buffer, [])
next_line buffer (t ∷ ts) = (t, ts)

-- `reading`: the loop goes on, with these entries so far.
pub data Entries : Type 0 where
  complete : List Header → Entries
  malformed : Entries
  reading : List Header → Entries

-- So many rounds of the `while (TRUE)`, each of which allocates an entry; `malloc` does not fail.
unfoldable pub read_entries : ℕ → Text → List Header → List Text → Entries
read_entries zero buffer hs lines = reading hs
read_entries (suc rounds) buffer hs lines =
    let r = next_line buffer lines in
    let next : Entries = elim (parse_and_add_reqhdr_entry r.0) [
      | none ↦ malformed
      | some h ↦ read_entries rounds r.0 (hs ++ h ∷ []) r.1
    ] in
    if is_end r.0 then complete hs else next

-- The length of the text that is printed to `szResult`.
unfoldable pub result_length : List Header → ℕ
result_length [] = 15
result_length (h ∷ hs) = 12 + length h.key + length h.value + result_length hs

abbrev pub result_size : ℕ
result_size = 15872

-- `reads_on`: the loop is not at its end, with so many entries in its list.
pub data HeaderList : Type 0 where
  headers : List Header → HeaderList
  reads_on : ℕ → HeaderList
  breaks : HeaderList

-- A first entry that is malformed is not linked to the others, and the list stays NULL.
abbrev pub finish_entries : Bool → Entries → HeaderList
finish_entries linked (complete hs) =
    if linked
    then (if ltb (result_length hs) result_size then headers hs else breaks)
    else headers []
finish_entries linked malformed = headers []
finish_entries linked (reading hs) = reads_on (length hs)

-- NULL is the empty list. Without any line the buffer is not initialised.
unfoldable pub read_requesthdrs : ℕ → List Text → HeaderList
unfolding read_entries result_length
read_requesthdrs rounds [] = breaks
read_requesthdrs rounds (t ∷ ts) =
    if is_end t then headers [] else elim (parse_and_add_reqhdr_entry t) [
      | none ↦ finish_entries false (read_entries rounds t [] ts)
      | some h ↦ finish_entries true (read_entries rounds t (h ∷ []) ts)
    ]

-- `memncat`, a `memcpy` to an offset
unfoldable pub memncat : Text → ℕ → Text → Text
memncat dest offset [] = dest
memncat dest offset (c ∷ cs) = memncat (set dest offset c) (offset + 1) cs

pub record Output : Type 0 where
  pub written : Text
  pub resp_buf : Text
  pub len : ℕ

-- One round of the loop.
unfoldable pub output_piece : ℕ → Output → Text → Output
unfolding memncat
output_piece limit o piece =
    let len = (o.len + length piece) % 2 ^ 64 in
    let resp_buf = if leb len limit then memncat o.resp_buf o.len piece else o.resp_buf in
    record { written = o.written ++ piece; resp_buf = resp_buf; len = len }

-- An empty piece is the end.
unfoldable pub output_loop : ℕ → Output → List Text → Output
unfolding output_piece
output_loop limit o [] = o
output_loop limit o ([] ∷ pieces) = o
output_loop limit o ((c ∷ cs) ∷ pieces) = output_loop limit (output_piece limit o (c ∷ cs)) pieces

unfoldable pub output_response_from_remote : List Text → Text → ℕ → Output
unfolding output_loop
output_response_from_remote pieces resp_buf limit =
    output_loop limit (record { written = []; resp_buf = resp_buf; len = 0 }) pieces

-- `"%s %s:%d%s"`
abbrev pub request_key : RequestLine → Text
request_key r = r.method ++ (32 ∷ (r.uri.hostname ++ (colon ∷ (decimal r.uri.port ++ r.uri.path))))

-- What a connection ends with: the bytes for the client and those for the remote host if it was asked,
-- no answer, the end of the process, or undefined behaviour; or the loop over the header is not at its end
-- after the rounds that are given, with so many entries in its list.
pub data Outcome : Type 0 where
  served : Text → Option Text → ObjectCache → Outcome
  unanswered : ObjectCache → Outcome
  process_ends : Outcome
  still_reads : ℕ → Outcome
  misbehaves : Outcome

-- What one connection meets: the network, the literals and memory of the process, an address from
-- `malloc`, the bytes behind the keys in the cache, and the initial bytes of `respBuf`.
pub record Surroundings : Type 0 where
  pub remote : Text → Text → Option (Text → List Text)
  pub agent : Text
  pub after : Text
  pub left : Text
  pub address : ℕ
  pub behind : ℕ → Text
  pub junk : Text

abbrev pub keep_response : Surroundings → Text → Text → Output → ObjectCache → Outcome
keep_response env key sent o c =
    if ltb max_object_size o.len
    then served o.written (some sent) c
    else elim (cache_insert_if_possible env.address key (take o.len o.resp_buf) c) [
      | none ↦ misbehaves
      | some (inserted, c') ↦ served o.written (some sent) c'
    ]

unfoldable pub fetch : Surroundings → RequestLine → List Header → ObjectCache → Outcome
unfolding forward_request output_response_from_remote cache_insert_if_possible
fetch env r hs c = elim (forward_request env.remote env.agent env.after r hs) [
  | unreachable ↦ process_ends
  | undefined ↦ misbehaves
  | forwarded sent pieces ↦
      keep_response env (request_key r) sent
        (output_response_from_remote pieces env.junk max_object_size) c
]

abbrev pub answer : Surroundings → RequestLine → List Header → Option Text × ObjectCache → Outcome
answer env r hs (some object, c) = served object none c
answer env r hs (none, c) = fetch env r hs c

unfoldable pub respond : Surroundings → RequestLine → List Header → ObjectCache → Outcome
unfolding fetch cache_retrieve_if_possible
respond env r hs c = answer env r hs (cache_retrieve_if_possible env.behind (request_key r) c)

-- With so many rounds for the loop over the header.
unfoldable pub doit : ℕ → Surroundings → List Text → ObjectCache → Outcome
unfolding read_request_line read_requesthdrs respond
doit rounds env lines c = elim (read_request_line env.left lines) [
  | none ↦ unanswered c
  | some (refused, rest) ↦ unanswered c
  | some (overflow, rest) ↦ misbehaves
  | some (accepted r, rest) ↦ elim (read_requesthdrs rounds rest) [
    | headers hs ↦ respond env r hs c
    | reads_on n ↦ still_reads n
    | breaks ↦ misbehaves
  ]
]
