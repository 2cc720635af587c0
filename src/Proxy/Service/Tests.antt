-- ===== src/Proxy/Service/Tests.antt =====
-- The theorems on the service of proxylab_code at a request for `http://a:8/x`.
use csapp_lab_code.Base.{
  ℕ, ◌+◌, ◌-◌, ◌≡◌, ◌≢◌, ap, refl, ◌∙◌, Option, none, some, List, [], ◌∷◌, ◌++◌, map, length,
  length-append, length-replicate, replicate, arith,
}
use csapp_lab_code.Proxy.Scan.{Text}
use csapp_lab_code.Proxy.Headers.{Header, modify_entry, modify_entries, modify_header_entries}
use csapp_lab_code.Proxy.Request.{
  RequestLine, accepted, request_line, digits_loop, parse_http_request_line,
  parse_and_add_reqhdr_entry,
}
use csapp_lab_code.Proxy.Request.RoundTrip.{print_line, IsLine, parse_http_request_line-print}
use csapp_lab_code.Proxy.Forward.{
  crlf, take, first_line, entry_line, send_entries, send_request_string, Forward, forwarded,
  unreachable, undefined, forward_request,
}
use csapp_lab_code.Proxy.Forward.Excess.{entry_lines, last_line, send_request_string-excess}
use csapp_lab_code.Proxy.ObjectCache.{
  ObjectCache, max_object_size, get_string_hash32, hash_loop, find_key, init_cache,
  cache_retrieve_if_possible,
}
use csapp_lab_code.Proxy.ObjectCache.Sizes.{IsSized}
use csapp_lab_code.Proxy.Service.{
  output_response_from_remote, result_length, read_requesthdrs, headers, request_key, served,
  process_ends, still_reads, Surroundings, doit,
}
use csapp_lab_code.Proxy.Service.Reading.{AllEntries, doit-never_ends, read_requesthdrs-print}
use csapp_lab_code.Proxy.Service.Cached.{doit-unreachable, doit-large, doit-doit}
use csapp_lab_code.Proxy.Service.Written.{
  concat, AllSome, IsOutput, output_response_from_remote-written,
}

abbrev some_line : RequestLine
some_line =
    request_line (b'G' ∷ b'E' ∷ b'T' ∷ []) (b'h' ∷ b't' ∷ b't' ∷ b'p' ∷ []) (b'a' ∷ [])
      (b'/' ∷ b'x' ∷ []) (b'H' ∷ []) 8

some_line-IsLine : IsLine some_line
unfolding digits_loop
some_line-IsLine = record {
  method = record { some_char = cc; fits = omega arith; free = (refl, (refl, (refl, tt))) };
  version = record { some_char = cc; fits = omega arith; free = (refl, tt) };
  protocol = record {
    some_char = cc;
    fits = omega arith;
    free = (refl, (refl, (refl, (refl, tt))));
  };
  hostname = record { some_char = cc; fits = omega arith; free = (refl, tt) };
  path = record { some_char = cc; fits = omega arith; free = (refl, (refl, tt)) };
  rooted = (b'x' ∷ [], refl);
  unspaced = ((refl, (refl, (refl, (refl, tt)))), (refl, tt));
  port = omega arith;
  whole = omega arith;
}

parse_http_request_line-print_example :
    parse_http_request_line [] (print_line some_line) ≡ accepted some_line
parse_http_request_line-print_example = parse_http_request_line-print [] some_line some_line-IsLine

some_line-accepted : parse_http_request_line [] (print_line some_line) ≡ accepted some_line
some_line-accepted = parse_http_request_line-print [] some_line some_line-IsLine

abbrev some_entry : Header
some_entry = record { key = b'k' ∷ []; value = b'v' ∷ [] }

some_entry-AllEntries : AllEntries (some_entry ∷ [])
some_entry-AllEntries = (
  record {
    key = record { some_char = cc; fits = omega arith; free = (refl, tt) };
    value = record { some_char = cc; fits = omega arith; free = (refl, tt) };
  },
  tt,
)

some_lines-headers :
    read_requesthdrs 9 (map entry_line (some_entry ∷ []) ++ crlf ∷ []) ≡ headers (some_entry ∷ [])
unfolding result_length
some_lines-headers =
    read_requesthdrs-print 9 some_entry [] (omega arith) some_entry-AllEntries (omega arith)

send_request_string-excess_example :
    send_request_string (7 ∷ 8 ∷ 9 ∷ []) some_line (some_entry ∷ [])
    ≡ some (
        (first_line some_line ++ entry_lines (some_entry ∷ []))
        ++ (crlf
            ++ take
                (length (last_line (first_line some_line) (some_entry ∷ [])) - 2)
                (7 ∷ 8 ∷ 9 ∷ [])))
send_request_string-excess_example =
    send_request_string-excess (7 ∷ 8 ∷ 9 ∷ []) some_line (some_entry ∷ []) (omega arith)

abbrev around : Option (Text → List Text) → Surroundings
around server = record {
  remote = λ hostname port. server;
  agent = b'm' ∷ [];
  after = [];
  left = [];
  address = 1;
  behind = λ a. [];
  junk = replicate max_object_size 0;
}

abbrev answering : List Text → Surroundings
answering pieces = around (some (λ sent. pieces))

doit-never_ends_example :
    doit 9 (around none) (print_line some_line ∷ entry_line some_entry ∷ []) init_cache
    ≡ still_reads 10
unfolding parse_and_add_reqhdr_entry
doit-never_ends_example =
    doit-never_ends 9 (around none) init_cache (print_line some_line) (entry_line some_entry) []
      some_line some_line-accepted ((some_entry, refl), refl, tt)

abbrev two_pieces : List Text
two_pieces = (5 ∷ []) ∷ (6 ∷ 7 ∷ []) ∷ []

two_pieces-AllSome : AllSome two_pieces
two_pieces-AllSome = (cc, (cc, tt))

two_pieces-written :
    IsOutput 3 (output_response_from_remote two_pieces (0 ∷ 0 ∷ 0 ∷ []) 3)
    × ((output_response_from_remote two_pieces (0 ∷ 0 ∷ 0 ∷ []) 3).written ≡ 5 ∷ 6 ∷ 7 ∷ [])
two_pieces-written =
    output_response_from_remote-written two_pieces (0 ∷ 0 ∷ 0 ∷ []) 3 refl two_pieces-AllSome
      (omega arith)

abbrev some_lines : List Text
some_lines = entry_line some_entry ∷ crlf ∷ []

init-miss : (cache_retrieve_if_possible (λ a. []) (request_key some_line) init_cache).0 ≡ none
unfolding init_cache cache_retrieve_if_possible find_key get_string_hash32 hash_loop digits_loop
init-miss = refl

no_connection : doit 9 (around none) (print_line some_line ∷ some_lines) init_cache ≡ process_ends
unfolding forward_request modify_header_entries modify_entries modify_entry digits_loop
no_connection =
    doit-unreachable 9 (around none) init_cache (print_line some_line) some_lines some_line
      (some_entry ∷ []) some_line-accepted some_lines-headers init-miss refl

abbrev sent_of : Forward → Text
sent_of (forwarded sent pieces) = sent
sent_of unreachable = []
sent_of undefined = []

abbrev forward : List Text → Forward
forward pieces =
    forward_request (answering pieces).remote (b'm' ∷ []) [] some_line (some_entry ∷ [])

forward-answering :
    (pieces : List Text) → forward pieces ≡ forwarded (sent_of (forward pieces)) pieces
unfolding forward_request modify_header_entries modify_entries modify_entry digits_loop
    send_request_string send_entries
forward-answering pieces = refl

junk-length : length {A = ℕ} (replicate max_object_size 0) ≡ max_object_size
junk-length = length-replicate {A = ℕ} max_object_size 0

abbrev large_piece : Text
large_piece = replicate (max_object_size + 1) 0

large_piece-length : length (concat (large_piece ∷ [])) ≡ max_object_size + 1
large_piece-length =
    let all = length-replicate {A = ℕ} (max_object_size + 1) 0 in
    length-append large_piece [] ∙ omega (arith, all)

large_piece-some : large_piece ≢ []
large_piece-some e =
    let all = length-replicate {A = ℕ} (max_object_size + 1) 0 in
    absurd (omega (arith, all, ap length e))

large_piece-served :
    doit 9 (answering (large_piece ∷ [])) (print_line some_line ∷ some_lines) init_cache
    ≡ served (concat (large_piece ∷ [])) (some (sent_of (forward (large_piece ∷ [])))) init_cache
large_piece-served =
    doit-large 9 (answering (large_piece ∷ [])) init_cache (print_line some_line) some_lines
      some_line (some_entry ∷ []) (sent_of (forward (large_piece ∷ []))) (large_piece ∷ [])
      some_line-accepted some_lines-headers init-miss (forward-answering (large_piece ∷ []))
      junk-length (large_piece-some, tt) (omega (arith, large_piece-length))
      (omega (arith, large_piece-length))

init-IsSized : IsSized init_cache
unfolding init_cache
init-IsSized = record { sum = refl; bound = omega arith; groups = refl }

doit-doit_example :
    (c' : ObjectCache) × (doit 9
        (answering two_pieces)
        (print_line some_line ∷ some_lines)
        init_cache
      ≡ served (concat two_pieces) (some (sent_of (forward two_pieces))) c')
    × IsSized c'
    × ((c'' : ObjectCache) × (doit 9 (around none) (print_line some_line ∷ some_lines) c'
          ≡ served (concat two_pieces) none c''))
doit-doit_example =
    doit-doit 9 9 (answering two_pieces) (around none) init_cache (print_line some_line)
      (print_line some_line) some_lines some_lines some_line some_line (some_entry ∷ [])
      (some_entry ∷ []) (sent_of (forward two_pieces)) two_pieces init-IsSized some_line-accepted
      some_lines-headers init-miss (forward-answering two_pieces) junk-length two_pieces-AllSome
      (omega arith) some_line-accepted some_lines-headers refl refl
