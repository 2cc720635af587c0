-- ===== src/Proxy/Forward/Excess.antt =====
-- What `send_request_string` of proxylab_code/client.c writes.
use csapp_lab_code.Base.{
  ℕ, zero, suc, ◌+◌, ◌-◌, ◌≤◌, ◌<◌, ◌≡◌, refl, ap, some, List, [], ◌∷◌, ◌++◌, length, length-append,
  ltb, true, arith,
}
use csapp_lab_code.Proxy.Scan.{Text}
use csapp_lab_code.Proxy.Headers.{Header}
use csapp_lab_code.Proxy.Request.{RequestLine}
use csapp_lab_code.Proxy.Forward.{
  maxline, crlf, take, first_line, entry_line, send_entries, send_request_string,
}

-- The request as it is meant: the first line and the entries, without the empty line.
abbrev pub entry_lines : List Header → Text
entry_lines [] = []
entry_lines (h ∷ hs) = entry_line h ++ entry_lines hs

abbrev pub last_line : Text → List Header → Text
last_line line [] = line
last_line line (h ∷ hs) = last_line (entry_line h) hs

send_entries_lem :
    (line : Text) (hs : List Header) → send_entries line hs ≡ (entry_lines hs, last_line line hs)
unfolding send_entries
send_entries_lem line [] = refl
send_entries_lem line (h ∷ hs) = rw (send_entries_lem (entry_line h) hs) refl

last_line-length :
    (line : Text) (hs : List Header) → 4 ≤ length line → 4 ≤ length (last_line line hs)
last_line-length line [] e = e
last_line-length line (h ∷ hs) e =
    let whole = length-append h.key (b':' ∷ 32 ∷ (h.value ++ crlf)) in
    let tail = length-append h.value crlf in
    last_line-length (entry_line h) hs (omega (arith, whole, tail))

first_line-length : (r : RequestLine) → 4 ≤ length (first_line r)
first_line-length r =
    let whole = length-append r.method (32 ∷ (r.uri.path ++ (32 ∷ (r.version ++ crlf)))) in
    let middle = length-append r.uri.path (32 ∷ (r.version ++ crlf)) in
    let tail = length-append r.version crlf in omega (arith, whole, middle, tail)

take-behind : (n : ℕ) (after : Text) → 2 ≤ n → take n (crlf ++ after) ≡ crlf ++ take (n - 2) after
take-behind zero after h = absurd (omega arith)
take-behind (suc zero) after h = absurd (omega arith)
take-behind (suc (suc n)) after h =
    ap (λ (k : ℕ). crlf ++ take k after) {x = n} {y = suc (suc n) - 2} (omega arith)

-- A request that fits in its array is sent as its first line, its entries and the empty line, and
-- behind them as many bytes of other memory as the last line that was sent is longer than the empty
-- line.
pub send_request_string-excess :
    (after : Text) (r : RequestLine) (hs : List Header)
    → length (first_line r ++ entry_lines hs) + 2 < maxline
    → send_request_string after r hs
      ≡ some (
          (first_line r ++ entry_lines hs)
          ++ (crlf ++ take (length (last_line (first_line r) hs) - 2) after))
unfolding send_request_string
send_request_string-excess after r hs fits =
    let long = last_line-length (first_line r) hs (first_line-length r) in
    let room : ltb (length (first_line r ++ entry_lines hs) + 2) maxline ≡ true = ground arith in
    rw
      (
        send_entries_lem (first_line r) hs,
        room,
        take-behind (length (last_line (first_line r) hs)) after (omega arith),
      )
      refl
