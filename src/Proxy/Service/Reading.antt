-- ===== src/Proxy/Service/Reading.antt =====
-- How proxylab_code/server.c reads the entries of a request's header.
use csapp_lab_code.Base.{
  ℕ, zero, suc, ◌+◌, ◌<◌, ◌≡◌, refl, ap, ◌∙◌, true, false, some, List, [], ◌∷◌, ◌++◌, map, length,
  length-append, ltb, Bool-cases, inl, inr, arith,
}
use mathlib.Core.List.{append_assoc, append-nil}
use csapp_lab_code.Proxy.Scan.{Text, colon, is_space}
use csapp_lab_code.Proxy.Scan.Laws.{scan_set-append, scan_word-space}
use csapp_lab_code.Proxy.Headers.{Header}
use csapp_lab_code.Proxy.Request.{
  RequestLine, accepted, parse_http_request_line, stops_hostname, parse_and_add_reqhdr_entry,
}
use csapp_lab_code.Proxy.Request.RoundTrip.{IsItem}
use csapp_lab_code.Proxy.Forward.{crlf, entry_line}
use csapp_lab_code.Proxy.ObjectCache.{ObjectCache, same_key}
use csapp_lab_code.Proxy.Service.{
  is_end, complete, reading, read_entries, result_length, result_size, headers, read_requesthdrs,
  read_request_line, Surroundings, still_reads, doit,
}

-- Lines that are entries of a header, and none of them the empty line.
abbrev pub Unended : List Text → Type 0
Unended [] = Unit
Unended (t ∷ ts) =
    ((h : Header) × (parse_and_add_reqhdr_entry t ≡ some h)) × (is_end t ≡ false) × Unended ts

-- Where the input ends, the last line is an entry again in every round.
entries-reading :
    (rounds : ℕ) (t : Text) (hs : List Header) (ts : List Text)
    → Unended (t ∷ ts)
    → (hs' : List Header) × (read_entries rounds t hs ts ≡ reading hs')
      × (length hs' ≡ length hs + rounds)
unfolding read_entries
entries-reading zero t hs ts u = (hs, refl, omega arith)
entries-reading (suc rounds) t hs [] ((h, e), go_on, u) =
    let (hs', r, n) = entries-reading rounds t (hs ++ h ∷ []) [] ((h, e), go_on, u) in
    (hs', rw (go_on, e) r, omega (arith, n, length-append hs (h ∷ [])))
entries-reading (suc rounds) t hs (t' ∷ ts) (first, go_on, ((h, e), go_on', u)) =
    let (hs', r, n) = entries-reading rounds t' (hs ++ h ∷ []) ts ((h, e), go_on', u) in
    (hs', rw (go_on', e) r, omega (arith, n, length-append hs (h ∷ [])))

-- If a client sends a valid request line and entries of a header, at least one, but ends its input
-- before the empty line, then after any number of rounds `doit` is still in the loop that reads the
-- header, with one more entry in its list for each round.
pub doit-never_ends :
    (rounds : ℕ) (env : Surroundings) (c : ObjectCache) (line t : Text) (ts : List Text)
    (r : RequestLine)
    → parse_http_request_line env.left line ≡ accepted r
    → Unended (t ∷ ts)
    → doit rounds env (line ∷ t ∷ ts) c ≡ still_reads (suc rounds)
unfolding doit read_request_line read_requesthdrs
doit-never_ends rounds env c line t ts r accepts ((h, e), go_on, u) =
    let (hs, goes, n) = entries-reading rounds t (h ∷ []) ts ((h, e), go_on, u) in
    let all : length hs ≡ suc rounds = omega (arith, n) in
    rw (accepts, doit, go_on, e, goes, all) refl

same_key-length : (s t : Text) → same_key s t ≡ true → length s ≡ length t
same_key-length [] [] e = refl
same_key-length [] (d ∷ ds) e = absurd (cc)
same_key-length (c ∷ cs) [] e = absurd (cc)
same_key-length (c ∷ cs) (d ∷ ds) e = ap suc (same_key-length cs ds (ground arith))

-- An entry that is read as it is written.
pub record IsEntry (h : Header) : Type 0 where
  pub key : IsItem stops_hostname 127 h.key
  pub value : IsItem is_space 1023 h.value

abbrev pub AllEntries : List Header → Type 0
AllEntries [] = Unit
AllEntries (h ∷ hs) = IsEntry h × AllEntries hs

entry-goes_on : (h : Header) → IsEntry h → is_end (entry_line h) ≡ false
entry-goes_on h v = elim (Bool-cases (is_end (entry_line h))) [
  | inl end ↦
      let short = same_key-length (entry_line h) crlf end in
      let whole = length-append h.key (colon ∷ 32 ∷ (h.value ++ crlf)) in
      let tail = length-append h.value crlf in absurd (omega (arith, short, whole, tail))
  | inr go_on ↦ go_on
]

parse-entry : (h : Header) → IsEntry h → parse_and_add_reqhdr_entry (entry_line h) ≡ some h
unfolding parse_and_add_reqhdr_entry
parse-entry h v =
    let k = v.key in
    let i = v.value in
    let key =
      scan_set-append stops_hostname 127 h.key (colon ∷ 32 ∷ (h.value ++ crlf)) k.some_char k.fits
        k.free refl in
    let value = scan_word-space 1023 h.value crlf i.some_char i.fits i.free refl in
    rw (key, value) refl

entries-complete :
    (rounds : ℕ) (t : Text) (hs more : List Header)
    → length more < rounds
    → AllEntries more
    → read_entries rounds t hs (map entry_line more ++ crlf ∷ []) ≡ complete (hs ++ more)
unfolding read_entries
entries-complete zero t hs more lt v = absurd (omega arith)
entries-complete (suc rounds) t hs [] lt v = rw (append-nil hs) refl
entries-complete (suc rounds) t hs (h ∷ more) lt (v, vs) =
    rw (entry-goes_on h v, parse-entry h v)
      (entries-complete rounds (entry_line h) (hs ++ h ∷ []) more (omega arith) vs
        ∙ ap complete (append_assoc hs (h ∷ []) more))

-- A header that is printed from at least one entry, each not empty, short enough and without a
-- character that ends its conversion, is read as these entries, if they fit in szResult, in as many
-- rounds as it has entries.
pub read_requesthdrs-print :
    (rounds : ℕ) (h : Header) (hs : List Header)
    → length hs < rounds
    → AllEntries (h ∷ hs)
    → result_length (h ∷ hs) < result_size
    → read_requesthdrs rounds (map entry_line (h ∷ hs) ++ crlf ∷ []) ≡ headers (h ∷ hs)
unfolding read_requesthdrs
read_requesthdrs-print rounds h hs lt (v, vs) fits =
    let room : ltb (result_length (h ∷ hs)) result_size ≡ true = ground arith in
    rw
      (
        entry-goes_on h v,
        parse-entry h v,
        entries-complete rounds (entry_line h) (h ∷ []) hs lt vs,
        room,
      )
      refl
