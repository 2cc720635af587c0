-- ===== src/Proxy/Request/RoundTrip.antt =====
-- `parse_http_request_line` on a request line that is printed from its parts.
use csapp_lab_code.Base.{
  ℕ, ◌≤◌, ◌<◌, ◌≡◌, ◌≢◌, refl, Bool, true, false, some, [], ◌∷◌, ◌++◌, length, length-append,
  Bool-cases, inl, inr, leb, arith,
}
use mathlib.Core.List.{append-nil}
use csapp_lab_code.Proxy.Scan.{Text, colon, slash, is_space, scan_word}
use csapp_lab_code.Proxy.Scan.Laws.{
  Free, Starts, scan_set-append, scan_word-append, scan_word-space,
}
use csapp_lab_code.Proxy.Request.{
  Uri, RequestLine, uri_size, is_digit, is_number, decimal, stops_protocol, stops_address,
  stops_hostname, scan_line, scan_second, overruns, scan_uri, scan_address, scan_request, accepted,
  with_port, parse_http_request_line,
}
use csapp_lab_code.Proxy.Request.Decimal.{IsDecimal, digits-IsDecimal}

abbrev pub print_address : Uri → Text
print_address u = u.hostname ++ colon ∷ decimal u.port

abbrev pub print_uri : Uri → Text
print_uri u = u.protocol ++ (colon ∷ slash ∷ slash ∷ (print_address u ++ u.path))

-- `"%s %s://%s:%d%s %s\r\n"`
abbrev pub print_line : RequestLine → Text
print_line r = r.method ++ (32 ∷ (print_uri r.uri ++ (32 ∷ (r.version ++ 13 ∷ 10 ∷ []))))

-- A text that a conversion takes as a whole.
pub record IsItem (stops : ℕ → Bool) (n : ℕ) (t : Text) : Type 0 where
  pub some_char : t ≢ []
  pub fits : length t ≤ n
  pub free : Free stops t

pub record IsLine (r : RequestLine) : Type 0 where
  pub method : IsItem is_space 7 r.method
  pub version : IsItem is_space 15 r.version
  pub protocol : IsItem stops_protocol 15 r.uri.protocol
  pub hostname : IsItem stops_protocol 63 r.uri.hostname
  pub path : IsItem is_space 1959 r.uri.path
  pub rooted : (p : Text) × (r.uri.path ≡ slash ∷ p)
  pub unspaced : Free is_space r.uri.protocol × Free is_space r.uri.hostname
  pub port : r.uri.port ≤ 65535
  pub whole : length (print_uri r.uri) < uri_size

module _ (stops : ℕ → Bool) where
  Free-append : (s t : Text) → Free stops s → Free stops t → Free stops (s ++ t)
  Free-append [] t f g = g
  Free-append (c ∷ cs) t f g = (f.0, Free-append cs t f.1 g)

  number-Free :
      ((c : ℕ) → is_digit c ≡ true → stops c ≡ false)
      → (t : Text) → is_number t ≡ true
      → Free stops t
  unfolding is_number
  number-Free none_stops [] e = tt
  number-Free none_stops (c ∷ cs) e = elim (Bool-cases (is_digit c)) [
    | inl digit ↦ (none_stops c digit, number-Free none_stops cs (rw digit at e))
    | inr other ↦ absurd (ground arith)
  ]

Free-weaken :
    (stops fewer : ℕ → Bool)
    → ((c : ℕ) → stops c ≡ false → fewer c ≡ false)
    → (t : Text) → Free stops t
    → Free fewer t
Free-weaken stops fewer h [] f = tt
Free-weaken stops fewer h (c ∷ cs) f = (h c f.0, Free-weaken stops fewer h cs f.1)

port-IsDecimal : (n : ℕ) → n ≤ 65535 → IsDecimal 5 n (decimal n)
port-IsDecimal n h = digits-IsDecimal 4 10 n (omega arith) (omega arith)

append-some : (s t : Text) → s ≢ [] → s ++ t ≢ []
append-some [] t ne = absurd (ne refl)
append-some (c ∷ cs) t ne = cc

number-IsItem :
    (stops : ℕ → Bool) (n : ℕ)
    → ((c : ℕ) → is_digit c ≡ true → stops c ≡ false)
    → n ≤ 65535
    → IsItem stops 7 (decimal n)
number-IsItem stops n none_stops h =
    let d = port-IsDecimal n h in
    record {
      some_char = d.some_digit;
      fits = omega (arith, d.short);
      free = number-Free stops none_stops (decimal n) d.number;
    }

-- A digit stops none of the conversions.
digit-space : (c : ℕ) → is_digit c ≡ true → is_space c ≡ false
digit-space c e = ground arith

digit-slash : (c : ℕ) → is_digit c ≡ true → stops_address c ≡ false
digit-slash c e = ground arith

protocol-slash : (c : ℕ) → stops_protocol c ≡ false → stops_address c ≡ false
protocol-slash c e = ground arith

protocol-colon : (c : ℕ) → stops_protocol c ≡ false → stops_hostname c ≡ false
protocol-colon c e = ground arith

module _ (r : RequestLine) (v : IsLine r) where
  address-Free :
      (stops : ℕ → Bool)
      → ((c : ℕ) → is_digit c ≡ true → stops c ≡ false)
      → stops colon ≡ false
      → Free stops r.uri.hostname
      → Free stops (print_address r.uri)
  address-Free stops none_stops h f =
      let port = number-IsItem stops r.uri.port none_stops v.port in
      Free-append stops r.uri.hostname _ f (h, port.free)

  uri-IsItem : IsItem is_space 2047 (print_uri r.uri)
  uri-IsItem = record {
    some_char = append-some r.uri.protocol _ v.protocol.some_char;
    fits = omega (arith, v.whole);
    free =
        let address = address-Free is_space digit-space refl v.unspaced.1 in
        let tail = Free-append is_space (print_address r.uri) r.uri.path address v.path.free in
        Free-append is_space r.uri.protocol _ v.unspaced.0 (refl, (refl, (refl, tail)));
  }

  address-IsItem : IsItem stops_address 79 (print_address r.uri)
  address-IsItem =
      let d = port-IsDecimal r.uri.port v.port in
      record {
        some_char = append-some r.uri.hostname _ v.hostname.some_char;
        fits =
            let sum = length-append r.uri.hostname (colon ∷ decimal r.uri.port) in
            omega (arith, sum, v.hostname.fits, d.short);
        free =
            let host =
              Free-weaken stops_protocol stops_address protocol-slash r.uri.hostname
                v.hostname.free in
            address-Free stops_address digit-slash refl host;
      }

  scan_method : (rest : Text) → scan_word 7 (r.method ++ 32 ∷ rest) ≡ some (r.method, 32 ∷ rest)
  scan_method rest =
      scan_word-append 7 r.method (32 ∷ rest) v.method.some_char v.method.fits v.method.free refl

  scan_printed_uri :
      (rest : Text)
      → scan_word 2047 (32 ∷ (print_uri r.uri ++ 32 ∷ rest)) ≡ some (print_uri r.uri, 32 ∷ rest)
  scan_printed_uri rest =
      let i = uri-IsItem in
      scan_word-space 2047 (print_uri r.uri) (32 ∷ rest) i.some_char i.fits i.free refl

  scan_version : scan_word 15 (32 ∷ (r.version ++ 13 ∷ 10 ∷ [])) ≡ some (r.version, 13 ∷ 10 ∷ [])
  scan_version =
      let i = v.version in
      scan_word-space 15 r.version (13 ∷ 10 ∷ []) i.some_char i.fits i.free refl

  scan_line-print : scan_line (print_line r) ≡ some (r.method, print_uri r.uri, r.version)
  unfolding scan_line
  scan_line-print = rw (scan_method _, scan_printed_uri _, scan_version) refl

  scan_second-print :
      scan_second (print_line r) ≡ some (print_uri r.uri, 32 ∷ (r.version ++ 13 ∷ 10 ∷ []))
  unfolding scan_second
  scan_second-print = rw (scan_method _, scan_printed_uri _) refl

  overruns-print : overruns (print_line r) ≡ false
  unfolding overruns
  overruns-print =
      let fits : leb uri_size (length (print_uri r.uri)) ≡ false = ground (arith, v.whole) in
      rw (scan_second-print, fits) refl

  path-Starts : Starts stops_address r.uri.path
  path-Starts = rw (v.rooted.1) refl

  scan_path : scan_word 1959 r.uri.path ≡ some (r.uri.path, [])
  scan_path =
      let i = v.path in
      let found = scan_word-append 1959 r.uri.path [] i.some_char i.fits i.free tt in
      rw (append-nil r.uri.path) at found

  scan_uri-print :
      scan_uri (print_uri r.uri) ≡ some (r.uri.protocol, print_address r.uri, r.uri.path)
  unfolding scan_uri
  scan_uri-print =
      let p = v.protocol in
      let a = address-IsItem in
      let protocol =
        scan_set-append stops_protocol 15 r.uri.protocol
          (colon ∷ slash ∷ slash ∷ (print_address r.uri ++ r.uri.path)) p.some_char p.fits p.free
          refl in
      let address =
        scan_set-append stops_address 79 (print_address r.uri) r.uri.path a.some_char a.fits a.free
          path-Starts in
      rw (protocol, address, scan_path) refl

  scan_address-print :
      scan_address (print_address r.uri) ≡ some (r.uri.hostname, some (decimal r.uri.port))
  unfolding scan_address
  scan_address-print =
      let i = v.hostname in
      let free = Free-weaken stops_protocol stops_hostname protocol-colon r.uri.hostname i.free in
      let hostname =
        scan_set-append stops_hostname 63 r.uri.hostname (colon ∷ decimal r.uri.port) i.some_char
          i.fits free refl in
      let d = number-IsItem is_space r.uri.port digit-space v.port in
      let port = scan_word-append 7 (decimal r.uri.port) [] d.some_char d.fits d.free tt in
      rw (hostname, rw (append-nil (decimal r.uri.port)) at port) refl

with_port-decimal :
    (n : ℕ) (line : ℕ → RequestLine) → n ≤ 65535 → with_port (decimal n) line ≡ accepted (line n)
unfolding with_port
with_port-decimal n line h =
    let d = port-IsDecimal n h in
    let fits : leb n 65535 ≡ true = ground arith in rw (d.number, d.value, fits) refl

-- A request line printed from a method, a URI with protocol, hostname, port and rooted path, and a
-- version is parsed to these parts, if each is not empty, fits its array and has no character that
-- ends its conversion, and the URI is shorter than its array.
pub parse_http_request_line-print :
    (left : Text) (r : RequestLine)
    → IsLine r
    → parse_http_request_line left (print_line r) ≡ accepted r
unfolding parse_http_request_line scan_request
parse_http_request_line-print left r v =
    rw (overruns-print r v, scan_line-print r v, scan_uri-print r v, scan_address-print r v)
      (with_port-decimal r.uri.port _ v.port)
