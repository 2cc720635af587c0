-- ===== src/Proxy/Request.antt =====
-- The request line and the entries of the header, as proxylab_code/request.c parses them with `sscanf`,
-- and the port in decimal digits as `sprintf` and `atoi` write and read it. A text is the bytes of a
-- buffer up to its NUL; the result of `malloc` is never NULL.
pub mod Decimal
pub mod RoundTrip
use csapp_lab_code.Base.{
  ℕ, zero, suc, ◌+◌, ◌-◌, ◌*◌, ◌/◌, ◌%◌, Bool, true, false, ◌&&◌, ◌||◌, Option, none, some, List,
  [], ◌∷◌, ◌++◌, length, ltb, leb, ◌==◌, if◌then◌else◌,
}
use csapp_lab_code.Proxy.Scan.{Text, ◌>>=◌, colon, slash, scan_set, scan_word, scan_char}
use csapp_lab_code.Proxy.Headers.{Header, same_nocase}

pub record Uri : Type 0 where
  pub protocol : Text
  pub hostname : Text
  pub path : Text
  pub port : ℕ

pub record RequestLine : Type 0 where
  pub method : Text
  pub uri : Uri
  pub version : Text

-- `sizeof(uri)`, the size of the array `szURI`, to which `%2047s` writes
abbrev pub uri_size : ℕ
uri_size = 2042

abbrev pub http_text : Text
http_text = b'h' ∷ b't' ∷ b't' ∷ b'p' ∷ []

abbrev pub is_digit : ℕ → Bool
is_digit c = leb 48 c && leb c 57

unfoldable pub is_number : Text → Bool
is_number [] = true
is_number (c ∷ cs) = let rest = is_number cs in if is_digit c then rest else false

-- `atoi` of a text of digits
unfoldable pub atoi_loop : ℕ → Text → ℕ
atoi_loop n [] = n
atoi_loop n (c ∷ cs) = atoi_loop (10 * n + (c - 48)) cs

-- `%d`, for an int: ten digits are enough
unfoldable pub digits_loop : ℕ → ℕ → Text
digits_loop zero n = []
digits_loop (suc fuel) n =
    let front = digits_loop fuel (n / 10) in
    if ltb n 10 then (48 + n) ∷ [] else front ++ (48 + n % 10) ∷ []

abbrev pub decimal : ℕ → Text
decimal n = digits_loop 10 n

abbrev pub stops_protocol : ℕ → Bool
stops_protocol c = c == colon || c == slash

abbrev pub stops_address : ℕ → Bool
stops_address c = c == slash

abbrev pub stops_hostname : ℕ → Bool
stops_hostname c = c == colon

-- `"%7s %2047s %15s"`
unfoldable pub scan_line : Text → Option (Text × Text × Text)
unfolding scan_word
scan_line t = do
  method ← scan_word 7 t
  uri ← scan_word 2047 method.1
  version ← scan_word 15 uri.1
  some (method.0, uri.0, version.0)

-- The second item of these alone.
unfoldable pub scan_second : Text → Option (Text × Text)
unfolding scan_word
scan_second t = do method ← scan_word 7 t; scan_word 2047 method.1

abbrev too_long : Option (Text × Text) → Bool
too_long none = false
too_long (some item) = leb uri_size (length item.0)

-- Whether the URI outgrows its array, also where the line is refused later.
unfoldable pub overruns : Text → Bool
unfolding scan_second
overruns t = too_long (scan_second t)

-- `"%15[^://]://%79[^/]%1959s"`: the protocol, the address and the path
unfoldable pub scan_uri : Text → Option (Text × Text × Text)
unfolding scan_set scan_word scan_char
scan_uri t = do
  protocol ← scan_set stops_protocol 15 t
  after_colon ← scan_char colon protocol.1
  after_slash ← scan_char slash after_colon
  after_slashes ← scan_char slash after_slash
  address ← scan_set stops_address 79 after_slashes
  path ← scan_word 1959 address.1
  some (protocol.0, address.0, path.0)

-- `"%63[^:]:%7s"`: the hostname, if there is one, and the port, if there is one
unfoldable pub scan_address : Text → Option (Text × Option Text)
unfolding scan_set scan_word scan_char
scan_address t = do
  hostname ← scan_set stops_hostname 63 t
  some (hostname.0, do rest ← scan_char colon hostname.1; port ← scan_word 7 rest; some port.0)

-- The method, the version, the protocol, the address and the path.
unfoldable pub scan_request : Text → Option (Text × Text × Text × Text × Text)
unfolding scan_line scan_uri
scan_request t = do
  line ← scan_line t
  uri ← scan_uri line.1
  some (line.0, line.2, uri.0, uri.1, uri.2)

pub data ParsedLine : Type 0 where
  accepted : RequestLine → ParsedLine
  refused : ParsedLine
  overflow : ParsedLine

abbrev pub request_line : Text → Text → Text → Text → Text → ℕ → RequestLine
request_line method protocol hostname path version port = record {
  method = method;
  uri = record { protocol = protocol; hostname = hostname; path = path; port = port };
  version = version;
}

-- The port of an address that has one.
unfoldable pub with_port : Text → (ℕ → RequestLine) → ParsedLine
unfolding is_number atoi_loop
with_port port line =
    if is_number port
    then (if leb (atoi_loop 0 port) 65535 then accepted (line (atoi_loop 0 port)) else refused)
    else refused

-- An address without one: `strcasecmp` returns 0 for equal texts.
unfoldable pub without_port : Text → (ℕ → RequestLine) → ParsedLine
without_port protocol line = if same_nocase protocol http_text then refused else accepted (line 80)

-- `left` is what `malloc` left in the array of the hostname, which stays there if none is found.
unfoldable pub parse_http_request_line : Text → Text → ParsedLine
unfolding overruns scan_request scan_address
parse_http_request_line left t = if overruns t then overflow else elim (scan_request t) [
  | none ↦ refused
  | some (method, version, protocol, address, path) ↦ elim (scan_address address) [
    | none ↦ without_port protocol (request_line method protocol left path version)
    | some (hostname, none) ↦
        without_port protocol (request_line method protocol hostname path version)
    | some (hostname, some port) ↦
        with_port port (request_line method protocol hostname path version)
  ]
]

-- `"%127[^:]: %1023s"`; `none` is NULL.
unfoldable pub parse_and_add_reqhdr_entry : Text → Option Header
unfolding scan_set scan_word scan_char
parse_and_add_reqhdr_entry t = do
  key ← scan_set stops_hostname 127 t
  rest ← scan_char colon key.1
  value ← scan_word 1023 rest
  some (record { key = key.0; value = value.0 })
