-- ===== src/Proxy/Headers.antt =====
-- `modify_header_entries` of proxylab_code/client.c, on the list of a request's headers. The decimal
-- digits that `sprintf` prints for a port are an argument. The texts of the entries fit in their arrays.
pub mod Forwarded
use csapp_lab_code.Base.{
  ℕ, ◌+◌, Bool, true, false, ◌&&◌, not, Option, none, some, List, [], ◌∷◌, ◌++◌, length, leb, ◌==◌,
  if◌then◌else◌,
}

pub record Header : Type 0 where
  pub key : List ℕ
  pub value : List ℕ

-- `tolower` on ASCII
abbrev pub lower : ℕ → ℕ
lower c = if leb 65 c && leb c 90 then c + 32 else c

-- `strcasecmp(a, b) == 0`
abbrev pub same_nocase : List ℕ → List ℕ → Bool
same_nocase [] [] = true
same_nocase [] (d ∷ ds) = false
same_nocase (c ∷ cs) [] = false
same_nocase (c ∷ cs) (d ∷ ds) = (lower c == lower d) && same_nocase cs ds

abbrev pub host_key : List ℕ
host_key = b'H' ∷ b'o' ∷ b's' ∷ b't' ∷ []

abbrev pub user_agent_key : List ℕ
user_agent_key = b'U' ∷ b's' ∷ b'e' ∷ b'r' ∷ b'-' ∷ b'A' ∷ b'g' ∷ b'e' ∷ b'n' ∷ b't' ∷ []

abbrev pub conn_key : List ℕ
conn_key = b'C' ∷ b'o' ∷ b'n' ∷ b'n' ∷ b'e' ∷ b'c' ∷ b't' ∷ b'i' ∷ b'o' ∷ b'n' ∷ []

abbrev pub proxy_conn_key : List ℕ
proxy_conn_key = b'P' ∷ b'r' ∷ b'o' ∷ b'x' ∷ b'y' ∷ b'-' ∷ conn_key

abbrev pub close_value : List ℕ
close_value = b'c' ∷ b'l' ∷ b'o' ∷ b's' ∷ b'e' ∷ []

-- The four flags of the loop.
pub record Seen : Type 0 where
  pub has_host : Bool
  pub has_user_agent : Bool
  pub has_conn : Bool
  pub has_proxy_conn : Bool

-- One round of the loop.
unfoldable pub modify_entry : List ℕ → Seen → Header → Seen × Header
modify_entry agent s h =
    if not s.has_host && same_nocase h.key host_key
    then (record s { has_host = true }, h)
    else if not s.has_user_agent && same_nocase h.key user_agent_key
    then (record s { has_user_agent = true }, record h { value = agent })
    else if not s.has_conn && same_nocase h.key conn_key
    then (record s { has_conn = true }, record h { value = close_value })
    else if not s.has_proxy_conn && same_nocase h.key proxy_conn_key
    then (record s { has_proxy_conn = true }, record h { value = close_value })
    else (s, h)

unfoldable pub modify_entries : List ℕ → Seen → List Header → Seen × List Header
modify_entries agent s [] = (s, [])
modify_entries agent s (h ∷ hs) =
    let step = modify_entry agent s h in
    let rest = modify_entries agent step.0 hs in (rest.0, step.1 ∷ rest.1)

-- `add_reqhdr_entry` behind the last header, if the flag is not set
abbrev pub add_missing : Bool → List ℕ → List ℕ → List Header → List Header
add_missing true key value hs = hs
add_missing false key value hs = hs ++ record { key = key; value = value } ∷ []

abbrev pub host_value : (ℕ → List ℕ) → List ℕ → ℕ → List ℕ
host_value decimal hostname port = if port == 80 then hostname else hostname ++ b':' ∷ decimal port

-- The size of the array for the hostname, the colon and the port, one less than these can take.
abbrev pub host_size : ℕ
host_size = 69

-- Whether the added value of Host, with its NUL, outgrows the array.
abbrev pub host_overruns : (ℕ → List ℕ) → List ℕ → ℕ → Bool → Bool
host_overruns decimal hostname port has_host =
    not has_host && not (port == 80) && leb host_size (length (hostname ++ b':' ∷ decimal port))

-- `none`: without a header, `pLast` is not initialised when the first one is added behind it; or the
-- value of Host outgrows its array.
unfoldable pub modify_header_entries :
    (ℕ → List ℕ) → List ℕ → List ℕ → ℕ → List Header → Option (List Header)
modify_header_entries decimal agent hostname port [] = none
modify_header_entries decimal agent hostname port (h ∷ hs) =
    let none_seen : Seen = record {
      has_host = false;
      has_user_agent = false;
      has_conn = false;
      has_proxy_conn = false;
    } in
    let out = modify_entries agent none_seen (h ∷ hs) in
    let host = add_missing out.0.has_host host_key (host_value decimal hostname port) out.1 in
    let user_agent = add_missing out.0.has_user_agent user_agent_key agent host in
    let conn = add_missing out.0.has_conn conn_key close_value user_agent in
    if host_overruns decimal hostname port out.0.has_host
    then none
    else some (add_missing out.0.has_proxy_conn proxy_conn_key close_value conn)
