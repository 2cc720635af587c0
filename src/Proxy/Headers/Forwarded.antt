-- ===== src/Proxy/Headers/Forwarded.antt =====
-- The headers that proxylab_code/client.c forwards.
use csapp_lab_code.Base.{
  ℕ, ◌≡◌, refl, ◌∙◌, ap, Bool, true, false, Option, none, some, List, [], ◌∷◌, ◌++◌, if◌then◌else◌,
  Bool-cases, inl, inr, arith, ◌+◌, ◌<◌, length, length-append,
}
use csapp_lab_code.Proxy.Headers.{
  Header, same_nocase, host_key, user_agent_key, conn_key, proxy_conn_key, close_value, Seen,
  modify_entry, modify_entries, add_missing, host_value, host_overruns, modify_header_entries,
}

-- The value of the first header with this key.
abbrev pub first_value : List ℕ → List Header → Option (List ℕ)
first_value key [] = none
first_value key (h ∷ hs) = if same_nocase h.key key then some h.value else first_value key hs

abbrev pub or_else : Option (List ℕ) → List ℕ → Option (List ℕ)
or_else none v = some v
or_else (some w) v = some w

same_nocase_refl : (key : List ℕ) → same_nocase key key ≡ true
same_nocase_refl [] = refl
same_nocase_refl (c ∷ cs) = ground (arith, same_nocase_refl cs)

first_value-append :
    (key value : List ℕ) (hs : List Header)
    → first_value key (hs ++ record { key = key; value = value } ∷ [])
      ≡ or_else (first_value key hs) value
first_value-append key value [] = rw (same_nocase_refl key) refl
first_value-append key value (h ∷ hs) = ground (arith, first_value-append key value hs)

first_value-append_ne :
    (key other value : List ℕ) (hs : List Header)
    → same_nocase other key ≡ false
    → first_value key (hs ++ record { key = other; value = value } ∷ []) ≡ first_value key hs
first_value-append_ne key other value [] ne = rw ne refl
first_value-append_ne key other value (h ∷ hs) ne =
    ground (arith, first_value-append_ne key other value hs ne)

-- A key that starts with another letter is another key.
conn_only :
    (key : List ℕ)
    → same_nocase key conn_key ≡ true
    → (same_nocase key host_key ≡ false)
      × (same_nocase key user_agent_key ≡ false)
      × (same_nocase key proxy_conn_key ≡ false)
conn_only [] e = absurd (cc)
conn_only (c ∷ cs) e = ground arith

modify_entry-key : (agent : List ℕ) (s : Seen) (h : Header) → (modify_entry agent s h).1.key ≡ h.key
unfolding modify_entry
modify_entry-key agent s h = ground arith

entry_conn :
    (agent : List ℕ) (s : Seen) (h : Header)
    → s.has_conn ≡ false
    → same_nocase h.key conn_key ≡ true
    → ((modify_entry agent s h).0.has_conn ≡ true)
      × ((modify_entry agent s h).1.value ≡ close_value)
unfolding modify_entry
entry_conn agent s h e hit =
    let (nh, nu, np) = conn_only h.key hit in simp (nh, nu, hit, e) (ground arith)

entry_other :
    (agent : List ℕ) (s : Seen) (h : Header)
    → same_nocase h.key conn_key ≡ false
    → (modify_entry agent s h).0.has_conn ≡ s.has_conn
unfolding modify_entry
entry_other agent s h miss = ground arith

entry_keeps :
    (agent : List ℕ) (s : Seen) (h : Header)
    → s.has_conn ≡ true
    → (modify_entry agent s h).0.has_conn ≡ true
unfolding modify_entry
entry_keeps agent s h e = ground arith

loop_keeps :
    (agent : List ℕ) (s : Seen) (hs : List Header)
    → s.has_conn ≡ true
    → (modify_entries agent s hs).0.has_conn ≡ true
unfolding modify_entries
loop_keeps agent s [] e = e
loop_keeps agent s (h ∷ hs) e =
    loop_keeps agent (modify_entry agent s h).0 hs (entry_keeps agent s h e)

-- The loop sets the first value and raises the flag, or there is no such header.
loop_conn :
    (agent : List ℕ) (s : Seen) (hs : List Header)
    → s.has_conn ≡ false
    → first_value conn_key (modify_entries agent s hs).1
      ≡ (if (modify_entries agent s hs).0.has_conn then some close_value else none)
unfolding modify_entries
loop_conn agent s [] e = rw e refl
loop_conn agent s (h ∷ hs) e =
    let key = modify_entry-key agent s h in
    elim (Bool-cases (same_nocase h.key conn_key)) [
      | inl hit ↦
          let (raised, value) = entry_conn agent s h e hit in
          let flag = loop_keeps agent (modify_entry agent s h).0 hs raised in
          ground (arith, key, hit, value, flag)
      | inr miss ↦
          let same = entry_other agent s h miss in
          let rest = loop_conn agent (modify_entry agent s h).0 hs (same ∙ e) in
          ground (arith, key, miss, rest)
    ]

add_missing_ne :
    (b : Bool) (key other value : List ℕ) (hs : List Header)
    → same_nocase other key ≡ false
    → first_value key (add_missing b other value hs) ≡ first_value key hs
add_missing_ne true key other value hs ne = refl
add_missing_ne false key other value hs ne = first_value-append_ne key other value hs ne

add_missing_set :
    (b : Bool) (key value : List ℕ) (hs : List Header)
    → first_value key hs ≡ (if b then some value else none)
    → first_value key (add_missing b key value hs) ≡ some value
add_missing_set true key value hs e = e
add_missing_set false key value hs e = first_value-append key value hs ∙ ap (λ o. or_else o value) e

host_fits :
    (decimal : ℕ → List ℕ) (hostname : List ℕ) (port : ℕ) (has_host : Bool)
    → length hostname + length (decimal port) < 68
    → host_overruns decimal hostname port has_host ≡ false
host_fits decimal hostname port has_host fits =
    let whole = length-append hostname (b':' ∷ decimal port) in ground (arith, whole)

-- For a request with at least one header and a hostname and port that fit, `modify_header_entries` leaves `close` as the value of
-- the first header with the key Connection, in whatever case it is written, and adds one where
-- there was none.
pub modify_header_entries-conn :
    (decimal : ℕ → List ℕ) (agent hostname : List ℕ) (port : ℕ) (h : Header) (hs : List Header)
    → length hostname + length (decimal port) < 68
    → (out : List Header) × (modify_header_entries decimal agent hostname port (h ∷ hs) ≡ some out)
      × (first_value conn_key out ≡ some close_value)
unfolding modify_header_entries
modify_header_entries-conn decimal agent hostname port h hs fits =
    let none_seen : Seen = record {
      has_host = false;
      has_user_agent = false;
      has_conn = false;
      has_proxy_conn = false;
    } in
    let out = modify_entries agent none_seen (h ∷ hs) in
    let host = add_missing out.0.has_host host_key (host_value decimal hostname port) out.1 in
    let user_agent = add_missing out.0.has_user_agent user_agent_key agent host in
    let looped = loop_conn agent none_seen (h ∷ hs) refl in
    let before =
      add_missing_ne out.0.has_user_agent conn_key user_agent_key agent host refl
      ∙ add_missing_ne out.0.has_host conn_key host_key (host_value decimal hostname port) out.1
          refl
      ∙ looped in
    let room : host_overruns decimal hostname port out.0.has_host ≡ false =
      host_fits decimal hostname port out.0.has_host fits in
    let conn = add_missing out.0.has_conn conn_key close_value user_agent in
    (
      add_missing out.0.has_proxy_conn proxy_conn_key close_value conn,
      rw room refl,
      add_missing_ne out.0.has_proxy_conn conn_key proxy_conn_key close_value conn refl
          ∙ add_missing_set out.0.has_conn conn_key close_value user_agent before,
    )
