-- ===== src/Proxy/Service/Cached.antt =====
-- What `doit` of proxylab_code/server.c writes to the client, with the response from the remote host and
-- with the response from the cache.
use csapp_lab_code.Base.{
  ℕ, ◌^◌, ◌≤◌, ◌<◌, ◌≡◌, refl, ap, ◌∙◌, true, false, Option, none, some, List, [], ◌∷◌, length, ltb,
  inl, inr, arith, Option-cases,
}
use csapp_lab_code.Proxy.Scan.{Text}
use csapp_lab_code.Proxy.Headers.{Header}
use csapp_lab_code.Proxy.Request.{RequestLine, accepted, parse_http_request_line}
use csapp_lab_code.Proxy.Forward.{take, forwarded, unreachable, forward_request}
use csapp_lab_code.Proxy.ObjectCache.{
  ObjectCache, max_object_size, group, get_string_hash32, find_key, cache_insert_if_possible,
  cache_retrieve_if_possible,
}
use csapp_lab_code.Proxy.ObjectCache.Sizes.{IsSized, cache_insert-retrieve}
use csapp_lab_code.Proxy.Service.{
  Output, output_response_from_remote, read_request_line, read_requesthdrs, headers, request_key,
  served, process_ends, Surroundings, keep_response, fetch, answer, respond, doit,
}
use csapp_lab_code.Proxy.Service.Written.{concat, AllSome, output_response_from_remote-written}

retrieve-none :
    (behind : ℕ → Text) (key : Text) (c : ObjectCache)
    → (cache_retrieve_if_possible behind key c).0 ≡ none
    → cache_retrieve_if_possible behind key c ≡ (none, c)
unfolding cache_retrieve_if_possible
retrieve-none behind key c e =
    elim (Option-cases (find_key behind key (group c (get_string_hash32 key)))) [
      | inl miss ↦ rw (miss, cache_retrieve_if_possible) refl
      | inr (m, hit) ↦ let found = rw (hit, cache_retrieve_if_possible) at e in absurd (cc)
    ]

retrieve-some :
    (behind : ℕ → Text) (key object : Text) (c : ObjectCache)
    → (cache_retrieve_if_possible behind key c).0 ≡ some object
    → (c' : ObjectCache) × (cache_retrieve_if_possible behind key c ≡ (some object, c'))
retrieve-some behind key object c e = (
  (cache_retrieve_if_possible behind key c).1,
  ap {A = Option Text} {B = Option Text × ObjectCache}
      (λ o. (o, (cache_retrieve_if_possible behind key c).1)) e,
)

module _ (env : Surroundings) (key sent : Text) (o : Output) (c : ObjectCache) where
  keep-large :
      max_object_size < o.len → keep_response env key sent o c ≡ served o.written (some sent) c
  keep-large h = let large : ltb max_object_size o.len ≡ true = ground arith in rw large refl

  keep-small :
      (c' : ObjectCache)
      → o.len ≤ max_object_size
      → cache_insert_if_possible env.address key (take o.len o.resp_buf) c ≡ some (true, c')
      → keep_response env key sent o c ≡ served o.written (some sent) c'
  keep-small c' h inserted =
      let small : ltb max_object_size o.len ≡ false = ground arith in rw (small, inserted) refl

module _ (rounds : ℕ) (env : Surroundings) (c : ObjectCache) (line : Text) (ts : List Text)
    (r : RequestLine) (hs : List Header) where
  doit-answer :
      parse_http_request_line env.left line ≡ accepted r
      → read_requesthdrs rounds ts ≡ headers hs
      → doit rounds env (line ∷ ts) c
        ≡ answer env r hs (cache_retrieve_if_possible env.behind (request_key r) c)
  unfolding doit read_request_line respond
  doit-answer e f = rw (e, doit, f) refl

  -- A valid request that is not in the cache, to a host to which no connection can be opened, ends
  -- the whole process.
  pub doit-unreachable :
      parse_http_request_line env.left line ≡ accepted r
      → read_requesthdrs rounds ts ≡ headers hs
      → (cache_retrieve_if_possible env.behind (request_key r) c).0 ≡ none
      → forward_request env.remote env.agent env.after r hs ≡ unreachable
      → doit rounds env (line ∷ ts) c ≡ process_ends
  unfolding fetch
  doit-unreachable e f miss refused =
      doit-answer e f ∙ rw (retrieve-none env.behind (request_key r) c miss, refused, fetch) refl

  module _ (sent : Text) (pieces : List Text) where
    abbrev output : Output
    output = output_response_from_remote pieces env.junk max_object_size

    fetch-forwarded :
        forward_request env.remote env.agent env.after r hs ≡ forwarded sent pieces
        → fetch env r hs c ≡ keep_response env (request_key r) sent output c
    unfolding fetch
    fetch-forwarded got = rw (got, fetch) refl

    -- A response of more than MAX_OBJECT_SIZE bytes is passed on as a whole, and the cache does not
    -- change.
    pub doit-large :
        parse_http_request_line env.left line ≡ accepted r
        → read_requesthdrs rounds ts ≡ headers hs
        → (cache_retrieve_if_possible env.behind (request_key r) c).0 ≡ none
        → forward_request env.remote env.agent env.after r hs ≡ forwarded sent pieces
        → length env.junk ≡ max_object_size
        → AllSome pieces
        → max_object_size < length (concat pieces)
        → length (concat pieces) < 2 ^ 64
        → doit rounds env (line ∷ ts) c ≡ served (concat pieces) (some sent) c
    doit-large e f miss got size all large small =
        let (v, w) =
          output_response_from_remote-written pieces env.junk max_object_size size all small in
        let over : max_object_size < output.len = rw (v.whole, w) large in
        doit-answer e f
        ∙ ap (answer env r hs) (retrieve-none env.behind (request_key r) c miss)
        ∙ fetch-forwarded got
        ∙ keep-large env (request_key r) sent output c over
        ∙ ap (λ t. served t (some sent) c) w

    small_lem :
        IsSized c
        → (cache_retrieve_if_possible env.behind (request_key r) c).0 ≡ none
        → forward_request env.remote env.agent env.after r hs ≡ forwarded sent pieces
        → length env.junk ≡ max_object_size
        → AllSome pieces
        → length (concat pieces) ≤ max_object_size
        → (c' : ObjectCache) × (answer env r hs
              (cache_retrieve_if_possible env.behind (request_key r) c)
            ≡ served (concat pieces) (some sent) c')
          × IsSized c'
          × ((behind : ℕ → Text)
              → behind env.address ≡ []
              → (cache_retrieve_if_possible behind (request_key r) c').0 ≡ some (concat pieces))
    small_lem v miss got size all small =
        let (c', inserted, v', again) =
          cache_insert-retrieve env.address (request_key r) (concat pieces) c v small in
        let (o, w) =
          output_response_from_remote-written pieces env.junk max_object_size size all
            (omega arith) in
        let len : output.len ≡ length (concat pieces) = o.whole ∙ ap length w in
        let kept : take output.len output.resp_buf ≡ concat pieces = elim o.kept [
          | inl same ↦ same ∙ w
          | inr over ↦ absurd (omega (arith, len))
        ] in
        (
          c',
          ap (answer env r hs) (retrieve-none env.behind (request_key r) c miss)
              ∙ fetch-forwarded got
              ∙ keep-small env (request_key r) sent output c c' (omega (arith, len)) (
                  ap (λ t. cache_insert_if_possible env.address (request_key r) t c) kept
                  ∙ inserted)
              ∙ ap (λ t. served t (some sent) c') w,
          v',
          again,
        )

-- On a cache of the right size without the response, a valid request whose host answers with at
-- most MAX_OBJECT_SIZE bytes, in pieces that are not empty, is served with the concatenation of the
-- pieces, and leaves a cache of the right size. If the byte behind the copy of the key, which has
-- no NUL, is a NUL, a second request with the same method, host, port and path, whatever the
-- network does then, is served with the same bytes without a connection. Both headers are complete
-- within the rounds given to the loop that reads them.
pub doit-doit :
    (rounds rounds' : ℕ) (env env' : Surroundings) (c : ObjectCache) (line line' : Text)
    (ts ts' : List Text) (r r' : RequestLine) (hs hs' : List Header) (sent : Text)
    (pieces : List Text)
    → IsSized c
    → parse_http_request_line env.left line ≡ accepted r
    → read_requesthdrs rounds ts ≡ headers hs
    → (cache_retrieve_if_possible env.behind (request_key r) c).0 ≡ none
    → forward_request env.remote env.agent env.after r hs ≡ forwarded sent pieces
    → length env.junk ≡ max_object_size
    → AllSome pieces
    → length (concat pieces) ≤ max_object_size
    → parse_http_request_line env'.left line' ≡ accepted r'
    → read_requesthdrs rounds' ts' ≡ headers hs'
    → request_key r' ≡ request_key r
    → env'.behind env.address ≡ []
    → (c' : ObjectCache) × (doit rounds env (line ∷ ts) c ≡ served (concat pieces) (some sent) c')
      × IsSized c'
      × ((c'' : ObjectCache) × (doit rounds' env' (line' ∷ ts') c'
            ≡ served (concat pieces) none c''))
doit-doit rounds rounds' env env' c line line' ts ts' r r' hs hs' sent pieces v e f miss got size
      all small e' f' same nul =
    let (c', first, v', again) =
      small_lem rounds env c line ts r hs sent pieces v miss got size all small in
    let (c'', hit) =
      retrieve-some env'.behind (request_key r) (concat pieces) c' (again env'.behind nul) in
    (
      c',
      doit-answer rounds env c line ts r hs e f ∙ first,
      v',
      (
        c'',
        doit-answer rounds' env' c' line' ts' r' hs' e' f'
            ∙ ap (λ k. answer env' r' hs' (cache_retrieve_if_possible env'.behind k c')) same
            ∙ ap (answer env' r' hs') hit,
      ),
    )
