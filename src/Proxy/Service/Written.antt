-- ===== src/Proxy/Service/Written.antt =====
-- The loop of proxylab_code/server.c that passes a response on: what it writes, and what the array holds.
use csapp_lab_code.Base.{
  ℕ, zero, suc, ◌+◌, ◌%◌, ◌^◌, ◌≤◌, ◌<◌, ◌≡◌, ◌≢◌, refl, sym, ap, ◌∙◌, ◌⊎◌, List, [], ◌∷◌, ◌++◌,
  length, length-append, length-set, set, leb, Bool-cases, inl, inr, arith,
}
use mathlib.Core.List.{append_assoc, append-nil}
use csapp_lab_code.Proxy.Scan.{Text}
use csapp_lab_code.Proxy.Forward.{take}
use csapp_lab_code.Proxy.Service.{
  memncat, Output, output_piece, output_loop, output_response_from_remote,
}

take-set :
    (dest : Text) (offset c : ℕ)
    → offset < length dest
    → take (suc offset) (set dest offset c) ≡ take offset dest ++ c ∷ []
take-set [] offset c h = absurd (omega arith)
take-set (d ∷ ds) zero c h = refl
take-set (d ∷ ds) (suc offset) c h = ap (λ t. d ∷ t) (take-set ds offset c (omega arith))

length-memncat :
    (dest : Text) (offset : ℕ) (src : Text) → length (memncat dest offset src) ≡ length dest
unfolding memncat
length-memncat dest offset [] = refl
length-memncat dest offset (c ∷ cs) =
    length-memncat (set dest offset c) (offset + 1) cs ∙ length-set dest offset c

-- Behind a copy at an offset, the bytes up to its end are the old ones and the copied ones.
take-memncat :
    (dest : Text) (offset : ℕ) (src : Text)
    → offset + length src ≤ length dest
    → take (offset + length src) (memncat dest offset src) ≡ take offset dest ++ src
unfolding memncat
take-memncat dest offset [] h =
    ap (λ (n : ℕ). take n dest) {x = offset + 0} {y = offset} (omega arith)
    ∙ sym (append-nil (take offset dest))
take-memncat dest offset (c ∷ cs) h =
    let size = length-set dest offset c in
    let rest = take-memncat (set dest offset c) (offset + 1) cs (omega (arith, size)) in
    let one : take (offset + 1) (set dest offset c) ≡ take offset dest ++ c ∷ [] =
      ap (λ (n : ℕ). take n (set dest offset c)) {x = offset + 1} {y = suc offset} (omega arith)
      ∙ take-set dest offset c (omega arith) in
    let ends : offset + suc (length cs) ≡ offset + 1 + length cs = omega arith in
    ap (λ (n : ℕ). take n (memncat (set dest offset c) (offset + 1) cs)) ends
    ∙ rest
    ∙ ap {A = Text} (λ t. t ++ cs) one
    ∙ append_assoc (take offset dest) (c ∷ []) cs

abbrev pub concat : List Text → Text
concat [] = []
concat (t ∷ ts) = t ++ concat ts

abbrev pub AllSome : List Text → Type 0
AllSome [] = Unit
AllSome (t ∷ ts) = (t ≢ []) × AllSome ts

-- The array holds all that was written, as long as that fits.
pub record IsOutput (limit : ℕ) (o : Output) : Type 0 where
  pub whole : o.len ≡ length o.written
  pub size : length o.resp_buf ≡ limit
  pub kept : (take o.len o.resp_buf ≡ o.written) ⊎ (limit < o.len)

output_piece-IsOutput :
    (limit : ℕ) (o : Output) (piece : Text)
    → IsOutput limit o
    → o.len + length piece < 2 ^ 64
    → IsOutput limit (output_piece limit o piece)
unfolding output_piece
output_piece-IsOutput limit o piece v small =
    let wraps : (o.len + length piece) % 2 ^ 64 ≡ o.len + length piece = omega arith in
    let sum = length-append o.written piece in
    elim (Bool-cases (leb (o.len + length piece) limit)) [
      | inl fits ↦
          rw (wraps, fits)
            (record {
              whole = omega (arith, sum, v.whole);
              size = length-memncat o.resp_buf o.len piece ∙ v.size;
              kept = elim v.kept [
                | inl same ↦ inl (
                    take-memncat o.resp_buf o.len piece (ground (arith, v.size))
                    ∙ ap {A = Text} (λ t. t ++ piece) same)
                | inr over ↦ absurd (ground arith)
              ];
            })
      | inr over ↦
          rw (wraps, over)
            (record {
              whole = omega (arith, sum, v.whole);
              size = v.size;
              kept = inr (ground arith);
            })
    ]

written :
    (o : Output) (piece : Text) (limit : ℕ)
    → (output_piece limit o piece).written ≡ o.written ++ piece
unfolding output_piece
written o piece limit = refl

output_loop-IsOutput :
    (limit : ℕ) (o : Output) (pieces : List Text)
    → IsOutput limit o
    → AllSome pieces
    → o.len + length (concat pieces) < 2 ^ 64
    → IsOutput limit (output_loop limit o pieces)
      × ((output_loop limit o pieces).written ≡ o.written ++ concat pieces)
unfolding output_loop
output_loop-IsOutput limit o [] v all small = (v, sym (append-nil o.written))
output_loop-IsOutput limit o ([] ∷ pieces) v all small = absurd (all.0 refl)
output_loop-IsOutput limit o ((c ∷ cs) ∷ pieces) v all small =
    let sum = length-append (c ∷ cs) (concat pieces) in
    let o1 = output_piece limit o (c ∷ cs) in
    let v1 = output_piece-IsOutput limit o (c ∷ cs) v (omega (arith, sum)) in
    let more = length-append o.written (c ∷ cs) in
    let (v2, e) =
      output_loop-IsOutput limit o1 pieces v1 all.1
        (omega (arith, sum, v1.whole, v.whole, more, ap length (written o (c ∷ cs) limit))) in
    (
      v2,
      e
          ∙ ap {A = Text} (λ t. t ++ concat pieces) (written o (c ∷ cs) limit)
          ∙ append_assoc o.written (c ∷ cs) (concat pieces),
    )

-- If no piece is empty, all pieces are written, their length is returned, and the array holds them
-- if they fit.
pub output_response_from_remote-written :
    (pieces : List Text) (junk : Text) (limit : ℕ)
    → length junk ≡ limit
    → AllSome pieces
    → length (concat pieces) < 2 ^ 64
    → IsOutput limit (output_response_from_remote pieces junk limit)
      × ((output_response_from_remote pieces junk limit).written ≡ concat pieces)
unfolding output_response_from_remote
output_response_from_remote-written pieces junk limit size all small =
    let start : Output = record { written = []; resp_buf = junk; len = 0 } in
    let fresh : IsOutput limit start = record { whole = refl; size = size; kept = inl refl } in
    output_loop-IsOutput limit start pieces fresh all (omega arith)
