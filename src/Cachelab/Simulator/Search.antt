-- ===== src/Cachelab/Simulator/Search.antt =====
-- The search of `accessCache` in cachelab_code/simulator.c: the line it hits, and the line it leaves in
-- `lineForUse` where it hits none.
use csapp_lab_code.Base.{
  ℕ, zero, suc, ◌+◌, ◌≤◌, ◌<◌, ◌≡◌, refl, ◌∙◌, Bool, true, false, ◌&&◌, Option, none, some, List,
  [], ◌∷◌, get_elem?, find_index, later, ltb, ◌==◌, Bool-cases, inl, inr, arith, ap,
}
use mathlib.Core.Option.{some-injective}
use csapp_lab_code.Cachelab.Cache.{CacheLine}
use csapp_lab_code.Cachelab.Simulator.{cold_miss, hit, Scan, scan, keep_lru, found_empty}

-- The line holds the block of this tag.
abbrev pub matches : ℕ → CacheLine → Bool
matches tag line = line.is_valid && line.tag == tag

abbrev pub shift : ℕ → Option ℕ → Option ℕ
shift i none = none
shift i (some j) = some (i + j)

shift-later : (i : ℕ) (o : Option ℕ) → shift (suc i) o ≡ shift i (later o)
shift-later i none = refl
shift-later i (some j) = ap some (omega arith)

-- The search finds the first line that holds the block.
pub scan-find :
    (tag i : ℕ) (lines : List CacheLine) (s : Scan)
    → (scan tag i lines s).0 ≡ shift i (find_index (matches tag) lines)
unfolding scan find_index
scan-find tag i [] s = refl
scan-find tag i (line ∷ lines) s =
    let passed = scan-find tag (suc i) lines (keep_lru i line s) in
    let empty = scan-find tag (suc i) lines (found_empty i s) in
    ground (arith, passed, empty, shift-later i (find_index (matches tag) lines))

abbrev pub AllValid : List CacheLine → Type 0
AllValid lines = (j : ℕ) (l : CacheLine) → get_elem? lines j ≡ some l → l.is_valid ≡ true

abbrev pub NoneOlder : ℕ → List CacheLine → Type 0
NoneOlder order lines =
    (j : ℕ) (l : CacheLine) → get_elem? lines j ≡ some l → order ≤ l.access_order

-- What the loop has kept when it ends without a hit: an empty line, the valid line of least order, or
-- nothing below the order it started with.
pub data Outcome (i : ℕ) (lines : List CacheLine) (s r : Scan) : Type 0 where
  empty :
      (j : ℕ) (l : CacheLine)
      → get_elem? lines j ≡ some l
      → l.is_valid ≡ false
      → r.state ≡ cold_miss
      → r.use_line ≡ i + j
      → Outcome i lines s r
  oldest :
      (j : ℕ) (l : CacheLine)
      → get_elem? lines j ≡ some l
      → AllValid lines
      → NoneOlder (l.access_order) lines
      → r.state ≡ s.state
      → r.use_line ≡ i + j
      → l.access_order < s.lru
      → Outcome i lines s r
  nothing : AllValid lines → NoneOlder (s.lru) lines → r ≡ s → Outcome i lines s r

valid_cons :
    (x : CacheLine) (lines : List CacheLine)
    → x.is_valid ≡ true
    → AllValid lines
    → AllValid (x ∷ lines)
valid_cons x lines v all zero l e = rw (← some-injective _ _ e) v
valid_cons x lines v all (suc j) l e = all j l e

none_cons :
    (order : ℕ) (x : CacheLine) (lines : List CacheLine)
    → order ≤ x.access_order
    → NoneOlder order lines
    → NoneOlder order (x ∷ lines)
none_cons order x lines le all zero l e = rw (← some-injective _ _ e) le
none_cons order x lines le all (suc j) l e = all j l e

after_empty :
    (i : ℕ) (x : CacheLine) (lines : List CacheLine) (s r : Scan)
    → x.is_valid ≡ false
    → Outcome (suc i) lines (found_empty i s) r
    → Outcome i (x ∷ lines) s r
after_empty i x lines s r inv (empty j l at v st at_use) =
    empty (suc j) l at v st (at_use ∙ omega arith)
after_empty i x lines s r inv (oldest j l at all least st at_use lt) = absurd (omega arith)
after_empty i x lines s r inv (nothing all least same) =
    empty 0 x refl inv (ap (λ t. t.state) same) (ap (λ t. t.use_line) same ∙ omega arith)

after_valid :
    (i : ℕ) (x : CacheLine) (lines : List CacheLine) (s r : Scan)
    → x.is_valid ≡ true
    → Outcome (suc i) lines (keep_lru i x s) r
    → Outcome i (x ∷ lines) s r
after_valid i x lines s r v (empty j l at inv st at_use) =
    empty (suc j) l at inv st (at_use ∙ omega arith)
after_valid i x lines s r v (oldest j l at all least st at_use lt) =
    oldest (suc j) l at (valid_cons x lines v all)
      (none_cons (l.access_order) x lines (ground arith) least) (ground arith)
      (at_use ∙ omega arith) (ground arith)
after_valid i x lines s r v (nothing all least same) =
    elim (Bool-cases (ltb (x.access_order) (s.lru))) [
      | inl less ↦
          let same' = rw less at same in
          let least' = rw less at least in
          oldest 0 x refl (valid_cons x lines v all)
            (none_cons (x.access_order) x lines (omega arith) least') (ap (λ t. t.state) same')
            (ap (λ t. t.use_line) same' ∙ omega arith) (ground arith)
      | inr more ↦
          let same' = rw more at same in
          let least' = rw more at least in
          nothing (valid_cons x lines v all) (none_cons (s.lru) x lines (ground arith) least') same'
    ]

-- The search that hits no line leaves the outcome of the whole set.
pub scan-Outcome :
    (tag i : ℕ) (lines : List CacheLine) (s : Scan)
    → find_index (matches tag) lines ≡ none
    → Outcome i lines s ((scan tag i lines s).1)
unfolding scan find_index
scan-Outcome tag i [] s e = nothing (λ j l h. absurd (cc)) (λ j l h. absurd (cc)) refl
scan-Outcome tag i (x ∷ lines) s e = elim (Bool-cases (x.is_valid)) [
  | inl v ↦
      let miss : (x.tag == tag) ≡ false = ground arith in
      let rest : find_index (matches tag) lines ≡ none = ground arith in
      simp (v, miss)
        (after_valid i x lines s _ v (scan-Outcome tag (suc i) lines (keep_lru i x s) rest))
  | inr v ↦
      let rest : find_index (matches tag) lines ≡ none = ground arith in
      simp v (after_empty i x lines s _ v (scan-Outcome tag (suc i) lines (found_empty i s) rest))
]

-- A search that hits sets the state to a hit.
pub scan-hit :
    (tag i j : ℕ) (lines : List CacheLine) (s : Scan)
    → (scan tag i lines s).0 ≡ some j
    → (scan tag i lines s).1.state ≡ hit
unfolding scan
scan-hit tag i j [] s e = absurd (cc)
scan-hit tag i j (line ∷ lines) s e =
    let passed = scan-hit tag (suc i) j lines (keep_lru i line s) in
    let empty = scan-hit tag (suc i) j lines (found_empty i s) in ground (arith, passed, empty)
