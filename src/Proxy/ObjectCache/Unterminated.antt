-- ===== src/Proxy/ObjectCache/Unterminated.antt =====
-- What the missing NUL behind the copy of a key in proxylab_code/cache.c leads to.
use csapp_lab_code.Base.{
  ℕ, ◌≤◌, ◌≡◌, ◌≢◌, refl, sym, ap, ◌∙◌, inl, inr, true, none, some, List, [], ◌∷◌, ◌++◌, length,
  length-append, arith,
}
use mathlib.Core.Path.{subst}
use csapp_lab_code.Proxy.ObjectCache.{
  ObjectMeta, ObjectCache, max_object_size, pack_object, stored_text, cache_insert_if_possible,
  cache_retrieve_if_possible,
}
use csapp_lab_code.Proxy.ObjectCache.Sizes.{IsSized}
use csapp_lab_code.Proxy.ObjectCache.Members.{In, Away}
use csapp_lab_code.Proxy.ObjectCache.Index.{IsIndexed}
use csapp_lab_code.Proxy.ObjectCache.Lookup.{cache_insert-queue, cache_retrieve-queue}

append_self : (s t : List ℕ) → s ++ t ≡ s → t ≡ []
append_self s [] e = refl
append_self s (c ∷ t) e = absurd (omega (arith, ap length e, length-append s (c ∷ t)))

In-behind : (m : ObjectMeta) (gone rest : List ObjectMeta) → In m rest → In m (gone ++ rest)
In-behind m [] rest i = i
In-behind m (x ∷ gone) rest i = inr (In-behind m gone rest i)

pack_object-text :
    (behind : ℕ → List ℕ) (address : ℕ) (key object : List ℕ)
    → stored_text behind (pack_object address key object) ≡ key ++ behind address
unfolding pack_object
pack_object-text behind address key object = refl

-- On a cache of the right size whose index and queue hold the same objects, each once and in the
-- group of its key's hash, an object of at most MAX_OBJECT_SIZE bytes that is inserted at a new
-- address is not found with its key while the byte behind its copy of the key is not a NUL, if
-- `strcmp` reads the key at no other object.
pub cache_insert-lost :
    (behind : ℕ → List ℕ) (address : ℕ) (key object : List ℕ) (c : ObjectCache)
    → IsIndexed c
    → IsSized c
    → Away address c.queue
    → length object ≤ max_object_size
    → ((m : ObjectMeta) → In m c.queue → stored_text behind m ≢ key)
    → behind address ≢ []
    → (c' : ObjectCache) × (cache_insert_if_possible address key object c ≡ some (true, c'))
      × (cache_retrieve_if_possible behind key c' ≡ (none, c'))
cache_insert-lost behind address key object c v z fresh small others unended =
    let (c', rest, gone, inserted, queue, split, needed, v', z') =
      cache_insert-queue address key object c v z fresh small in
    let new = pack_object address key object in
    let differs : (m : ObjectMeta) → In m (new ∷ rest) → stored_text behind m ≢ key = λ m i e.
      elim i [
        | inl here ↦
            let text =
              sym (pack_object-text behind address key object)
              ∙ ap (stored_text behind) (sym here)
              ∙ e in
            unended (append_self key (behind address) text)
        | inr there ↦ others m (rw split (In-behind m gone rest there)) e
      ] in
    (
      c',
      inserted,
      elim (cache_retrieve-queue behind key c' v') [
        | inl (m, moved, i, e, hit, first, indexed) ↦ absurd (differs m (subst (In m) queue i) e)
        | inr (none_read, miss) ↦ miss
      ],
    )
