-- ===== src/FlowMon/Listing/Pages.antt =====
-- The pages of a listing, read one after the other.
use mathlib.Core.List.Permᴰ
use hao_vpn.FlowMon.Listing.Columns.{
  IsRange, columns, sort_by-cols, collect_all-perm, perm-All, Sorted-cols, Exists-cols,
}
use hao_vpn.Prelude.{
  ℕ, zero, suc, ◌+◌, ◌*◌, ◌≤◌, ◌<◌, ◌≡◌, ◌∙◌, refl, sym, ap, subst, All-append, false, List, [],
  ◌∷◌, ◌++◌, some, arith, length, take, drop, All, Exists, map, ◌⊎◌, ◌≢◌,
}
use hao_vpn.Prelude.Int.{pos, leb_ℤ}
use hao_vpn.Prelude.Map.{Map, get}
use hao_vpn.Prelude.Sort.{sort_by}
use hao_vpn.FlowMon.{Tracker}
use hao_vpn.FlowMon.Key.{FlowKey, key_eq}
use hao_vpn.FlowMon.Shards.{Flow, Shard, get_elem?}
use hao_vpn.FlowMon.SortQuery.{SortKey}
use hao_vpn.FlowMon.Observe.{purge}
use hao_vpn.FlowMon.Listing.{
  Snapshot, ListFilter, Iteration, collect, collect_all, purge_all, page, list_flows, before,
  sort_keys_of,
}
use hao_vpn.FlowMon.Listing.Found.{
  Belongs, collect_all-Belongs, collect_all_complete, before-asym, Sorted, sort_by-All,
  sort_by-Sorted, sort_by-Exists, as_stored,
}

module _ {A B : Type 0} (g : A → B) where
  map-append : (xs ys : List A) → map g (xs ++ ys) ≡ map g xs ++ map g ys
  map-append [] ys = refl
  map-append (x ∷ xs) ys = ap (◌∷◌ (g x)) (map-append xs ys)

  map-take : (n : ℕ) (xs : List A) → map g (take n xs) ≡ take n (map g xs)
  map-take zero [] = refl
  map-take (suc n) [] = refl
  map-take zero (x ∷ xs) = refl
  map-take (suc n) (x ∷ xs) = ap (◌∷◌ (g x)) (map-take n xs)

  map-drop : (n : ℕ) (xs : List A) → map g (drop n xs) ≡ drop n (map g xs)
  map-drop zero [] = refl
  map-drop (suc n) [] = refl
  map-drop zero (x ∷ xs) = refl
  map-drop (suc n) (x ∷ xs) = map-drop n xs

  length-map : (xs : List A) → length (map g xs) ≡ length xs
  length-map [] = refl
  length-map (x ∷ xs) = ap suc (length-map xs)

module _ {ℓ} {A : Type ℓ} where
  take-nil : (n : ℕ) → take {A = A} n [] ≡ []
  take-nil zero = refl
  take-nil (suc n) = refl

  drop-nil : (n : ℕ) → drop {A = A} n [] ≡ []
  drop-nil zero = refl
  drop-nil (suc n) = refl

  take-add : (m n : ℕ) (xs : List A) → take (m + n) xs ≡ take m xs ++ take n (drop m xs)
  take-add zero n xs = ap (λ k. take k xs) (omega arith)
  take-add (suc m) n [] = take-nil (suc m + n) ∙ sym (take-nil n)
  take-add (suc m) n (x ∷ xs) =
      let e : suc m + n ≡ suc (m + n) = omega arith in rw e (ap (◌∷◌ x) (take-add m n xs))

  drop-add : (m n : ℕ) (xs : List A) → drop n (drop m xs) ≡ drop (m + n) xs
  drop-add zero n xs = ap (λ k. drop k xs) (omega arith)
  drop-add (suc m) n [] = drop-nil n ∙ sym (drop-nil (suc m + n))
  drop-add (suc m) n (x ∷ xs) =
      let e : suc m + n ≡ suc (m + n) = omega arith in rw e (drop-add m n xs)

  drop-short : (n : ℕ) (xs : List A) → length xs ≤ n → drop n xs ≡ []
  drop-short n [] h = drop-nil n
  drop-short zero (x ∷ xs) h = ground (arith, h)
  drop-short (suc n) (x ∷ xs) h = drop-short n xs (omega (arith, h))

  take-All : (P : A → Type 0) (n : ℕ) (xs : List A) → All P xs → All P (take n xs)
  take-All P n [] h = ground (arith, take-nil n)
  take-All P zero (x ∷ xs) h = tt
  take-All P (suc n) (x ∷ xs) h = (h.0, take-All P n xs h.1)

  drop-All : (P : A → Type 0) (n : ℕ) (xs : List A) → All P xs → All P (drop n xs)
  drop-All P n [] h = ground (arith, drop-nil n)
  drop-All P zero (x ∷ xs) h = h
  drop-All P (suc n) (x ∷ xs) h = drop-All P n xs h.1

  take-long : (n : ℕ) (xs : List A) → length xs ≤ n → take n xs ≡ xs
  take-long n [] h = take-nil n
  take-long zero (x ∷ xs) h = ground (arith, h)
  take-long (suc n) (x ∷ xs) h = ap (◌∷◌ x) (take-long n xs (omega (arith, h)))

abbrev whole : ℕ → ListFilter → Iteration → Tracker → List Snapshot
whole now f range t = sort_by (before (sort_keys_of f)) (collect_all now t.ttl f range t.shards)

abbrev pub page_filter : ℕ → ℕ → ListFilter → ListFilter
page_filter size i f = record f { limit = pos size; offset = pos (i * size) }

-- `n` pages from page `i` on, each from the table that the call before left, and each with its own
-- order of the maps.
unfoldable pub pages : ℕ → ℕ → ℕ → ℕ → ListFilter → (ℕ → Iteration) → Tracker → List Snapshot
pages size zero i now f range t = []
pages size (suc n) i now f range t =
    let (t', shown, total) = list_flows now (page_filter size i f) (range i) t in
    shown ++ pages size n (suc i) now f range t'

collect-purge :
    (now ttl : ℕ) (f : ListFilter) (m : Map FlowKey Flow)
    → collect now ttl f (purge now ttl m) ≡ collect now ttl f m
unfolding collect purge
collect-purge now ttl f [] = refl
collect-purge now ttl f ((k, fl) ∷ m) = ground (arith, collect-purge now ttl f m)

collect_all-purge_all :
    (now ttl : ℕ) (f : ListFilter) (shards : List Shard)
    → collect_all now ttl f as_stored (purge_all now ttl shards)
      ≡ collect_all now ttl f as_stored shards
unfolding collect_all purge_all
collect_all-purge_all now ttl f [] = refl
collect_all-purge_all now ttl f (sh ∷ shards) =
    rw (collect-purge now ttl f sh.by_key, collect_all-purge_all now ttl f shards) refl

collect-page_filter :
    (now ttl size i : ℕ) (f : ListFilter) (m : Map FlowKey Flow)
    → collect now ttl (page_filter size i f) m ≡ collect now ttl f m
unfolding collect
collect-page_filter now ttl size i f [] = refl
collect-page_filter now ttl size i f ((k, fl) ∷ m) =
    ground (arith, collect-page_filter now ttl size i f m)

collect_all-page_filter :
    (now ttl size i : ℕ) (f : ListFilter) (range : Iteration) (shards : List Shard)
    → collect_all now ttl (page_filter size i f) range shards ≡ collect_all now ttl f range shards
unfolding collect_all
collect_all-page_filter now ttl size i f range [] = refl
collect_all-page_filter now ttl size i f range (sh ∷ shards) =
    rw
      (
        collect-page_filter now ttl size i f (range sh.by_key),
        collect_all-page_filter now ttl size i f range shards,
      )
      refl

page-take :
    (size i : ℕ) (xs : List Snapshot)
    → 0 < size
    → page (pos size) (pos (i * size)) xs ≡ take size (drop (i * size) xs)
unfolding page
page-take size i xs h =
    let positive : leb_ℤ (pos size) (pos 0) ≡ false = ground arith in
    let past : length xs ≤ i * size → take size (drop (i * size) xs) ≡ [] =
      λ short. ap (take size) (drop-short (i * size) xs short) ∙ take-nil size in
    rw (page, positive) (ground (arith, past))

-- One page of the whole.
shown-take :
    (size i now : ℕ) (f : ListFilter) (range : Iteration) (t : Tracker)
    → 0 < size
    → (list_flows now (page_filter size i f) range t).1
      ≡ take size (drop (i * size) (whole now f range t))
unfolding list_flows
shown-take size i now f range t h =
    rw (collect_all-page_filter now t.ttl size i f range t.shards)
      (page-take size i (whole now f range t) h)

module _ (now : ℕ) (f : ListFilter) where
  abbrev col : Snapshot → List ℕ
  col = columns (sort_keys_of f)

  -- The columns of the whole, which no order changes.
  abbrev all_columns : Tracker → List (List ℕ)
  all_columns t = map col (whole now f as_stored t)

  whole-columns :
      (range : Iteration) (t : Tracker)
      → IsRange range
      → map col (whole now f range t) ≡ all_columns t
  whole-columns range t r =
      sort_by-cols (sort_keys_of f) (collect_all-perm now t.ttl f range t.shards r)

  left_behind : ListFilter → Iteration → Tracker → Tracker
  unfolding list_flows
  left_behind g range t = (list_flows now g range t).0

  whole-left_behind :
      (g : ListFilter) (range : Iteration) (t : Tracker)
      → whole now f as_stored (left_behind g range t) ≡ whole now f as_stored t
  unfolding list_flows left_behind
  whole-left_behind g range t =
      ap (sort_by (before (sort_keys_of f))) (collect_all-purge_all now t.ttl f t.shards)

  whole-All :
      (P : Snapshot → Type 0) (range : Iteration) (t : Tracker)
      → IsRange range
      → All P (collect_all now t.ttl f as_stored t.shards)
      → All P (whole now f range t)
  whole-All P range t r h =
      sort_by-All P (before (sort_keys_of f)) (collect_all now t.ttl f range t.shards)
        (perm-All P (Permᴰ.symm (collect_all-perm now t.ttl f range t.shards r)) h)

  -- The columns of `n` pages are a stretch of those of the whole.
  pages-columns :
      (size n i : ℕ) (range : ℕ → Iteration) (t : Tracker)
      → 0 < size
      → ((j : ℕ) → IsRange (range j))
      → map col (pages size n i now f range t) ≡ take (n * size) (drop (i * size) (all_columns t))
  unfolding pages left_behind
  pages-columns size zero i range t h r = let e : zero * size ≡ 0 = omega arith in rw e refl
  pages-columns size (suc n) i range t h r =
      let start : suc i * size ≡ i * size + size = ground arith in
      let end : size + n * size ≡ suc n * size = ground arith in
      let g = page_filter size i f in
      let t' = left_behind g (range i) t in
      let c = all_columns t in
      let shown = (list_flows now g (range i) t).1 in
      let first : map col shown ≡ take size (drop (i * size) c) =
        ap (map col) (shown-take size i now f (range i) t h)
        ∙ map-take col size (drop (i * size) (whole now f (range i) t))
        ∙ ap (take size) (map-drop col (i * size) (whole now f (range i) t))
        ∙ ap (λ v. take size (drop (i * size) v)) (whole-columns (range i) t (r i)) in
      let later : map col (pages size n (suc i) now f range t')
          ≡ take (n * size) (drop size (drop (i * size) c)) =
        pages-columns size n (suc i) range t' h r
        ∙ ap (λ v. take (n * size) (drop (suc i * size) (map col v)))
            (whole-left_behind g (range i) t)
        ∙ ap (λ k. take (n * size) (drop k c)) start
        ∙ ap (take (n * size)) (sym (drop-add (i * size) size c)) in
      map-append col shown (pages size n (suc i) now f range t')
      ∙ ap (◌++◌ (map col shown)) later
      ∙ ap (λ p. p ++ take (n * size) (drop size (drop (i * size) c))) first
      ∙ sym (take-add size (n * size) (drop (i * size) c))
      ∙ ap (λ k. take k (drop (i * size) c)) end

  -- What holds of every listed flow holds of the pages.
  pages-All :
      (P : Snapshot → Type 0) (size n i : ℕ) (range : ℕ → Iteration) (t : Tracker)
      → 0 < size
      → ((j : ℕ) → IsRange (range j))
      → All P (collect_all now t.ttl f as_stored t.shards)
      → All P (pages size n i now f range t)
  unfolding pages left_behind list_flows
  pages-All P size zero i range t h r p = tt
  pages-All P size (suc n) i range t h r p =
      let g = page_filter size i f in
      let shown = (list_flows now g (range i) t).1 in
      let t' = left_behind g (range i) t in
      let all_shown : All P shown = subst (All P) (sym (shown-take size i now f (range i) t h)) (
        take-All P size (drop (i * size) (whole now f (range i) t))
          (drop-All P (i * size) (whole now f (range i) t) (whole-All P (range i) t (r i) p))) in
      let later : All P (collect_all now t'.ttl f as_stored t'.shards) =
        subst (All P) (sym (collect_all-purge_all now t.ttl f t.shards)) p in
      All-append P shown (pages size n (suc i) now f range t') all_shown
        (pages-All P size n (suc i) range t' h r later)

-- No other flow of the list has its columns.
abbrev pub StandsOut : List SortKey → List Snapshot → Snapshot → Type 0
StandsOut keys xs s = All (λ x. (x ≡ s) ⊎ (columns keys x ≢ columns keys s)) xs

-- The pages of a listing, read one after the other at one time until they cover the total, each
-- page with its own order of iteration over the maps, hold as many flows as the total, each of
-- them unexpired and passing the filter, sorted by the columns of the filter; a given unexpired
-- flow of the table that passes the filter is among them, if no other listed flow has the same
-- values in all sort columns.
pub pages-whole :
    (size n now i : ℕ) (f : ListFilter) (range : ℕ → Iteration) (t : Tracker) (sh : Shard)
    (k : FlowKey) (fl : Flow)
    → 0 < size
    → ((j : ℕ) → IsRange (range j))
    → (list_flows now f (range 0) t).2 ≤ n * size
    → get_elem? t.shards i ≡ some sh
    → get k sh.by_key ≡ some fl
    → Belongs now t.ttl f (record { key = k; flow = fl })
    → StandsOut
        (sort_keys_of f)
        (collect_all now t.ttl f as_stored t.shards)
        (record { key = k; flow = fl })
    → let shown = pages size n 0 now f range t in
      All (Belongs now t.ttl f) shown
      × Sorted (before (sort_keys_of f)) shown
      × (length shown ≡ (list_flows now f (range 0) t).2)
      × Exists (λ s. s ≡ record { key = k; flow = fl }) shown
unfolding list_flows
pages-whole size n now i f range t sh k fl h r enough at e b only =
    let keys = sort_keys_of f in
    let less = before keys in
    let s : Snapshot = record { key = k; flow = fl } in
    let found = collect_all now t.ttl f as_stored t.shards in
    let shown = pages size n 0 now f range t in
    let w = whole now f as_stored t in
    let first = whole now f (range 0) t in
    let same_length : length w ≡ length first =
      sym (length-map (columns keys) w)
      ∙ sym (ap length (whole-columns now f (range 0) t (r 0)))
      ∙ length-map (columns keys) first in
    let short : length (map (columns keys) w) ≤ n * size =
      omega (arith, enough, same_length, length-map (columns keys) w) in
    let start : 0 * size ≡ 0 = omega arith in
    let same : map (columns keys) shown ≡ map (columns keys) w =
      pages-columns now f size n 0 range t h r
      ∙ ap (λ d. take (n * size) (drop d (map (columns keys) w))) start
      ∙ take-long (n * size) (map (columns keys) w) short in
    (
      pages-All now f (Belongs now t.ttl f) size n 0 range t h r
          (collect_all-Belongs now t.ttl f t.shards),
      Sorted-cols keys w shown (sym same) (sort_by-Sorted less found (before-asym keys)),
      sym (length-map (columns keys) shown)
          ∙ ap length same
          ∙ length-map (columns keys) w
          ∙ same_length,
      Exists-cols keys s w shown (sym same)
          (sort_by-Exists (λ x. x ≡ s) less found
            (collect_all_complete now t.ttl i f k fl sh t.shards at e b))
          (pages-All now f (λ x. (x ≡ s) ⊎ (columns keys x ≢ columns keys s)) size n 0 range t h r
            only),
    )
