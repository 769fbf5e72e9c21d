-- ===== src/Memory/Blocks.antt =====
-- What `memcpy` does to blocks that are large enough.
use neo_sycl.Prelude.{
  ℕ, ◌<◌, ◌≡◌, refl, ap, ap₂, ◌∙◌, sym, ◌≢◌, some, List, [], ◌∷◌, ◌++◌, length, take, drop, arith,
  true, false, leb, ◌==◌,
}
use mathlib.Core.List.{append-nil}
use neo_sycl.Outcome.{done, undefined}
use neo_sycl.Memory.{Heap, memcpy, update}

take-length : {A : Type 0} (xs : List A) → take (length xs) xs ≡ xs
take-length [] = refl
take-length (x ∷ xs) = ap (λ t. x ∷ t) (take-length xs)

drop-length : {A : Type 0} (xs : List A) → drop (length xs) xs ≡ []
drop-length [] = refl
drop-length (x ∷ xs) = drop-length xs

-- A whole block over a block of the same size.
pub memcpy_whole :
    (d s n : ℕ) (h : Heap) (from to : List ℕ)
    → h.block s ≡ some from
    → h.block d ≡ some to
    → d ≢ s
    → length from ≡ n
    → length to ≡ n
    → memcpy d s n h ≡ done (record h { block = update h.block d (some from) })
unfolding memcpy
memcpy_whole d s n h from to hs hd ne lf lt =
    let content : take n from ++ drop n to ≡ from =
      ap₂ ◌++◌ (ap (λ k. take k from) (sym lf) ∙ take-length from)
        (ap (λ k. drop k to) (sym lt) ∙ drop-length to)
      ∙ append-nil from in
    let distinct : (d == s) ≡ false = ground arith in
    let fits : leb n (length from) ≡ true = ground arith in
    let fits' : leb n (length to) ≡ true = ground arith in
    rw (hs, hd, distinct, fits, fits', memcpy)
      (ap (λ t. done (record h { block = update h.block d (some t) })) content)

-- Reading past the end of the source is undefined.
pub memcpy_overrun :
    (d s n : ℕ) (h : Heap) (from : List ℕ)
    → h.block s ≡ some from
    → length from < n
    → memcpy d s n h ≡ undefined
unfolding memcpy
memcpy_overrun d s n h from hs short = ground arith
