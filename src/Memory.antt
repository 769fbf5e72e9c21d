-- ===== src/Memory.antt =====
-- Host memory, which the CPU device shares: blocks of bytes, named by a pointer to their start.
-- Block 0 does not exist: it is the null pointer. A block once freed is not used again.
pub mod Blocks
use neo_sycl.Prelude.{
  ℕ, zero, suc, ◌+◌, ◌≤◌, ◌<◌, ◌≡◌, refl, Bool, Option, none, some, List, ◌++◌, length, take, drop,
  replicate, ◌==◌, leb, if◌then◌else◌, not,
}
use neo_sycl.Outcome.{Outcome, done, undefined, ◌>>=◌, ◌>>◌, or_undefined, guard}

pub record Heap : Type 0 where
  pub next : ℕ
  pub block : ℕ → Option (List ℕ)

abbrev pub update : (ℕ → Option (List ℕ)) → ℕ → Option (List ℕ) → ℕ → Option (List ℕ)
update f p v q = if p == q then v else f q

-- `malloc` and `new T[n]`, which succeed; what the bytes hold is not fixed, `junk` is any.
unfoldable pub malloc : (ℕ → List ℕ) → ℕ → Heap → ℕ × Heap
malloc junk s h =
    (h.next, record { next = suc h.next; block = update h.block h.next (some (junk s)) })

-- `if (p) free(p)`; to free what is no block is undefined.
unfoldable pub free : ℕ → Heap → Outcome Heap
free p h =
    if p == 0
    then done h
    else (do b ← or_undefined (h.block p); done (record h { block = update h.block p none }))

-- `memcpy(d, s, n)` between the starts of two blocks.
unfoldable pub memcpy : ℕ → ℕ → ℕ → Heap → Outcome Heap
memcpy d s n h = do
  from ← or_undefined (h.block s)
  to ← or_undefined (h.block d)
  guard (not (d == s))
  guard (leb n (length from))
  guard (leb n (length to))
  done (record h { block = update h.block d (some (take n from ++ drop n to)) })
