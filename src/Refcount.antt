-- ===== src/Refcount.antt =====
-- libpthread/refcount.h: counts of references in an unsigned long of 64 bits.
use flualibs.Common.{ℕ, ◌+◌, ◌-◌, ◌%◌, ◌^◌, Bool, ◌==◌}

abbrev pub refcount_init : ℕ → ℕ
refcount_init value = value % 2 ^ 64

-- `atomic_fetch_add_explicit(refs, 1, …)`.
abbrev pub refcount_retain : ℕ → ℕ
refcount_retain refs = (refs + 1) % 2 ^ 64

-- The new count, and whether the last reference was released.
abbrev pub refcount_release : ℕ → ℕ × Bool
refcount_release refs = ((refs + 2 ^ 64 - 1) % 2 ^ 64, refs == 1)
