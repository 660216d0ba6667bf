-- ===== src/Sys/Uio/Reading.antt =====
-- A read of sys/uio/lua_uio.c from the first check to the last `free`.
use flualibs.Common.{
  ℕ, suc, ◌+◌, ◌≤◌, ◌<◌, ◌≡◌, ◌≢◌, ◌⊎◌, inl, inr, refl, ap, sym, ◌∙◌, arith, Bool, Option, none,
  some, List, [], ◌∷◌, ◌++◌, length, length-append, update, update_self,
}
use mathlib.Core.List.{append-nil}
use mathlib.Core.Path.{subst}
use flualibs.Common.Int.{ℤ}
use flualibs.Lua.{Value, Items, last, item, end}
use flualibs.Lua.Run.{Run, LuaError, done, raised, Api, checkinteger}
use flualibs.Utils.{fail, checkfd}
use flualibs.Heap.{load}
use flualibs.Heap.Cells.{load-done, store-done}
use flualibs.Sys.{Answer, result, failed, bytes, Memory, fill_buffer}
use flualibs.Sys.Keeps.{Fresh, SameCells}
use flualibs.Sys.Socket.Answers.{written-some}
use flualibs.Sys.Uio.{
  Kernel, bytes_from, push_buffers, pushriovecs, fill_buffers, lengths, read_answer, read_into,
  l_readv, l_preadv,
}
use flualibs.Sys.Uio.Buffers.{Buffer, Filled, Filled-update, Held, freeriovecs-Held}
use flualibs.Sys.Uio.Filling.{checked, unchecked, checkriovecs-Checked}

-- The kernel gives each buffer at most as many bytes as it has, and no buffer is missing.
abbrev pub Fits : List (List ℕ) → List ℕ → Type 0
Fits [] lens = Unit
Fits (bs ∷ chunks) [] = ⊥
Fits (bs ∷ chunks) (len ∷ lens) = (length bs ≤ len) × Fits chunks lens

fill_buffer-done :
    (p len : ℕ) (bs : List ℕ) (t : Memory)
    → p ≢ 0
    → (b : Buffer t.cell p len) → length bs ≤ len
    → (area : List (Option ℕ)) × (fill_buffer p bs t
        ≡ done tt (record t { cell = update t.cell p (some (bytes area)) }))
      × (length area ≡ len)
fill_buffer-done p len bs t ne b h =
    let (area, e, n) = written-some bs b.contents (omega (arith, b.size)) in
    (area, rw (load-done p t ne b.at, e) (store-done p t ne b.at (bytes area)), n ∙ b.size)

-- The kernel's bytes change the buffers alone, and not their lengths.
fill_buffers-Filled :
    (b : ℕ) (vs nulls : List (ℕ × ℕ)) (chunks : List (List ℕ)) (t : Memory)
    → b ≢ 0
    → Filled b vs t.cell
    → Fits chunks (lengths vs)
    → (u : Memory) × (fill_buffers (vs ++ nulls) chunks t ≡ done tt u)
      × Filled b vs u.cell
      × ((q : ℕ) → (q < b) ⊎ (b + length vs ≤ q) → u.cell q ≡ t.cell q)
unfolding fill_buffers
fill_buffers-Filled b [] [] [] t ne h fit = (t, refl, h, λ q apart. refl)
fill_buffers-Filled b [] (n ∷ nulls) [] t ne h fit = (t, refl, h, λ q apart. refl)
fill_buffers-Filled b (v ∷ vs) nulls [] t ne h fit = (t, refl, h, λ q apart. refl)
fill_buffers-Filled b [] nulls (bs ∷ chunks) t ne h fit = elim fit [ ]
fill_buffers-Filled b ((base, len) ∷ vs) nulls (bs ∷ chunks) t ne (e, here, h) fit =
    let (area, wrote, n) = fill_buffer-done b len bs t ne here fit.0 in
    let t' : Memory = record t { cell = update t.cell b (some (bytes area)) } in
    let first : fill_buffer base bs t ≡ done tt t' = rw e wrote in
    let (u, rest, filled, cells) =
      fill_buffers-Filled (b + 1) vs nulls chunks t' (λ z. absurd (omega arith))
        (Filled-update (b + 1) vs t.cell b (some (bytes area)) (inl (omega arith)) h) fit.1 in
    (
      u,
      rw first rest,
      (
        e,
        record {
          contents = area;
          at = cells b (inl (omega arith)) ∙ update_self t.cell b (some (bytes area));
          size = n;
        },
        filled,
      ),
      λ q apart. ground (arith, cells q),
    )

abbrev pub string_lengths : Items → List ℕ
string_lengths (item (Value.string bs) vs) = length bs ∷ string_lengths vs
string_lengths (item v vs) = string_lengths vs
string_lengths last = []

length-bytes_from :
    (old : ℕ → ℕ) (i : ℕ) (bs : List (Option ℕ)) → length (bytes_from old i bs) ≡ length bs
length-bytes_from old i [] = refl
length-bytes_from old i (none ∷ bs) = ap suc (length-bytes_from old (i + 1) bs)
length-bytes_from old i (some b ∷ bs) = ap suc (length-bytes_from old (i + 1) bs)

-- Every buffer becomes a string of its length.
push_buffers-done :
    (stale : ℕ → ℕ → ℕ) (b : ℕ) (vs : List (ℕ × ℕ)) (t : Memory)
    → b ≢ 0
    → Filled b vs t.cell
    → (strs : Items) × (push_buffers stale vs t ≡ done strs t) × (string_lengths strs ≡ lengths vs)
unfolding push_buffers
push_buffers-done stale b [] t ne h = (last, refl, refl)
push_buffers-done stale b ((base, len) ∷ vs) t ne (e, here, h) =
    let (strs, rest, ls) = push_buffers-done stale (b + 1) vs t (λ z. absurd (omega arith)) h in
    let n : length (bytes_from (stale base) 0 here.contents) ≡ len =
      length-bytes_from (stale base) 0 here.contents ∙ here.size in
    (
      item (Value.string (bytes_from (stale base) 0 here.contents)) strs,
      rw
          (
            subst (λ p. load p t ≡ done (bytes here.contents) t) (sym e) (load-done b t ne here.at),
            rest,
          )
          refl,
      rw (n, ls) refl,
    )

-- How a read ends, with the memory as before: with a table of strings, each as long as the buffer
-- for which the kernel was asked, whatever number of bytes it gave; with the error of the kernel;
-- or with an error that is raised.
pub data ReadsWhole (api : Api) (kernel : Kernel) (fd : ℤ) (offset : Option ℤ) (s : Memory)
    (r : Run Memory (List Value)) : Type 0 where
  read :
      (lens : List ℕ) (chunks : List (List ℕ)) (n : ℤ) (strs : Items) (t : Memory)
      → kernel.readv fd offset lens ≡ result (chunks, n)
      → string_lengths strs ≡ lens
      → SameCells s t
      → r ≡ done (Value.table strs end ∷ Value.integer n ∷ []) t
      → ReadsWhole api kernel fd offset s r
  unread :
      (lens : List ℕ) (e : ℕ) (t : Memory)
      → kernel.readv fd offset lens ≡ failed e
      → SameCells s t
      → r ≡ done (fail api e) t
      → ReadsWhole api kernel fd offset s r
  raising :
      (e : LuaError) (t : Memory)
      → SameCells s t
      → r ≡ raised e t
      → ReadsWhole api kernel fd offset s r

module _ (api : Api) (kernel : Kernel) (oom : ℕ → Bool) (enomem : ℕ) (stale : ℕ → ℕ → ℕ)
    (fits : (fd : ℤ) (offset : Option ℤ) (lens : List ℕ) (chunks : List (List ℕ)) (n : ℤ)
      → kernel.readv fd offset lens ≡ result (chunks, n)
      → Fits chunks lens)
    {s : Memory} (f : Fresh s) where
  read_answer-ReadsWhole :
      (fd : ℤ) (offset : Option ℤ) (vs : List (ℕ × ℕ)) (t : Memory) (x : Answer (List (List ℕ) × ℤ))
      → Held s t vs []
      → kernel.readv fd offset (lengths (vs ++ [])) ≡ x
      → ReadsWhole api kernel fd offset s
          (read_answer api kernel oom enomem stale s.next (length (vs ++ [])) (vs ++ []) x t)
  unfolding pushriovecs
  read_answer-ReadsWhole fd offset vs t (failed e) h asked =
      let (u, freed, same) = freeriovecs-Held f h in
      unread (lengths (vs ++ [])) e u asked same (rw freed refl)
  read_answer-ReadsWhole fd offset vs t (result (chunks, n)) h asked =
      let all : lengths (vs ++ []) ≡ lengths vs = ap lengths (append-nil vs) in
      let fit : Fits chunks (lengths vs) =
        subst (Fits chunks) (all) (fits fd offset (lengths (vs ++ [])) chunks n asked) in
      let (u, wrote, filled, cells) =
        fill_buffers-Filled (s.next + 1) vs [] chunks t (λ z. absurd (omega arith)) h.filled fit in
      let k : Held s u vs [] = record {
        array = cells s.next (inl (omega arith)) ∙ h.array;
        filled = filled;
        no_more = tt;
        below = λ q lt. cells q (inl (omega arith)) ∙ h.below q lt;
        above = λ q le. cells q (inr le) ∙ h.above q le;
      } in
      let (strs, pushed, ls) =
        push_buffers-done stale (s.next + 1) vs u (λ z. absurd (omega arith)) filled in
      let all_pushed : push_buffers stale (vs ++ []) u ≡ done strs u = rw (append-nil vs) pushed in
      let (w, freed, same) = freeriovecs-Held f k in
      read (lengths (vs ++ [])) chunks n strs w asked (ls ∙ sym all) same
        (rw (wrote, load-done s.next u f.not_null k.array, all_pushed, freed) refl)

  read_into-ReadsWhole :
      (fd : ℤ) (offset : Option ℤ) (vs : List (ℕ × ℕ)) (t : Memory)
      → Held s t vs []
      → ReadsWhole api kernel fd offset s
          (read_into api kernel oom enomem stale fd offset (s.next, length vs) t)
  read_into-ReadsWhole fd offset vs t h =
      let n : length vs ≡ length (vs ++ []) = omega (arith, length-append vs []) in
      rw (load-done s.next t f.not_null h.array, n)
        (read_answer-ReadsWhole fd offset vs t (kernel.readv fd offset (lengths (vs ++ []))) h refl)

  -- Where fresh addresses are unused and the kernel gives no buffer more bytes than it has: readv
  -- and preadv on a descriptor, and any other value, and for preadv an integer as offset, keep no
  -- memory, whichever allocation fails and whatever the table holds, and end with an error or
  -- with strings, each as long as its buffer, whatever number of bytes the kernel gave.
  pub readv-preadv-ReadsWhole :
      (a b c : Value) {fd off : ℤ}
      → checkfd api 1 a s ≡ done fd s
      → checkinteger api 3 c s ≡ done off s
      → ReadsWhole api kernel fd none s (l_readv api kernel oom enomem stale a b s)
        × ReadsWhole api kernel fd (some off) s (l_preadv api kernel oom enomem stale a b c s)
  unfolding l_readv l_preadv
  readv-preadv-ReadsWhole a b c {fd} {off} ea ec = elim (checkriovecs-Checked oom enomem 2 f b) [
    | checked vs t h eq ↦ (
      rw (ea, eq) (read_into-ReadsWhole fd none vs t h),
      rw (ea, checkinteger, ec, eq) (read_into-ReadsWhole fd (some off) vs t h),
    )
    | unchecked e t same eq ↦
        (raising e t same (rw (ea, eq) refl), raising e t same (rw (ea, checkinteger, ec, eq) refl))
  ]
