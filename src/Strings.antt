-- ===== src/Strings.antt =====
-- The copying functions of lib/libk/string.c, over a memory of bytes. A pointer is an address; addresses do not wrap around,
-- since no object reaches the end of the address space. `size_t` counts are natural numbers. The memory
-- is what is returned; the C functions return `dst`.
pub mod Copy
pub mod Bounded
pub mod Compare
mod Examples
use orion_final.Base.{
  ℕ, zero, suc, ◌+◌, ◌-◌, ◌==◌, ltb, if◌then◌else◌, Option, none, some, Bool, ◌&&◌, not,
}
use orion_final.Base.Update.{update}
use orion_final.Base.Words.{u8}

abbrev pub Memory : Type 0
Memory = ℕ → ℕ

-- `*d++ = *s++`, `n` times
pub memcpy : Memory → ℕ → ℕ → ℕ → Memory
memcpy m d s zero = m
memcpy m d s (suc n) = memcpy (update m d (m s)) (d + 1) (s + 1) n

-- `*--d = *--s`, `n` times, from the ends of the two ranges
pub copy_down : Memory → ℕ → ℕ → ℕ → Memory
copy_down m d s zero = m
copy_down m d s (suc n) = copy_down (update m (d + n) (m (s + n))) d s n

pub memmove : Memory → ℕ → ℕ → ℕ → Memory
unfolding memcpy copy_down
memmove m d s n = if ltb d s then memcpy m d s n else copy_down m d s n

pub memset : Memory → ℕ → ℕ → ℕ → Memory
memset m d c zero = m
memset m d c (suc n) = memset (update m d (u8 c)) (d + 1) c n

-- the first loop of `strncpy`: the memory, and the values of `d` and `n` after it
pub strncpy_copy : Memory → ℕ → ℕ → ℕ → Memory × ℕ × ℕ
strncpy_copy m d s zero = (m, d, zero)
strncpy_copy m d s (suc n) =
    let rest = strncpy_copy (update m d (m s)) (d + 1) (s + 1) n in
    if m s == 0 then (update m d (m s), d + 1, suc n) else rest

pub strncpy : Memory → ℕ → ℕ → ℕ → Memory
unfolding strncpy_copy memset
strncpy m d s n = let (m', d', n') = strncpy_copy m d s n in memset m' d' 0 n'

-- `strlen` reads until it meets a zero byte: `none` when there is none in the first `fuel` bytes.
pub strlen : ℕ → Memory → ℕ → Option ℕ
strlen zero m s = none
strlen (suc fuel) m s =
    let rest = strlen fuel m (s + 1) in
    if m s == 0 then some 0 else elim rest [ none ↦ none | some n ↦ some (n + 1) ]

-- What the comparisons return is the difference of two bytes; here it is the two bytes.
-- The loop of `memcmp`; `(0, 0)` where the `n` bytes are equal.
pub memcmp : Memory → ℕ → ℕ → ℕ → ℕ × ℕ
memcmp m p q zero = (0, 0)
memcmp m p q (suc n) =
    let rest = memcmp m (p + 1) (q + 1) n in if not (m p == m q) then (m p, m q) else rest

-- `none` when the loop has not ended after `fuel` bytes
pub strcmp : ℕ → Memory → ℕ → ℕ → Option (ℕ × ℕ)
strcmp zero m a b = none
strcmp (suc fuel) m a b =
    let rest = strcmp fuel m (a + 1) (b + 1) in
    if not (m a == 0) && m a == m b then rest else some (m a, m b)

pub strncmp : Memory → ℕ → ℕ → ℕ → ℕ × ℕ
strncmp m a b zero = (0, 0)
strncmp m a b (suc n) =
    let rest = strncmp m (a + 1) (b + 1) n in
    if not (m a == 0) && m a == m b then rest else (m a, m b)

-- `while ((*d++ = *s++))`; `none` when the loop has not ended after `fuel` bytes
pub strcpy : ℕ → Memory → ℕ → ℕ → Option Memory
strcpy zero m d s = none
strcpy (suc fuel) m d s =
    let rest = strcpy fuel (update m d (m s)) (d + 1) (s + 1) in
    if m s == 0 then some (update m d (m s)) else rest
