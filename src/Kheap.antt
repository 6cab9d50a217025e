-- ===== src/Kheap.antt =====
-- kernel/mm/kheap.c, the kernel's heap: blocks with a tag at both ends, first fit, and coalescing.
-- `panic` is `none`, `kprintf` is left out. The heap's words are those at its virtual addresses, which
-- kernel/mm/vmm.c maps to frames.
pub mod Blocks
pub mod Tags
pub mod Around
pub mod Focus
pub mod Neighbours
pub mod Merge
pub mod Place
pub mod Inv
pub mod Free
pub mod FirstFit
pub mod Extend
pub mod Append
pub mod Grow
pub mod Alloc
pub mod Boot
pub mod Aligned
mod Examples
use orion_final.Base.{
  ℕ, zero, suc, ◌+◌, ◌-◌, ◌*◌, ◌/◌, ◌%◌, ◌^◌, bit_or, Bool, true, false, ◌&&◌, ◌==◌, ltb, leb, not,
  if◌then◌else◌, Option, none, some,
}
use orion_final.Base.Update.{update}
use orion_final.Base.Words.{u32, sub32, clear_low}
use orion_final.Pmm.{alloc_frame}
use orion_final.Vmm.{Vmm, page_size, vmm_kernel_rw, vmm_map_page}

abbrev pub heap_start : ℕ
heap_start = 0x01000000

abbrev pub heap_max : ℕ
heap_max = 0x05000000

abbrev pub heap_initial : ℕ
heap_initial = 64 * 1024

abbrev pub wsize : ℕ
wsize = 4

abbrev pub dwsize : ℕ
dwsize = 8

abbrev pub min_block : ℕ
min_block = 16

-- The words of the heap, by a quarter of their virtual addresses.
abbrev pub Words : Type 0
Words = ℕ → ℕ

pub record Kheap : Type 0 where
  pub words : Words
  pub heap_listp : ℕ
  pub heap_brk : ℕ
  pub heap_virt_mapped : ℕ
  pub vmm : Vmm

abbrev pub align : ℕ → ℕ
align s = clear_low (u32 (s + 7)) 3

abbrev pub pack : ℕ → ℕ → ℕ
pack size alloc = bit_or size alloc

abbrev pub get : Words → ℕ → ℕ
get m p = m (p / 4)

abbrev pub put : Words → ℕ → ℕ → Words
put m p v = update m (p / 4) v

abbrev pub get_size : Words → ℕ → ℕ
get_size m p = clear_low (get m p) 3

abbrev pub get_alloc : Words → ℕ → ℕ
get_alloc m p = get m p % 2

abbrev pub hdrp : ℕ → ℕ
hdrp bp = sub32 bp wsize

abbrev pub ftrp : Words → ℕ → ℕ
ftrp m bp = sub32 (u32 (bp + get_size m (hdrp bp))) dwsize

abbrev pub next_blkp : Words → ℕ → ℕ
next_blkp m bp = u32 (bp + get_size m (hdrp bp))

abbrev pub prev_blkp : Words → ℕ → ℕ
prev_blkp m bp = sub32 bp (get_size m (sub32 bp dwsize))

-- How `ensure_mapped` ends: 0, or -1.
pub data Mapped : Type 0 where
  done : Mapped
  failed : Mapped

-- `while (heap_virt_mapped < end)`, on fuel. The outer `none` is that the fuel ran out, the inner one
-- that `vmm_map_page` panicked.
pub ensure_mapped : Kheap → ℕ → ℕ → Option (Option (Mapped × Kheap))
ensure_mapped s end zero = none
ensure_mapped s end (suc fuel) =
    if not (ltb s.heap_virt_mapped end)
    then some (some (done, s))
    else if ltb heap_max (u32 (s.heap_virt_mapped + page_size))
    then some (some (failed, s))
    else (let (phys, pmm) = alloc_frame s.vmm.pmm in
        let taken : Vmm = record s.vmm { pmm = pmm } in
        if phys == 0
        then some (some (failed, record s { vmm = taken }))
        else elim (vmm_map_page taken s.heap_virt_mapped phys vmm_kernel_rw) [
          | none ↦ some none
          | some t ↦
              ensure_mapped
                (record s { vmm = t; heap_virt_mapped = u32 (s.heap_virt_mapped + page_size) }) end
                fuel
        ])

-- the two tags of the block at `bp`; the second place is found by the first
pub put_tags : Words → ℕ → ℕ → ℕ → Words
put_tags m bp size alloc =
    let headed = put m (hdrp bp) (pack size alloc) in put headed (ftrp headed bp) (pack size alloc)

pub coalesce : Words → ℕ → ℕ × Words
coalesce m bp =
    let prev_bp : ℕ = prev_blkp m bp in
    let next_bp : ℕ = next_blkp m bp in
    let prev_free : Bool = get_alloc m (ftrp m prev_bp) == 0 in
    let next_free : Bool = get_alloc m (hdrp next_bp) == 0 in
    let size : ℕ = get_size m (hdrp bp) in
    let size_prev : ℕ = get_size m (hdrp prev_bp) in
    let size_next : ℕ = get_size m (hdrp next_bp) in
    if not prev_free && not next_free
    then (bp, m)
    else if not prev_free && next_free
    then (bp, put_tags m bp (u32 (size + size_next)) 0)
    else if prev_free && not next_free
    then (let merged : ℕ = pack (u32 (size + size_prev)) 0 in
        (prev_bp, put (put m (ftrp m bp) merged) (hdrp prev_bp) merged))
    else (let merged : ℕ = pack (u32 (size + (size_prev + size_next))) 0 in
        let headed = put m (hdrp prev_bp) merged in
        (prev_bp, put headed (ftrp headed next_bp) merged))

-- The new block in place of the epilogue, the epilogue behind it, and the merge with the block before.
pub append_block : Kheap → ℕ → ℕ × Kheap
append_block s size =
    let bp : ℕ = u32 (s.heap_brk + wsize) in
    let headed = put s.words s.heap_brk (pack size 0) in
    let tagged = put headed (ftrp headed bp) (pack size 0) in
    let (result, words) = coalesce (put tagged (hdrp (next_blkp tagged bp)) (pack 0 1)) bp in
    (result, record s { words = words; heap_brk = u32 (s.heap_brk + size) })

-- 0 is the null pointer.
pub extend_heap : Kheap → ℕ → ℕ → Option (Option (ℕ × Kheap))
extend_heap s size fuel = elim (ensure_mapped s (u32 (s.heap_brk + size + wsize)) fuel) [
  | none ↦ none
  | some none ↦ some none
  | some (some (failed, t)) ↦ some (some (0, t))
  | some (some (done, t)) ↦ some (some (append_block t size))
]

pub place : Words → ℕ → ℕ → Words
place m bp asize =
    let csize : ℕ = get_size m (hdrp bp) in
    if leb min_block (sub32 csize asize)
    then (let front = put_tags m bp asize 1 in
        put_tags front (next_blkp front bp) (sub32 csize asize) 0)
    else put_tags m bp csize 1

-- How the walk over the blocks ends: at a block that fits, or at the epilogue.
pub data Search : Type 0 where
  found : ℕ → Search
  at_end : Search

-- `for (bp = NEXT_BLKP(heap_listp); GET_SIZE(HDRP(bp)) > 0; bp = NEXT_BLKP(bp))`, on fuel
pub first_fit : Words → ℕ → ℕ → ℕ → Option Search
first_fit m bp asize zero = none
first_fit m bp asize (suc fuel) =
    let rest = first_fit m (next_blkp m bp) asize fuel in
    if get_size m (hdrp bp) == 0
    then some at_end
    else if get_alloc m (hdrp bp) == 0 && leb asize (get_size m (hdrp bp))
    then some (found bp)
    else rest

-- `ALIGN(size) + DWSIZE`, at least MIN_BLOCK
abbrev pub block_size : ℕ → ℕ
block_size size =
    let asize : ℕ = u32 (align size + dwsize) in if ltb asize min_block then min_block else asize

pub expand : Kheap → ℕ → ℕ → Option (Option (ℕ × Kheap))
expand s asize fuel =
    let extsize : ℕ = align (if ltb page_size asize then asize else page_size) in
    elim (extend_heap s extsize fuel) [
      | none ↦ none
      | some none ↦ some none
      | some (some (bp, t)) ↦
          some
            (some (if bp == 0 then (0, t) else (bp, record t { words = place t.words bp asize })))
    ]

-- The search for a block of `asize` bytes, and what follows it.
pub allocate : Kheap → ℕ → ℕ → Option (Option (ℕ × Kheap))
allocate s asize fuel = elim (first_fit s.words (next_blkp s.words s.heap_listp) asize fuel) [
  | none ↦ none
  | some (found bp) ↦ some (some (bp, record s { words = place s.words bp asize }))
  | some at_end ↦ expand s asize fuel
]

pub kmalloc : Kheap → ℕ → ℕ → Option (Option (ℕ × Kheap))
kmalloc s size fuel = if size == 0 then some (some (0, s)) else allocate s (block_size size) fuel

pub kfree : Kheap → ℕ → Kheap
kfree s ptr =
    let size : ℕ = get_size s.words (hdrp ptr) in
    if ptr == 0 then s else record s { words = (coalesce (put_tags s.words ptr size 0) ptr).1 }

-- `(raw + 4 + PAGE_SIZE - 1) & ~(PAGE_SIZE - 1)`
abbrev pub aligned_in : ℕ → ℕ
aligned_in raw = clear_low (u32 (raw + wsize + page_size - 1)) 12

pub kmalloc_aligned : Kheap → ℕ → ℕ → Option (Option (ℕ × Kheap))
kmalloc_aligned s size fuel = elim (kmalloc s (u32 (size + page_size + wsize)) fuel) [
  | none ↦ none
  | some none ↦ some none
  | some (some (raw, t)) ↦ some (
      some (
        if raw == 0
        then (0, t)
        else (aligned_in raw, record t { words = put t.words (sub32 (aligned_in raw) wsize) raw })))
]

pub kfree_aligned : Kheap → ℕ → Kheap
kfree_aligned s ptr = if ptr == 0 then s else kfree s (get s.words (sub32 ptr wsize))

-- The heap before its first block: padding, prologue and epilogue.
pub lay_out : Words → Words
lay_out m =
    put
      (put (put (put m heap_start 0) (heap_start + wsize) (pack dwsize 1)) (heap_start + 2 * wsize)
        (pack dwsize 1))
      (heap_start + 3 * wsize) (pack 0 1)

-- What `kheap_init` does once the first page is mapped.
pub start_heap : Words → Vmm → ℕ → Option (Option Kheap)
start_heap words vmm fuel =
    let init : ℕ = if ltb (align heap_initial) min_block then min_block else align heap_initial in
    elim (extend_heap
      (record {
        words = lay_out words;
        heap_listp = heap_start + 2 * wsize;
        heap_brk = heap_start + 3 * wsize;
        heap_virt_mapped = heap_start + page_size;
        vmm = vmm;
      })
      init fuel) [
        | none ↦ none
        | some none ↦ some none
        | some (some (bp, t)) ↦ if bp == 0 then some none else some (some t)
      ]

pub kheap_init : Kheap → ℕ → Option (Option Kheap)
kheap_init s fuel =
    let (phys, pmm) = alloc_frame s.vmm.pmm in
    if phys == 0
    then some none
    else elim (vmm_map_page (record s.vmm { pmm = pmm }) heap_start phys vmm_kernel_rw) [
      | none ↦ some none
      | some t ↦ start_heap s.words t fuel
    ]
