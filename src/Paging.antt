-- ===== src/Paging.antt =====
-- Four-level page tables in memory, as ept.c and npt.c walk and extend them. A table is one page, named
-- by its frame number; an entry is a 64-bit number; a pointer to an entry is the table's frame and the
-- index. What the two engines do differently about an entry is the record `Format`.
pub mod Tree
pub mod Hardware
pub mod Grow
pub mod Ensure
pub mod Lookup
pub mod Update
pub mod Block
pub mod Leaf
pub mod Store
pub mod Live
use slimvm.Base.{
  ℕ, zero, suc, ◌+◌, ◌*◌, ◌/◌, ◌%◌, ◌^◌, ◌<◌, ◌≡◌, ◌&&◌, not, Bool, true, false, Option, none, some,
  List, [], ◌∷◌, if◌then◌else◌, leb, ◌==◌, Errno, enoent, enomem,
}

-- `entry f i` is the value at index `i` of the page with frame `f`. `free_pages` are the frames that the
-- page allocator hands out next, in order; at its end an allocation fails. `released` are the frames
-- given back.
pub record Mem : Type 0 where
  pub entry : ℕ → ℕ → ℕ
  pub free_pages : List ℕ
  pub released : List ℕ

pub record Slot : Type 0 where
  pub table : ℕ
  pub index : ℕ

abbrev pub slot : ℕ → ℕ → Slot
slot f i = record { table = f; index = i }

-- The result of an operation on memory: a value or an error, and the memory after it.
pub data Outcome (A : Type 0) : Type 0 where
  done : A → Mem → Outcome A
  fail : Errno → Mem → Outcome A

abbrev pub mem_of : {A : Type 0} → Outcome A → Mem
mem_of (done a m) = m
mem_of (fail e m) = m

-- `*p = v` and `*p`
unfoldable pub write : Slot → ℕ → Mem → Mem
write s v m = record m {
  entry = λ f i. if f == s.table then if i == s.index then v else m.entry f i else m.entry f i;
}

abbrev pub read : Slot → Mem → ℕ
read s m = m.entry s.table s.index

-- `memset(page, 0, PAGE_SIZE)`
unfoldable pub zero_page : ℕ → Mem → Mem
zero_page f m = record m { entry = λ g i. if g == f then 0 else m.entry g i }

-- `__get_free_page` and `free_page`
unfoldable pub free_page : ℕ → Mem → Mem
free_page f m = record m { released = f ∷ m.released }

-- How an engine reads and writes an entry that points to a table: the test `present`, the entry that it
-- writes for a new table at a frame, and the frame that it follows an entry to. Frames from `frames` on
-- cannot be named by an entry.
pub record Format : Type 0 where
  pub frames : ℕ
  pub present : ℕ → Bool
  pub link : ℕ → ℕ
  pub follow : ℕ → ℕ

-- `__EPTE_SZ` and `__NPDPE_PS` are both bit 7.
abbrev pub is_huge : ℕ → Bool
is_huge e = e / 128 % 2 == 1

-- `ADDR_TO_IDX`
abbrev pub addr_to_idx : ℕ → ℕ → ℕ
addr_to_idx la n = la / 2 ^ (12 + 9 * n) % 512

-- A slot, or what stands in the way of it, at one level of a walk.
pub data Step : Type 0 where
  next : ℕ → Mem → Step
  stop : Errno → Mem → Step

-- A new table at the first free frame, zeroed and linked at `s`.
unfoldable pub new_table : Format → Slot → List ℕ → Mem → Step
new_table fmt s [] m = stop enomem m
new_table fmt s (f ∷ fs) m =
    next (fmt.link f) (write s (fmt.link f) (zero_page f (record m { free_pages = fs })))

-- A round of the walk needs the entry at `s` to be present: it is, or it is made so, or the walk ends.
unfoldable pub ensure : Format → Bool → Slot → Mem → Step
ensure fmt create s m =
    if fmt.present (read s m)
    then next (read s m) m
    else if create
    then new_table fmt s m.free_pages m
    else stop enoent m

abbrev pub and_next : Step → (ℕ → Mem → Outcome Slot) → Outcome Slot
and_next (next e m) k = k e m
and_next (stop e m) k = fail e m

-- The loop `for (i = EPT_LEVELS - 1; i > level; i--)`, at `i` in the table `dir`.
unfoldable pub walk : Format → ℕ → ℕ → ℕ → ℕ → Bool → Mem → Outcome Slot
walk fmt zero dir gpa level create m = done (slot dir (addr_to_idx gpa level)) m
walk fmt (suc i) dir gpa level create m =
    if leb (suc i) level
    then done (slot dir (addr_to_idx gpa level)) m
    else and_next (ensure fmt create (slot dir (addr_to_idx gpa (suc i))) m) λ e m'.
      if is_huge e && suc i == 1
      then done (slot dir (addr_to_idx gpa 1)) m'
      else walk fmt i (fmt.follow e) gpa level create m'
