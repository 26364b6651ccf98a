-- ===== src/Lib.antt =====
-- A model of the core of the MioOS kernel and proofs about it.
--
-- The kernel (src/kernel, src/include) boots from a memory map, hands out physical pages, maps
-- them, and builds its drivers on that. Here:
--   Common: numbers of fixed width, bit operations by halves, Boolean tests, sequences.
--   Mm: constants and alignment (src/include/mm/mm_defs.hpp, src/kernel/lib/mem_util.cpp).
--   Pmm: the physical memory manager (src/kernel/mm/pmm.cpp, src/include/mm/pmm.hpp). State has the
--     static data of `PMM` as a record, with the list nodes and the bitmaps as functions of
--     addresses; FreeList, Bitmap, Order, Buddy and Region have the functions under the names of
--     the source. Bitmap/Inside and Bitmap/Slices say where the bitmaps stand in memory, and up to
--     which frame the functions are a view of them. Lists, Weigh, Frame, Invariant and Cover have
--     the invariant, and Alloc, Free, Return and Region's children what the functions do; Bump has the allocator of early boot, which
--     searches the memory map with fuel for its rounds. Start has `initialize_bump` and
--     `initialize_buddy`: Order and Advance are about one round of its loop over a region, Insert about
--     all rounds, Measure and Moved about what comes before, Establish about the whole. Examples
--     runs them on one block.
--   Paging: the page tables (src/kernel/mm/paging.cpp, src/include/mm/paging.hpp). Flags, Address
--     and Entry have the bit layouts, Map the operations of `PagingBackend`; Tables has the
--     invariant of the tree of tables, Way a walk down it, Mapped, Unmapped and Protected what they
--     do to it. Buddy fills the interface `PageSource`, through which paging takes its pages, with the
--     allocator of Pmm. Examples runs them.
--
--   Slub: the SLUB allocator (src/kernel/mm/slub.cpp, src/include/mm/slub.hpp). State has the headers
--     and the links of the slabs, Cache `KmemCache`, Kmalloc the global functions; Layout has the
--     objects of a page, Invariant the well-formed caches and the set of objects in use, Pop, Format
--     and Alloc what `alloc` does, Push and Free what `free` does, Sizes, Start and Global the rest.
--     The PMM is a record of its two calls.
--   Runtime: src/kernel/lib/mem_util.cpp, string_util.cpp and math.cpp over a memory of bytes. Memory
--     and Move have the memory functions, Text those on strings, Digits `utoa` and `itoa`,
--     Arithmetic the 64-bit multiplication and division.
--   Interrupts: src/kernel/arch/interrupts/ioapic.cpp, interrupts.cpp and idt.cpp, and in Uacpi the
--     interrupt handlers of src/kernel/arch/acpi/uacpi_osl.cpp.
--   Util: src/include/util/list.hpp (LinkedList, over a heap of nodes: Holds says when a list holds a
--     sequence, its siblings what the operations do) and spinlock.hpp (Spinlock, a step relation).
--   Boot: the tags of src/boot/multiboot.cpp (Multiboot, Tags), the tables of src/boot/uefi.cpp
--     (Uefi) and the iterator of src/include/mm/mmap_util.hpp (Mmap), in a memory of bytes.
--   Acpi: the root table pointer of src/kernel/arch/acpi/rsdp.cpp, in a memory of bytes (Rsdp), what
--     the scan for it finds (Scan), the search in all places (Find), and the walk of madt.cpp
--     (Madt), with the lists of `SystemTopology` as sequences whose pushes may find no memory.
--   Graphics: src/kernel/drivers/framebuffer.cpp (Framebuffer), the characters of
--     src/kernel/graphics/draw_util.cpp (Text, with the font of Font) and its lines (Line, whose
--     loop has fuel for its pixels), and the sections of text of
--     src/kernel/kernel_ui.cpp (Console). Framebuffer/Pixels and Text/Drawn say what the screen shows,
--     Console's children which bytes stay.
--   Time: src/kernel/arch/timers/rtc.cpp (Rtc, Calendar), src/kernel/timekeeping.cpp (Monotonic), the
--     time and the delay of src/kernel/arch/timers/tsc.cpp (Tsc) and src/kernel/arch/timers/hpet.cpp
--     (Hpet), what a loop over a counter waits (Wait), and the two times side by side (Nanoseconds).
--     The loop of a delay has fuel for its readings, and the counter goes on with each of them.
--
-- `cover l f` counts the free blocks that hold frame `f`, where `l` gives the sequence of block
-- addresses on each list; `Wf s l` says that `s` stores these lists, as doubly linked chains, that
-- the bit of each pair of buddies is the parity of its free blocks, that no frame is free twice,
-- and that the statistics agree. Frames lie below 2 ^ 35, the part of the address space that the
-- HHDM window has. An order never exceeds 10, so loops over orders are recursion on the number of
-- orders left. `pages_to_order` halves a 64-bit number, so 64 rounds are enough. A walk along a
-- list has fuel, and the theorems ask that it exceed the length of the list or the number of free
-- pages.
--
-- The bitmaps are made for the frames up to `max_pfn`, that of the highest usable address. The
-- theorems on `free_pages_order` and `mark_region_free` take it as a bound; those on allocation and
-- on single pages do not speak of where the bitmaps end.
--
-- A page table is a function from indices to entries, kept under its physical address; the pages
-- of tables do not overlap, since their addresses are multiples of 4096. An entry is the record of
-- its bit fields, and `raw` and `of_raw` are the other view of the union. Panics are `none`,
-- or `panicked` where a loop may also run out of fuel: `kernel_panic` does not return.
--
-- In SLUB the eight sizes are 16 * 2 ^ i for i below 8, and `live i v x` says that the object at `x`
-- is in use in the view `v` of a cache: the lists of its slabs and the free objects of each. The
-- loops over a string have fuel for its characters, and the theorems ask that it exceed the length;
-- `utoa` has 65 rounds, one more than a 64-bit number has binary digits. A clock is a function of the
-- moment, the CMOS a function of the register. uACPI is a submodule that is not in the tree: only the
-- functions that the kernel gives it are here.
--
-- Not modelled: the formats of `kprintf`, the mapping of the frame buffer, where the locks are
-- taken (`pmm_lock` is never taken by the allocator, and a cache's lock is taken around the whole
-- of `alloc` and `free`), `initialize_slub_ap`, `sprintf`, the PIC, the LAPIC, the PIT, the timer
-- of the APIC, the registers of the HPET, `PagingBackend::initialize`, control registers, and the
-- remaining subsystems of the kernel.
pub mod Common
pub mod Mm
pub mod Pmm
pub mod Paging
pub mod Acpi
pub mod Boot
pub mod Graphics
pub mod Interrupts
pub mod Runtime
pub mod Slub
pub mod Time
pub mod Util
