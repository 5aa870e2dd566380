-- ===== src/Lib.antt =====
-- Verification of Virtual X68000, an emulator of the X68000 personal computer in C++.
--
-- The emulator has a library for the machine (libvx68k), a library for the operating system Human68k
-- (libvx68kdos) and a front end. The machine keeps one object for each device behind the address
-- space of the processor, and installs handlers for the IOCS calls of the guest, which act on the
-- devices directly. Timers and the video scan run beside the processor and read the same objects.
-- This library models the parts with logic of their own, in terms of explicit state:
--
--   Allocator   libvx68kdos/allocator.cc: `memory_allocator`, the chain of block headers that DOS
--               keeps in the memory of the guest. The memory is a parameter, `MemoryMap`, with
--               the law that a long word is read back where it was put and nowhere else.
--   TextVram    libvx68k/textvram.cc: `text_video_memory`, its marks of changed rasters, drawing,
--               scrolling, `fill_plane`, and `text_video_raster_iterator`. The iterator over words of the
--               processor library is a parameter, `WordIterator`; the glyph images of the connected
--               console are a parameter, `Glyphs`, which Font.Images fills.
--   Font        libvx68k/fontrom.cc: `font_rom`, the layout of the glyphs, _FNTADR and
--               _FNTGET. Font.Images: `copy_data`, which fills the ROM with the
--               images of the console, and these images in libvx68k-gtk/gtkconsole.cc.
--   Console     libvx68k/machine.cc: `b_putc` and `b_print` over the text VRAM.
--   Palettes    libvx68k/palettemem.cc: `palettes_memory`.
--   Crtc        libvx68k/crtcmem.cc: `crtc_memory` and its VDISP interrupts; _VDISPST of
--               libvx68k/systemrom.cc.
--   Opm         libvx68k/opmmem.cc: `opm_memory`, its registers and timers; _OPMINTST and
--               _OPMSET of libvx68k/systemrom.cc.
--   Mouse       libvx68k/sccmem.cc: the mouse of `scc_memory` and its IOCS calls.
--   MainMemory  libvx68kdos/main_memory.cc: `main_memory`.
--   Clock       libvx68k/systemrom.cc: the IOCS calls on the date and the time.
--   Disk        libvx68k/iocsdisk.cc: `image_file_floppy_disk`. The image file and the memory of the
--               guest are parameters.
--   Keys        libvx68k/machine.cc: the queue of key codes.
--   Machine     libvx68k/machine.cc: the address space that `configure` lays out over `memory_map`, which
--               is a parameter; `load_fd`, `unload_fd`, `read_disk` and the exceptions of `boot`;
--               the key events of libvx68k-gtk/gtkconsole.cc with the modifiers and the keyboard calls.
--   Screen      libvx68k-gtk/gtkconsole.cc: `handle_timeout` over `scan_row` of include/vx68k/machine.h,
--               in steps of one row between which the guest writes to TextVram and to Palettes.
--   Dma         libvx68k/dmacmem.cc: _DMAMOVE.
--   Iocs        libvx68k/systemrom.cc: the initial vectors, the table of the IOCS calls, the trap and
--               the entries of the calls in the ROM. Iocs.Table has the calls that each device
--               installs, Iocs.Calls those that only answer or change a register or a vector. The
--               way back from a handler that the guest installs is stated with the instructions
--               RTS and RTE of the MC68000.
--   Files       libvx68kdos/filesystem.cc and doscontext.cc: the handles of `dos_exec_context`, the
--               reference counts of `file_system`, and the classes of files.
--   FileName    libvx68kdos/filesystem.cc: `export_file_name`.
--   Loader      libvx68kdos/doscontext.cc: `load_executable` and its fix-ups.
--   Shell       libvx68kdos/shell.cc: the environment and the argument string; the constructor and the
--               destructor over the Allocator, with `mfree` of libvx68kdos/doscontext.cc.
--   Dos         libvx68kdos/dos.cc: the DOS calls, from the arguments on the stack to the result. They
--               act on the handles of Files, on the Allocator and on the Console. Dos.Reach has the
--               states that a program comes to, other instructions between the calls included.
--
-- Base holds what these share: Boolean tests, lists by native numbers, 32-bit words, integers, and
-- the function codes and results of an access. Under each component a module holds its definitions,
-- child modules hold the proofs by what they prove, and Examples the concrete runs.
--
-- Conventions. `uint32_type` and `unsigned int` are numbers with the wrap-around at 2^32 written out;
-- `uint32_type` is taken to have 32 bits. A device access gives a `Result`: the value, the exception
-- `bus_error`, or `out_of_bounds` for an access outside an array, which C++ leaves undefined. A call
-- of `context::interrupt` is part of the result of the step that makes it.
--
-- Fuel. The loops of the allocator follow addresses in the memory of the guest and need not end on a
-- damaged chain. They run on `rounds`, one more than the headers of 16 bytes below the limit, which a
-- well-formed chain cannot exceed. `free_by_parent` takes its fuel as an argument; one more than the
-- number of blocks is enough where it is used. The loop of `export_file_name` has a round for each
-- byte of the name and one more, that over the fix-ups one for each byte of the table. This is enough
-- for a table of whole offsets; behind the end of the table the code reads other memory and may not
-- end, and the model gives `beyond_table`. All other loops are structural.
--
-- Not modelled. The processor library libvm68k is not part of the repository. The devices whose
-- accesses return constants or print a message (mfpmem, ppimem, fdcmem, msm6258vmem, spritemem,
-- sysportmem, gvideomem), the rest of the front end (libvx68k-gtk, programs: windows, threads and the
-- command line), and the copies of GNU code (getopt, intl) have no logic of this program's own. Of
-- libvx68k/systemrom.cc the calls that only print a message and those on the disk, of
-- libvx68k/machine.cc `update_image`, which is not compiled, `write_disk`, `check_timers` and `connect`,
-- of libvx68k/textvram.cc `get_image`, of libvx68kdos _SUPER_JSR, which runs the processor, `load` and
-- the start of a program are left out. libvx68k/areaset.cc calls a function of the main memory that the
-- repository does not define, and libvx68k/sram.cc reads a file of the host. A DOS call reads its
-- arguments without a fault.
-- Mutexes are left out. An operation that locks holds the lock throughout its change; those of
-- TextVram take no lock, and Screen states what it shows under the condition that they and the rows
-- of the console do not overlap.
pub mod Base
pub mod Allocator
pub mod TextVram
pub mod Font
pub mod Console
pub mod Palettes
pub mod Crtc
pub mod Opm
pub mod Machine
pub mod Mouse
pub mod MainMemory
pub mod Clock
pub mod Disk
pub mod Keys
pub mod FileName
pub mod Files
pub mod Loader
pub mod Dos
pub mod Screen
pub mod Shell
pub mod Iocs
pub mod Dma
