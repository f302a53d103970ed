-- ===== src/Lib.antt =====
-- A model of two preload libraries: liballoc_return_override, which replaces the libc functions that
-- return memory to their caller, and libmock_allocator, which stands in front of the C library's
-- allocator and records what passes through it.
--
-- Parts, and how they interact:
-- * Registry, for the table in src/mock_allocator.c: `ao_registry_insert_locked`, `_lookup_locked` and
--   `_remove_locked` are `insert_locked`, `lookup_locked` and `remove_locked`. Registry.Probe has the
--   order in which slots are visited and the invariant, Registry.Lookup, Registry.Insert and
--   Registry.Remove the loops, Registry.Refine the finite map behind the table, Registry.Count its
--   entries and their bytes, Registry.Calls whole sequences of calls.
--   Registry.Lock has `ao_registry_lock` and `ao_registry_unlock` as steps of threads that read and write
--   the table a slot at a time in between.
-- * Stats, for the counters there and the capture depth: each `ao_record_*` and `ao_live_*` function,
--   `ao_mock_reset`, `ao_mock_begin_capture`, `ao_mock_end_capture` and `ao_mock_get_stats`.
--   Stats.Capture has sequences of their calls.
-- * Bootstrap, for the static heap there that serves the calls of `dlsym`: `ao_bootstrap_alloc` is
--   `alloc_among`, with the offsets that other threads leave as a list, or `alloc` without them;
--   `ao_bootstrap_realloc` is `realloc`.
-- * Mock, for `malloc`, `calloc`, `realloc` and `free` there, the once-only resolution of the real
--   functions, and the bridge of include/allocator_bridge.h. Mock.Command has the state and the
--   commands over it, in which `ao_fatal` ends the run, and so does a call through a pointer to a real
--   function that is not resolved. Mock.World has the real allocator and `dlsym`
--   as parameters, with the documented laws of the former. Mock.Consistent has the invariant: every
--   entry of the registry is a live block of the real heap, and the counters of live memory count
--   the entries and add up their sizes, modulo 2 ^ 64. Mock.Allocate, Mock.Free and Mock.Realloc have
--   the entry points outside of the resolver, Mock.Resolve the resolution and what `dlsym` calls inside of
--   it, Mock.Bridge the bridge, Mock.Race the end of a `realloc` among other threads,
--   and Mock.Messages `ao_fatal` with `ao_write_literal`, over what `write` answers.
-- * Scanf, for src/scanf_overrides.c: Scanf.Chars, Scanf.Plan and Scanf.Parse have the two parsers of
--   formats, which note the `%m` conversions; Scanf.Rehome has the moves of what these have allocated
--   into blocks of the overridden `malloc`; Scanf.Wrap has the resolution of the symbols, the wrappers
--   and the entry points. The allocator, the real functions and `dlsym` are parameters.
--   Scanf.Formats has formats as literal characters and conversions, how they are written, and what is
--   to be noted of them.
-- * Memstream, for the memory streams of bytes in src/memstream_overrides.c: `ao_memstream_grow`,
--   `_write` and `_seek` are `grow`, `write` and `seek`. What `realloc` answers is a parameter.
--   Memstream.Write has the single write and Memstream.Sequence whole sequences of writes and seeks
--   against a file. Memstream.Open has the opening and closing, with the blocks that are allocated, and
--   Memstream.Wide the streams of wide characters, on the same cookie and with `mbsnrtowcs` as a
--   parameter.
-- * Paths, for src/path_overrides.c and src/helpers.c: Paths.Cwd has `getcwd` and
--   `get_current_dir_name`, Paths.Realpath the loop of `realpath` and Paths.Realpath.Finish what stands
--   around it, and Paths.Tempnam `tempnam` with `ao_randname`.
--   What the kernel answers is a parameter. The two arrays of `realpath` are lists: the bytes that are
--   still to be read, up to the end of `stack`, and the first `q` bytes of `output`. Paths.Realpath.Names
--   has paths as names behind a start, Paths.Realpath.Rounds the bounds and the number of the rounds,
--   Paths.Realpath.Reference two descriptions of the loop without its arrays: a function on names where
--   there are no links, and in Follows a relation with them; Short has the lengths for the first.
--   Paths.Realpath.Climb, Joined and Canonical have the part behind the loop, and Paths.Realpath.Whole
--   the result. Paths.Tempnam.Fresh has the names of `tempnam`.
-- * Dirent, for src/dirent_overrides.c; the entries of the directory are a list.
-- * Strings, Stdio and Sched, for src/string_overrides.c, src/stdio_overrides.c and
--   src/sched_overrides.c, with `malloc` and `vsnprintf` as parameters. Paths uses `strdup` of Strings.
-- * Getdelim, for src/line_overrides.c: `ao_grow_line_buffer` and `getdelim`, on an input that is a list of
--   bytes. What `realloc` answers is a parameter.
-- * Base has the names that all of them share, and Examples an allocator to run them on, with runs.
--
-- Choices. Pointers are addresses, and 0 is `NULL`. A `size_t` is a number below 2 ^ 64, an `int` and
-- an `unsigned int` a 32-bit pattern, and sums are reduced where the C code may wrap. The loops of the
-- registry make `AO_REGISTRY_CAPACITY` rounds, as in C; the loops over a format are given its length
-- in rounds, and that of `realpath` a number that is enough for 40 links; `strlen` looks through an
-- address space of 2 ^ 64 bytes. The sizes of C types are those of the 64-bit ABIs.
--
-- Not modelled: the memory orders of the atomics (outside of Registry.Lock code under the lock, and each
-- update of a counter, is one step), the contents
-- of blocks of the real heap in Mock, and the bytes of the plan's own array in Scanf. The
-- variable arguments of `asprintf` are those of `vasprintf`, `closedir` leaves `errno`, and the locks of
-- streams are left out. The `errno` of Scanf is what the code there sets itself, and `none` where its
-- callees leave theirs. The real heap of Mock is a set of live blocks, and what it is asked for is stated
-- of each call. A loop over a format that does not end in its rounds is a result of its own.
pub mod Base
pub mod Bootstrap
pub mod Dirent
pub mod Examples
pub mod Getdelim
pub mod Memstream
pub mod Mock
pub mod Paths
pub mod Registry
pub mod Scanf
pub mod Sched
pub mod Stats
pub mod Stdio
pub mod Strings
