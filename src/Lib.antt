-- ===== src/Lib.antt =====
-- neoSYCL: a SYCL runtime in header files. A command group is submitted to a queue; a handler locks
-- the buffers that it accesses and makes device copies of them; kernels run on the host, or on a
-- device through a program; a buffer's destructor brings the data home.
--
-- The parts and their files (paths of the repository are below include/neoSYCL/sycl):
--   Prelude    shared names, Boolean tests, lists, arrays of fixed length, names as text.
--   SizeT, ArrayNd, Range, Id, Item
--              detail/container/array_nd.hpp, op_def.hpp, range.hpp, id.hpp, nd_range.hpp, item.hpp:
--              `ArrayND` as a vector of numbers below 2^64, one function for each macro of
--              operators; the operator itself is a value of `BinaryOp`.
--   ParallelFor
--              detail/handler.hpp: the loops of `parallel_for` over a kernel that transforms a state
--              and may throw. Box: the loops as a walk over a list of indices. Visits: how often an
--              index is visited.
--   Outcome    exception.hpp, and the ways in which a call ends: a value, an exception, waiting for
--              a lock, undefined behaviour.
--   Memory     host memory as blocks of bytes, with `malloc`, `free` and `memcpy`.
--   Access, Mutex
--              access.hpp and detail/container/data_container.hpp.
--   Backend    the memory operations of `program_data` for the host (detail/program.hpp) and the
--              CPU device (detail/cpu/program.hpp), as a record that the handler is given.
--              VectorEngine: the same over the VEO library, extensions/nec beside the sycl folder.
--   Buffer     detail/container/buffer_container.hpp and `CopybackProxy` of detail/program.hpp.
--   Handler    handler.hpp: `alloc_mem_` (`locate`, `take_lock`), `get_ptr_`, the destructor
--              (`unlock_all`). Locks, Mapping, Pointers: what it locks and maps. Moves,
--              Runs: the same in steps, an entry before its lock. Exclusive, Exclusion: several
--              handlers at once. Copy, Transfer: the explicit memory operations.
--              Launch: `set_range` and the guards of `parallel_for`. Debugging: `get_ptr_` built with
--              DEBUG.
--   Platform   detail/device.hpp, detail/platform.hpp, device_selector/cpu_selector.hpp, and
--              extensions/nec/ve_selector.hpp beside the sycl folder. Objects: platform.hpp and
--              device.hpp, the objects behind platforms and devices, which point to one another.
--              Registered: those of the registered devices. Info: get_info.
--   Event      event.hpp.
--   Program    detail/context.hpp, detail/program.hpp, detail/kernel.hpp, detail/cpu/program.hpp:
--              which devices have program data (Devices), the two caches of kernels (Caches), and
--              the launch of a kernel on the CPU device, `run` of handler.hpp (Launch). Handles:
--              program.hpp, kernel.hpp, the objects behind programs; Kernels: what a kernel keeps.
--              Opening: which program data open, of each class of device. Names: the name of a kernel.
--   Queue      queue.hpp and detail/task_counter.hpp: the threads of a queue as a step relation.
--              Wait: its invariant. Drain: that the queue empties. Front: the constructors of a
--              queue, and `submit` for one command group, in both builds. Submit: how it ends.
--              Default: `queue()`. Results, Holding, Sequence: from `submit` to the data of the host,
--              for one command group and for several.
--   Builtin    detail/builtin/integer.hpp and common.hpp on unsigned numbers of `w` bits.
--   Math       detail/builtin/math.hpp, over the operations on floating-point numbers as a parameter.
--              Magnitude: maxmag and minmag. Outputs, Pairs: the loops with two results.
--              Blend: the functions of common.hpp on floating-point numbers.
--   Relational detail/builtin/relational.hpp. Ordered: isordered and isunordered.
--   Container, Accessor
--              detail/container/data_container_nd.hpp, accessor.hpp, detail/runtime/acc.hpp: which
--              element an index names. Container also: Storage, the constructors of a container and
--              who owns its memory, with their sequences (Lifetime), the counts of owners (Counts,
--              Ownership) and what a copy holds (Copying). Memory suffices for what is allocated,
--              the elements need no destructor, and no other code frees or overwrites in between.
--   SyclBuffer buffer.hpp and the front of accessor.hpp: constructors, `get_access`, sizes,
--              comparisons. Ranged: accessors to a part of a buffer. Brackets: `operator[]` on numbers.
--   Vector     detail/builtin/vec.hpp and op_defs.hpp: one loop, `assign_loop`, for all macros.
--              Common, Integer: the vector functions of common.hpp and integer.hpp. Dot, Geometry:
--              geometric.hpp.
--   VectorEngine
--              extensions/nec/program.hpp and veo_util.hpp: the process (Process) and its kernels.
--   Kout       include/neoSYCL/kout and src of the repository, the outliner, which moves kernels
--              into device code: what a kernel refers to (Finding, Sorting), the texts (Print), the
--              members of the class (Layout), the symbols (Symbols), the items that the loops make
--              (Items), the statements printed in clang's place (Helper), calls and aliases of a
--              translation unit (Visitor), and the files written (Files).
--   Tests      runs at small inputs.
--
-- How they interact: a handler is given a `Backend` and a number by which the containers' device
-- maps know it; it changes a `World`, the heap with the containers, which all handlers share. The
-- explicit copies and the copy back move bytes through the same `Backend`. A program gives each
-- device its `program_data`, which a handler looks up by its device. The outliner writes the class,
-- the object, the range variable and the function that a program looks for by name in the library
-- that the device code is compiled to.
--
-- Bounds and fuel: `size_t` has 64 bits. The loops of `parallel_for` recur on the rounds left. The
-- loop of `popcount` has fuel `w + 1` and that of `clz` fuel `w` on numbers of `w` bits, which is
-- enough, for `clz` on numbers other than 0. Memory that the source reads past the end of an
-- array is a parameter, `stray`. The counter of a queue is a natural number, an `int` in the source.
--
-- Parameters: what `malloc` leaves in a block, the calls of the VEO library, `dlsym`,
-- the call of a library's function, which libraries `dlopen` opens, the compiler's type
-- information (`hash_code` and the name of a class), what clang answers about a declaration, the
-- order in which it meets declarations, and the text that it prints for a type or a body.
--
-- Not modelled: floating-point functions that are only an instance of a macro at a function of
-- <cmath>, the swizzles of `vec` (only declared), the loops of the device code as they run, which
-- OpenMP does in parallel, and the options of the outliner's `main`.
pub mod Prelude
pub mod SizeT
pub mod ArrayNd
pub mod Range
pub mod Id
pub mod Item
pub mod ParallelFor
pub mod Outcome
pub mod Memory
pub mod Access
pub mod Mutex
pub mod Backend
pub mod Buffer
pub mod Handler
pub mod Platform
pub mod Program
pub mod Event
pub mod Queue
pub mod Builtin
pub mod Container
pub mod Accessor
pub mod VectorEngine
pub mod SyclBuffer
pub mod Math
pub mod Relational
pub mod Vector
pub mod Kout
pub mod Tests
