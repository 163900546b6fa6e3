-- ===== src/Lib.antt =====
-- The C++ programs and the assembler macros of this repository, modelled and proved.
--
-- The repository collects assembly for Linux on several architectures, and C++ programs that go with
-- it. They are independent programs; each part below models one group of them.
--
-- * Sudoku (archive/todo/sudoku/sudoku.cpp): the backtracking solver. The grid is a list of 81 cells;
--   `used_in_row`, `used_in_col`, `used_in_box`, `is_safe` and `get_unassigned_location` keep their
--   names. `solve_soduko` writes to the grid in place, so its model returns the grid with the answer.
--   Its recursion runs on fuel, one more than the number of blank cells, which is enough because each
--   level fills a blank. Sudoku/Rules states the rules apart from the program, Sudoku/Search the laws
--   of the tests, and Sudoku/Solve those of the search. `print_grid` and `main` are not modelled.
--
-- * Containers (archive/todo/optimization-examples/cppexamples): one module for each class template,
--   with the class as a record and each member function as a function that returns the new object.
--   Containers/Outcome has the ways to end: a value, `exit(1)`, undefined behaviour, a failed
--   allocation, and fuel that ran out. A pointer into a buffer is an index, and objects have no
--   constructor, as the sources ask.
--   - Fifo (FIFOlist.cpp) and Filo (FILOlist.cpp), with their refinements to a bounded queue and a
--     bounded stack in Fifo/Refine and Filo/Refine.
--   - SortedList (SortedList.cpp). `Search` runs on fuel, one more than the number of records, which
--     is enough because each round narrows the interval. Its `unsigned int` sum wraps at 2^32. The
--     argument of `Put` is a reference, which may lead into the list and is read after the move.
--     SortedList/Search has the binary search, SortedList/Contents the moves of records, and
--     SortedList/Put the members that use them.
--   - DynamicArray (DynamicArray.cpp) and DynamicQueue (DynamicQueue.cpp), with Growth for the
--     arithmetic that they share. `new TX[n]` is a parameter that returns a block of n objects with
--     any contents; a reference argument may point into the container's own buffer. DynamicQueue/Grow
--     has the move to a larger buffer, Laws in each directory the members, and
--     DynamicArray/Resize those that set the size.
--   - MixedPool (MixedPool.cpp), a buffer of bytes: MixedPool/Contents has the bytes pushed with the
--     zeroes behind them, MixedPool/Laws `Push` and `Get`, and MixedPool/Resize the other members. An
--     `int` that overflows is undefined, and so is a write beyond the end of a block.
--   - AlignedArray (AlignedArray.cpp), with its addresses: the block's and the first object's, which is
--     aligned, and the number of bytes that the block was asked for. `new char[n]` is a parameter that
--     returns an address.
--   - StringPool (StringPoolS.cpp), strings in one buffer with an offset for each index, and 0 for an
--     empty one. A `PChar` is null, a block outside, or an offset into the buffer. StringPool/Layout
--     has what it is for a pool to stand for texts, Offsets the lists of offsets, Compact, Last, Reserve
--     and Grow have `ReserveBuf`, Put, Spots, Vacant, Allocate, Place and Misplaced `Allocate`, Index
--     `ReserveNum`, Copy and Half the `memcpy` of a string into the pool, and Set, Fresh, Chars,
--     Substring, Concatenate, Erase, Element and Read the members that change and read strings. `new` of
--     both blocks is a parameter, and the padding is 0, as without asmlib. A `memcpy` of overlapping
--     characters is undefined, also of a block onto itself. `Printf`, `Write`,
--     `SearchForSubstring` and the comparisons, which call the C library, are not modelled.
--   - StringPoolL (StringPoolL.cpp), the same pool with the length of each string in two bytes in front
--     of it. Its fields are those of StringPool, and its functions have names of their own. Sums of type
--     `unsigned int` wrap at 2^32, and a length of 16 bits at 2^16, in StringPoolL/Length.
--     StringPoolL/Sized and Grow have `ReserveBuf`.
--   - Memory has `int` arithmetic, `memset` and `memcpy`, and Memory/Text zero-terminated strings.
--   - Circular has the circular arrays that Fifo and DynamicQueue share.
--   Destructors and the error messages are not modelled.
--
-- * MersenneTwister (archive/todo/mersenne-twister/MT19937-64.c): the static array and index are a
--   record that each function passes on. The loops that write the array in place are recursions on the
--   number of rounds left. MersenneTwister/Recurrence has the generation of a block, Seed the seeding
--   and the calls, and Keys the seeding by an array. The outputs as `double` are not modelled.
--
-- * Oop (architectures/include/oop and architectures/arch/x86_64/include/oop): the macros that give
--   the GNU assembler classes. Oop/Layout has `CLASS`, `FIELD`, `EXTENDS` and `ENDCLASS` of class.h as
--   steps on the assembler's table of symbols, and the layout of the two classes of the demo in
--   architectures/arch/x86_64/examples/oop/demo. Oop/Object has `NEW`, `VCALL`, `DELETE` and `SET_TYPE`
--   as the instructions that they expand to, and Oop/Machine what these instructions do to registers,
--   memory in words of 8 bytes, and the stack. What a called function does is a parameter; each call
--   is recorded with its target, its first argument and the stack pointer. Oop/Dispatch has the laws
--   of `NEW` and `VCALL`, Oop/Delete those of `DELETE`. Flags, instruction addresses and the pushed
--   return address are not modelled, and neither are the sections of vtable.h.
--
-- * Base has the names and lemmas that the parts share.
--
-- Not modelled: StringPoolW (StringPoolS over `wchar_t`) and SafeArray, the system call tables and
-- macros, copies of third-party libraries (FastNoise, nasmx), programs that only call libraries or print
-- (bluetooth, mouse, memfd, qt, TLS), the NASM sources, and the build scripts.
pub mod Base
pub mod Containers
pub mod MersenneTwister
pub mod Oop
pub mod Sudoku
