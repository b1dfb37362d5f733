-- ===== src/Lib.antt =====
-- A model of the auxiliary kernel loader for IPQ-4XXX and IPQ-806X boards, with its theorems.
--
-- The head moves the loader and the kernel image behind it to where they were linked for; start-up
-- code clears the BSS and calls `loader_main`, which checks the architecture number, reads
-- the image's magic word, lets one of two handlers place the kernel, switches the caches off and
-- jumps; every refusal arms the watchdog and waits for it.
--
-- Where what is modelled (paths from the repository's root):
--   Machine    the memory as bytes, device and coprocessor registers, the globals, a trace of what
--              is visible outside (src/include/io.h), and `printf` as a run of the machine
--   Board      src/board.c: `ntohl`, and Traps (dump_mem, hang, raise, __div0)
--   Fdt        src/fdt.c and src/include/uimage/fdt.h
--   Printf     src/printf.c: Digits (my_dec2str, my_hex2str), Number (PrintNum, PrintChar,
--              PrintString), Format (lp_Print, printf_output, printf),
--              Reference (an independent formatter)
--   Lzma       src/lzma.c; the LZMA SDK is a parameter (Outcome: what is made of its answers)
--   Cache      src/cpu.c: cache maintenance (Sweep, Geometry and Levels: the lines of a level and
--              of all levels), Mmu (the page table), Control (switches, cleanup and its order),
--              Invariant (its operations in any order)
--   Drivers    src/watchdog.c, src/gpio.c, src/timer.c, src/mdio.c, src/qcom_uart.c
--              (Uart, with `printf` through `serial_putc`)
--   Loader     src/loader.c: Memcpy, Legacy and Fit (the image handlers), Preinits, and the main
--              function, with Settled, Ends, Starts, FitBoot, FitStart for how it can
--              end, Verdict and Outcome for the answers of `load_image`, Duty for what it has to do
--              with an image, WritesBack for the cache, and Meets and Every for images of any
--              content
--   Startup    src/head.S and src/start.S: Relocation (copy_loop), Bss (clear_bss), Entry, the
--              way from the boot loader's jump to `loader_main`, Boots, on to the kernel,
--              Linked and Fulfils, on to the outcome that the image asks for, and Concludes, on to
--              the end for a payload of any content
--   Tests      concrete images and machines
--
-- A C function that touches the machine is a function from machines to runs, and keeps the C
-- function's name. A run returns, stays in a deliberate endless loop, has undefined behaviour, or is
-- not finished within the fuel that a loop of the model has. Words are numbers below 2 ^ 32 with the
-- wrap-around written out. What a device register answers is a function of all that happened
-- before. `char` is unsigned, as on ARM, `int` and `long` have 32 bits. The negation of `%d`
-- wraps around where C leaves the overflow undefined, and a width or a precision is the number that
-- the format shows, also above the largest `int`.
--
-- Fuel: the search in a tree and its string loop take a number that the blob's end address bounds;
-- the copy loops take one round more than there are bytes; the digit loops eleven and nine rounds;
-- `lp_Print` a round for each character of the format and one more; the timer's loop a number of
-- readings, which is enough if it is above the readings that the counter takes to move, times one
-- more than the ticks to wait for. The polling loops of the UART take a number of readings, of which the hardware's answer must be
-- among the first ones; the start-up loops take a round for every eight bytes of the payload, and
-- one more than there are words in the BSS.
--
-- Not modelled: the copy of the LZMA SDK (src/LzmaDecode.c), `debug` output, the block of the
-- preinits under `if(0)`, the stack pointer and the unreachable vector slots of the start-up code,
-- and the kernel itself, behind whose call only the reset stands. The loader's own instructions and
-- its stack are not in the memory of the model: that a copy to an address of the image's choice
-- writes over them is outside of it, as is an access that the processor faults on.
pub mod Base
pub mod Machine
pub mod Board
pub mod Fdt
pub mod Printf
pub mod Lzma
pub mod Cache
pub mod Drivers
pub mod Loader
pub mod Startup
pub mod Tests
