-- ===== src/Lib.antt =====
-- HaskellOS, a bare-metal Haskell system for the Raspberry Pi Zero: the C code between the hardware
-- and the MicroHs evaluator, and the evaluator's threads.
--
-- The parts. c/hal.c drives the GPIO pins, the mini UART, the system timer, the ARM timer's interrupt
-- with the receive buffer that it shares with the evaluator, and the kernel heap. c/rts-stubs.c is the
-- C library that the evaluator is linked against: its allocator stands on the kernel heap, its output
-- on the UART. c/spi.c and c/emmc.c drive the SPI bus and the SD card on the same pins, timer and UART;
-- c/sd.c wraps the card for the Haskell programs.
--
-- How C is modelled (Base). An `unsigned` is a number below 2^32 whose wrap is written out (`u32`,
-- `sub32`, `not32`); an `int` is its pattern, and Base/Int says what integer a pattern stands for.
-- A function that touches the board (Base/Io) takes the globals of its part and the list of the answers
-- that its volatile loads will get, and ends as an `Outcome`: with a value, the new globals, the
-- answers left and the trace of its accesses; still waiting for an answer; in `reboot`; or at an access
-- that C leaves undefined. Every behaviour of the devices is some list of answers, so a statement for
-- all lists is one for all behaviours. A polling loop recurs on that list, and thus needs no fuel; the
-- two loops of c/emmc.c that call the delay inside (`poll_clear`, `check_sdhc_support`) take one round
-- more than there are answers, and each round uses one up. Memory is a function from addresses to
-- bytes, and words are little-endian. A loop that runs to a zero byte (`strlen` and its like) takes
-- fuel, and `none` means that it ran out: each theorem about one says that any fuel above the text's
-- length is enough. The loops of a bounded count recur on the count.
--
-- The files, by the code that they model; functions keep their names without the prefix `c_`.
--   Hal/Gpio     c/hal.c, c_gpio_*: the pins' function, level and state; Fields and Levels are about the
--                registers' fields and the pins' levels.
--   Hal/Uart     c/hal.c, c_uart_* and uart_put*: Sent is about the bytes on the line, Print about the
--                numbers among them.
--   Hal/Rx       c/hal.c, uart_rx_buf_*, irq_dispatch_c and the interrupts' set-up, with the globals
--                uart_rx_*, timer_tick_count and preempt_pending as the record `Irq`; Queue refines the
--                buffer to a bounded queue, Dispatch is about a run of the handler.
--   Hal/Timer    c/hal.c, c_delay_us and c_delay_ms.
--   Hal/Heap     c/hal.c, heap_init, kmalloc and kmalloc_aligned, with heap_ptr, heap_end and memory as
--                the record `Heap`.
--   Libc         c/rts-stubs.c: Division (__aeabi_uidiv, __aeabi_idiv), Memory (mem*), Text (str*),
--                Number (the character classes and strtol), Alloc (malloc, free, calloc, realloc),
--                Sort (qsort, with Sequence about sorted
--                sequences of any elements, and bsearch), Printf (vsnprintf, and mhs_printf of c/extra.c), Bits (the
--                bit-counting builtins), Stubs (output, time, exit, and the hooks of c/extra.c).
--   Spi          c/spi.c: c_spi_init, c_spi_transfer, c_spi_set_chip_select; Exchange and Transfer are
--                about the bytes of a transfer, Ready about its end.
--   Emmc         c/emmc.c and c/emmc.h: Command (emmc_cmd, TO_REG, the table), Clock
--                (get_clock_divider), Device (emmc_device, the registers, the waits), Issue
--                (do_data_transfer to emmc_app_command), Card (the steps of a card's reset), Blocks
--                (emmc_card_reset to emmc_init); Sd is c/sd.c.
--   Start        c/cstart.c, _cstart.
--   Eval         c/eval.c, its threads: Threads (struct mthread, mqueue, mvar and the globals, as the
--                record `Rts`), Queue (the linked queues, with the list that each stands for), Run
--                (functions that may jump instead of returning, resched, new_thread, new_mvar), Moves
--                (the run queue), Mvar (take_mvar, read_mvar, put_mvar, throwto, thread_intr), Schedule
--                (yield, check_timeq, thread_delay, pause_exec, and the check before each reduction),
--                Exec (start_exec, with the reducer evali and die_exn as arguments),
--                FreeMap (the bitmap of free cells and alloc_node), Stable (the table of stable
--                pointers).
--   Tests        each theorem at a concrete input.
--
-- The threads (Eval). c/eval.c is the run-time system of MicroHs, which this repository patched so that
-- the interrupt handler of c/hal.c can ask for a switch through preempt_pending. The scheduler that the
-- patch acts on is modelled, and the patch with it. Threads and MVars live in two stores, functions from
-- addresses. A function over the globals returns, jumps by `longjmp`, or stops in `ERR`. What the clock
-- gives, and the addresses that mmalloc gives, are arguments. The loops over a queue take fuel, and each
-- theorem about one says that more fuel than the queue has threads is enough.
--
-- What is not modelled. The assembly of asm/ is taken as the accesses that its C callers ask for:
-- loads, stores, barriers and the interrupt switch. Interrupts come between calls and not inside one,
-- so `irq_dispatch` is a step of its own. `free` keeps its block, as in the code. The stubs
-- of c/rts-stubs.c that only return a constant, the rest of the evaluator c/eval.c (its
-- reducer, parser and garbage collector: third-party code with small patches) and the
-- Haskell programs of hs/ are not modelled.
pub mod Base
pub mod Hal
pub mod Emmc
pub mod Libc
pub mod Spi
pub mod Start
pub mod Eval
pub mod Tests
