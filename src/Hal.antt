-- ===== src/Hal.antt =====
-- c/hal.c, the hardware layer: pins, serial port, receive buffer, interrupts, timer and heap.
pub mod Gpio
pub mod Uart
pub mod Rx
pub mod Timer
pub mod Heap
